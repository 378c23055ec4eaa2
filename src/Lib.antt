-- ===== src/Lib.antt =====
-- PinguOS, a 32-bit hobby kernel in C++: what of it is modelled here, and what is proved.
--
-- The program. The kernel (src/kernel.cpp) sets up a heap, segment descriptors, interrupts, a
-- round-robin scheduler, drivers found on the PCI bus, and a FAT32 file system on an ATA disk. The
-- heap and the scheduler are reached through global pointers; the file system reaches its disk
-- through the interface drivers::Disk, and memory through memory_management::Allocator.
--
-- Which file models which part:
--   MemoryManagement  src/memory_management.cpp, include/memory_management.h. LinearAllocator is a
--                     first header and a memory of headers at addresses; `init`, `malloc` and
--                     `free` are the constructor and the two operations. The search runs on fuel;
--                     one more than there are chunks is enough.
--   Allocator         include/allocator.h, the interface, as a record that its clients take;
--                     MemoryManagement.Service makes the heap one.
--   Gdt               src/gdt.cpp: SegmentDescriptor, its Base and Limit, the selectors.
--   Multitask         src/multitask.cpp: TaskManager; a task is the address of its record, and what
--                     the records hold is a function, so that one task may stand in the table twice.
--                     Multitask.Task is the state that a task starts from, Multitask.Starting
--                     how the scheduler comes to it.
--   Interrupts        src/hardware_communication/interrupts.cpp: the gates, the table of handlers, the
--                     dispatch, and which manager is active. A handler is its address.
--   Port              include/hardware_communication/port.h, the interface of byte ports.
--   Vga               src/drivers/vga.cpp; coordinates are 32-bit words, compared as signed numbers
--                     where the source does.
--   Drivers.Disk      include/drivers/disk.h, the interface with the laws that its clients rely on;
--                     Drivers.Disk.Mock is a disk in memory that satisfies them.
--   Drivers.Ata       src/drivers/ata.cpp: the commands over the ports, which return an Outcome with
--                     the error, the bytes read, what is printed, and the ports. Ata.Device says
--                     what a drive does, Ata.Controller is one in memory; Ata.Serving puts the driver
--                     under the interface of Drivers.Disk.
--   Drivers.Keyboard  src/drivers/keyboard.cpp, include/drivers/keyboard.h: the scan codes (Keys), the
--                     cases of the switch (Cases), the handler and the driver.
--   Drivers.Mouse     src/drivers/mouse.cpp: the driver; the calls of its handler are a list of events.
--                     Mouse.Textual is the handler for the text mode.
--   Drivers.Manager   src/drivers/driver.cpp: the table of drivers, each by its address.
--   Drivers.Intel82540em  src/drivers/intel_82540em.cpp: registers and rings in the record Nic; Control
--                     has the registers, the PHY and the EEPROM, Setup the constructor, Receiving and
--                     Missing the proofs on handle_rx.
--   Pci               src/hardware_communication/pci.cpp: the two ports of the configuration space,
--                     the base address registers, and the search of all buses (Pci.Drivers).
--   Gui               src/gui/: widgets at addresses, one record for all classes; Gui.Draw has the
--                     drawing, Gui.Shape and Gui.Ends what the calls between widgets leave and why they
--                     end, Gui.Cursor, Gui.Dragging, Gui.Grip and Gui.Focus the proofs on the cursor,
--                     a dragged window, and the focus.
--   Syscalls          src/syscalls.cpp.
--   Filesystem.Msdospart  src/filesystem/msdospart.cpp: the boot record; Partitions has read_partitions,
--                     with what it prints as a list of lines.
--   Kernel            src/kernel.cpp: `printf` and the cells of the screen in text mode.
--   PathUtils         include/common/path_utils.hpp. A C string is the list of its characters.
--   Filesystem        include/filesystem/filesystem.h, the shared types.
--   Filesystem.Fat    src/filesystem/fat.cpp and include/filesystem/fat.h. The state is the record
--                     Fat32 with the disk behind m_disk and the heap behind the global pointer:
--                     Table (entries, allocation), Clusters (read_cluster, write_cluster),
--                     Directory (the iterator), Entries (create and find an entry), Files (read,
--                     seek, the loops of write), Write, Paths (operations on paths), Mount. Files.Contents
--                     says what the bytes of a file are, Files.Area where its clusters lie; Files.Rounds
--                     and Reading are about the loop of read, Files.Filling and Overwriting about the
--                     last loop of write, Files.Unlinked about a chain that was cut, and Write.Search, Steps
--                     and Behind about the rest of write.
--
-- Numbers are the native natural numbers; uint32_t arithmetic wraps where the source's may, in
-- add32, sub32 and mul32. A loop whose end depends on what the disk holds takes fuel and gives
-- `none` if the fuel is too little, as the source would go on; loops with a count are recursion on
-- that count. In write_cluster and read_cluster the fuel is one more than the bytes to move, which
-- is enough where a sector has at least one byte. The loops of the ATA driver that read the status
-- need more fuel than the drive is busy for, and handle_rx needs one more than the ring has places.
-- The calls between widgets need as much as there are levels of them.
--
-- Parameters: the ports, the disk and, for the file system, the allocator. The laws of the disk, the
-- allocator and an ATA drive are the hypotheses IsDisk, IsAllocator and IsAta; which bytes a keyboard
-- or a mouse controller delivers is a hypothesis too. What arrays on the stack hold before they
-- are set, what an interrupt handler returns, how the driver of a PCI function is constructed, and
-- what the network card does to the ring of send_packet, are parameters too. IsConfig says what the
-- configuration space of PCI does.
--
-- Not modelled: single instructions (ports, lgdt, lidt), assembly (src/loader.s and the interrupt
-- stubs), kernel main, and the tests.
pub mod Common
pub mod MemoryManagement
pub mod Allocator
pub mod Gdt
pub mod Multitask
pub mod Interrupts
pub mod Port
pub mod Vga
pub mod Drivers
pub mod Kernel
pub mod Pci
pub mod PathUtils
pub mod Filesystem
pub mod Gui
pub mod Syscalls
