-- ===== src/Pci/Drivers.antt =====
-- `select_drivers` and `get_driver` of src/hardware_communication/pci.cpp: what is done with the
-- functions that are found.
use Prim.Native.Nat.{bit_and, bit_or}
use pingu_os.Common.{
  ℕ, zero, suc, ◌+◌, Bool, not, ◌&&◌, ◌||◌, Option, none, some, [], ◌∷◌, ◌++◌, ◌==◌, if◌then◌else◌,
  shr,
}
use pingu_os.Common.Bytes.{Bytes, codes}
use pingu_os.Port.{Ports}
use pingu_os.Kernel.{hex_digits}
use pingu_os.Drivers.Manager.{DriverManager, add_driver}
use pingu_os.Pci.{
  Function, BarType, mm, io, BaseAddressRegister, PciDeviceDescriptor, write, get_device_descriptor,
  get_base_address_register, device_has_functions, command_offset, num_bus, num_devices, num_bars,
}

abbrev pub hex_digits32 : ℕ → Bytes
hex_digits32 value =
    hex_digits (bit_and (shr value 24) 0xFF)
    ++ hex_digits (bit_and (shr value 16) 0xFF)
    ++ hex_digits (bit_and (shr value 8) 0xFF)
    ++ hex_digits (bit_and value 0xFF)

-- What a base address register with an address and a size adds to the descriptor.
unfoldable pub noted : PciDeviceDescriptor → BaseAddressRegister → BarType → PciDeviceDescriptor
noted dev bar io = record dev { type = io; port_base = bar.addr }
noted dev bar mm =
    if dev.memory_base == 0
    then record dev { type = mm; memory_base = bar.addr; memory_size = bar.size }
    else dev

unfoldable pub note_register : PciDeviceDescriptor → BaseAddressRegister → PciDeviceDescriptor
unfolding noted
note_register dev bar =
    if not (bar.addr == 0) && not (bar.size == 0) then noted dev bar bar.type else dev

-- What is printed of a device that there is no driver for; the case of class 1 goes on with class 3.
unfoldable pub graphics_name : ℕ → Bytes
graphics_name subclass_id = if subclass_id == 0x00 then codes "VGA: " else []

unfoldable pub storage_name : ℕ → ℕ → Bytes
storage_name subclass_id interface_id =
    if subclass_id == 0x01
    then codes "IDE Controller: "
    else (if subclass_id == 0x05
        then codes "ATA Controller: "
        else (if subclass_id == 0x06
            then codes "SATA Controller: "
              ++ (if interface_id == 0x01 then codes "AHCI 1.0: " else [])
            else []))

unfoldable pub device_name : PciDeviceDescriptor → Bytes
unfolding graphics_name storage_name
device_name dev =
    if dev.class_id == 0x00
    then (if dev.subclass_id == 0x01 then codes "Pre PCI 2.0 VGA: " else [])
    else (if dev.class_id == 0x01
        then storage_name dev.subclass_id dev.interface_id ++ graphics_name dev.subclass_id
        else (if dev.class_id == 0x03 then graphics_name dev.subclass_id else []))

abbrev pub is_82540em : PciDeviceDescriptor → Bool
is_82540em dev = dev.vendor_id == 0x8086 && dev.device_id == 0x100E

unfoldable pub describe_82540em : PciDeviceDescriptor → Bytes
describe_82540em dev =
    codes "Intel 82540EM"
    ++ (codes " - Memory Base: 0x"
        ++ (hex_digits32 dev.memory_base
            ++ (codes ", Size: 0x"
                ++ (hex_digits32 dev.memory_size
                    ++ (codes ", Interrupt: 0x"
                        ++ (hex_digits32 dev.interrupt
                            ++ (0x0A ∷ codes "Instantiating Driver ")))))))

unfoldable pub describe_function : Function → PciDeviceDescriptor → Bytes
describe_function f dev =
    codes " BUS "
    ++ (hex_digits (bit_and f.bus 0xFF)
        ++ (codes ", DEV "
            ++ (hex_digits (bit_and f.device 0xFF)
                ++ (codes ", FN "
                    ++ (hex_digits (bit_and f.function 0xFF)
                        ++ (codes ", VENDOR ID "
                            ++ (hex_digits (shr (bit_and dev.vendor_id 0xFF00) 8)
                                ++ (hex_digits (bit_and dev.vendor_id 0xFF)
                                    ++ (codes ", DEVICE ID "
                                        ++ (hex_digits (shr (bit_and dev.device_id 0xFF00) 8)
                                            ++ (hex_digits (bit_and dev.device_id 0xFF)
                                                ++ 0x0A ∷ [])))))))))))

abbrev pub no_memory : Option ℕ → Bytes
no_memory none = codes " Could not allocate memory" ++ 0x0A ∷ []
no_memory (some driver) = []

abbrev pub with_driver : DriverManager → Option ℕ → DriverManager
with_driver m none = m
with_driver m (some driver) = add_driver m driver

-- The ports, the drivers so far, and what has been printed.
pub record Found (P : Type 0) : Type 0 where
  pub ports : P
  pub drivers : DriverManager
  pub printed : Bytes

-- `construct` gets memory for the driver of a device and runs its constructor, whose prints are not
-- followed here: it gives the driver's address, or `none` where there is no memory. `unset` is the type of a register that is not set.
module _ {P : Type 0} (ports : Ports P) (construct : P → PciDeviceDescriptor → Option ℕ × P)
    (unset : BarType) where
  -- The rounds of the loop over the registers, from `bar_num` on.
  unfoldable pub note_registers :
      ℕ → ℕ → P → Function → PciDeviceDescriptor → PciDeviceDescriptor × Bytes × P
  note_registers zero bar_num p f dev = (dev, [], p)
  note_registers (suc rounds) bar_num p f dev =
      let (bar, warning, p') = get_base_address_register ports unset p f bar_num in
      let (dev', printed, q) = note_registers rounds (bar_num + 1) p' f (note_register dev bar) in
      (dev', warning ++ printed, q)

  -- The memory and the bus mastering bits of the command register, where neither is set.
  unfoldable pub enable_device : P → PciDeviceDescriptor → P
  enable_device p dev =
      if bit_and dev.command 0x06 == 0
      then write ports p dev.place command_offset (bit_or dev.command 0x06)
      else p

  unfoldable pub get_driver : P → PciDeviceDescriptor → Option ℕ × Bytes × P
  get_driver p dev =
      let (driver, p') = construct (enable_device p dev) dev in
      if is_82540em dev
      then (driver, describe_82540em dev ++ no_memory driver, p')
      else (none, device_name dev, p)

  abbrev pub is_absent : PciDeviceDescriptor → Bool
  is_absent dev = dev.vendor_id == 0x0000 || dev.vendor_id == 0xFFFF

  -- A function that is there: its registers, and a driver for it.
  unfoldable pub take_function : Found P → Function → PciDeviceDescriptor → Found P
  take_function s f dev =
      let (dev', warnings, p₁) = note_registers num_bars 0 s.ports f dev in
      let (driver, text, p₂) = get_driver p₁ dev' in
      record {
        ports = p₂;
        drivers = with_driver s.drivers driver;
        printed = s.printed ++ (warnings ++ (text ++ describe_function f dev'));
      }

  unfoldable pub visit : Found P → Function → Found P
  visit s f =
      let (dev, p) = get_device_descriptor ports unset s.ports f in
      if is_absent dev then record s { ports = p } else take_function (record s { ports = p }) f dev

  -- The three loops, each with its rounds left.
  unfoldable pub visit_functions : ℕ → ℕ → Found P → ℕ → ℕ → Found P
  visit_functions zero fn s bus device = s
  visit_functions (suc rounds) fn s bus device =
      visit_functions rounds (fn + 1)
        (visit s (record { bus = bus; device = device; function = fn })) bus device

  unfoldable pub visit_devices : ℕ → ℕ → Found P → ℕ → Found P
  visit_devices zero device s bus = s
  visit_devices (suc rounds) device s bus =
      let (many, p) = device_has_functions ports s.ports bus device in
      visit_devices rounds (device + 1)
        (visit_functions (if many then 8 else 1) 0 (record s { ports = p }) bus device) bus

  unfoldable pub visit_buses : ℕ → ℕ → Found P → Found P
  visit_buses zero bus s = s
  visit_buses (suc rounds) bus s = visit_buses rounds (bus + 1) (visit_devices num_devices 0 s bus)

  unfoldable pub select_drivers : Found P → Found P
  select_drivers s = visit_buses num_bus 0 s
