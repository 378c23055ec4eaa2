-- ===== src/Filesystem/Msdospart/Partitions.antt =====
-- `MSDOSPartitionTable::read_partitions` of src/filesystem/msdospart.cpp: each partition is mounted, its
-- root directory listed, and a file of it printed.
use pingu_os.Common.{
  ℕ, zero, suc, ◌+◌, ◌%◌, ◌^◌, Bool, false, Option, some, ◌>>=◌, List, [], ◌∷◌, ◌++◌, ◌==◌, ltb,
  if◌then◌else◌, length, drop, take,
}
use pingu_os.Common.Bytes.{Bytes, codes, c_string}
use pingu_os.Allocator.{Allocator}
use pingu_os.Drivers.Disk.{Disk}
use pingu_os.Kernel.{hex_digits}
use pingu_os.Filesystem.{is_success, FileEntry, FileHandle}
use pingu_os.Filesystem.Fat.{Fat32}
use pingu_os.Filesystem.Fat.Mount.{fat32, get_fs_name, mount}
use pingu_os.Filesystem.Fat.Paths.{open_file, print_list_directory}
use pingu_os.Filesystem.Fat.Files.{read}
use pingu_os.Filesystem.Msdospart.{
  PartitionTableEntry, MasterBootRecord, boot_record_size, parse_boot_record,
}

-- Whether the loop over the partitions goes on, what has been printed, the disk and the heap.
pub record Printed (D M : Type 0) : Type 0 where
  pub goes_on : Bool
  pub lines : List Bytes
  pub disk : D
  pub heap : M

abbrev pub partition_line : ℕ → PartitionTableEntry → List Bytes
partition_line i entry =
    codes " Partition: "
    ∷ hex_digits i
    ∷ (if entry.bootable == 0x80 then codes " Bootable, Type " else codes " Not Bootable, Type ")
    ∷ hex_digits entry.partition_id
    ∷ codes "\n=== Using new FAT32 class ===\n"
    ∷ codes "Mounting... "
    ∷ []

-- The bytes read as a C string: the terminator stands behind them, or over the last of 512.
abbrev pub file_lines : Bytes → List Bytes
file_lines bytes =
    codes "0x"
    ∷ hex_digits (length bytes % 2 ^ 8)
    ∷ codes " bytes read\n     "
    ∷ c_string (if ltb (length bytes) 512 then bytes else take 511 bytes)
    ∷ codes "\n"
    ∷ []

-- `held` is what the memory of the FAT32 object holds, `handle` the handle before it is opened;
-- `garbage`, `uninit` and `fuel` are those of the operations on paths.
module _ {D M : Type 0} (dev : Disk D) (mem : Allocator M) (held : Fat32 D M) (handle : FileHandle)
    (garbage : Bytes) (uninit : FileEntry) (fuel : ℕ) where
  -- The file of a volume that has been mounted, behind the lines printed so far.
  unfoldable pub print_file : List Bytes → Fat32 D M → Option (Printed D M)
  print_file lines fs = do
    (err, opened) ← open_file dev garbage uninit fuel fs (codes "/FILE2.TXT") handle
    let failed : Printed D M = record {
      goes_on = false;
      lines = lines ++ codes "Failed to open " ∷ [];
      disk = fs.disk;
      heap = fs.heap;
    }
    let reading = read dev mem fuel fs opened 512 >>= λ (err', handle', bytes, fs'). some (record {
      goes_on = is_success err';
      lines = lines ++ (if is_success err' then file_lines bytes else codes "Failed to read " ∷ []);
      disk = fs'.disk;
      heap = fs'.heap;
    })
    if is_success err then reading else some failed

  unfoldable pub print_volume : List Bytes → ℕ → Fat32 D M → Option (Printed D M)
  print_volume lines i fs = do
    (err, listed, fs') ← print_list_directory dev garbage uninit fuel mem fs (codes "/")
    print_file
        (lines ++ codes "Mounted " ∷ get_fs_name ∷ codes ": " ∷ hex_digits i ∷ codes "\n" ∷ listed)
        fs'

  unfoldable pub print_partition : ℕ → PartitionTableEntry → D → M → Option (Printed D M)
  print_partition i entry disk heap =
      let (err, fs) = mount dev (fat32 held disk heap entry.start_lba) in
      let lines = partition_line i entry in
      let rest = print_volume lines i fs in
      if is_success err
      then rest
      else some (record {
        goes_on = false;
        lines = lines ++ codes "Mount unsuccessful\n " ∷ [];
        disk = fs.disk;
        heap = fs.heap;
      })

  -- `rounds` partitions from `i` on.
  unfoldable pub print_partitions : ℕ → ℕ → MasterBootRecord → D → M → Option (List Bytes × D × M)
  print_partitions zero i mbr disk heap = some ([], disk, heap)
  print_partitions (suc rounds) i mbr disk heap =
      let entry = mbr.primary_partition i in
      let skipped = print_partitions rounds (i + 1) mbr disk heap in
      let used =
        (print_partition i entry disk heap >>= λ printed.
        let more =
          (print_partitions rounds (i + 1) mbr printed.disk printed.heap
            >>= λ (lines, disk', heap'). some (printed.lines ++ lines, disk', heap')) in
        if printed.goes_on then more else some (printed.lines, printed.disk, printed.heap)) in
      if entry.partition_id == 0x00 then skipped else used

  -- What is printed, the disk and the heap; `buffer` is what the memory of the record holds.
  unfoldable pub read_partitions : Bytes → D → M → Option (List Bytes × D × M)
  unfolding parse_boot_record
  read_partitions buffer disk heap =
      let bytes = (dev.read_28 disk 0 boot_record_size).1 in
      let mbr = parse_boot_record (bytes ++ drop boot_record_size buffer) in
      let rest = print_partitions 4 0 mbr disk heap in
      if mbr.magic_number == 0xAA55 then rest else some (codes "Illegal MBR!" ∷ [], disk, heap)
