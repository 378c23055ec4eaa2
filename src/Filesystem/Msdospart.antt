-- ===== src/Filesystem/Msdospart.antt =====
-- `MSDOSPartitionTable` of src/filesystem/msdospart.cpp: the master boot record.
pub mod Partitions
use Prim.Native.Nat.{bit_and}
use pingu_os.Common.{
  ℕ, ◌+◌, ◌*◌, Option, none, some, [], ◌++◌, ◌==◌, if◌then◌else◌, get_or, drop, take, shr,
}
use pingu_os.Common.Bytes.{Bytes, codes, get_u16, get_u32}
use pingu_os.Drivers.Disk.{Disk}

pub record PartitionTableEntry : Type 0 where
  pub bootable : ℕ
  pub start_head : ℕ
  pub start_sector : ℕ
  pub start_cylinder : ℕ
  pub partition_id : ℕ
  pub end_head : ℕ
  pub end_sector : ℕ
  pub end_cylinder : ℕ
  pub start_lba : ℕ
  pub len : ℕ

abbrev pub entry_size : ℕ
entry_size = 16

-- The packed structure at a position; sector and cylinder share a word of 16 bits.
unfoldable pub parse_partition : Bytes → ℕ → PartitionTableEntry
unfolding get_u16 get_u32
parse_partition b at = record {
  bootable = get_or b at 0;
  start_head = get_or b (at + 1) 0;
  start_sector = bit_and (get_u16 b (at + 2)) 0x3F;
  start_cylinder = shr (get_u16 b (at + 2)) 6;
  partition_id = get_or b (at + 4) 0;
  end_head = get_or b (at + 5) 0;
  end_sector = bit_and (get_u16 b (at + 6)) 0x3F;
  end_cylinder = shr (get_u16 b (at + 6)) 6;
  start_lba = get_u32 b (at + 8);
  len = get_u32 b (at + 12);
}

pub record MasterBootRecord : Type 0 where
  pub bootloader : Bytes
  pub sig : ℕ
  pub unused : ℕ
  pub primary_partition : ℕ → PartitionTableEntry
  pub magic_number : ℕ

abbrev pub boot_record_size : ℕ
boot_record_size = 512

unfoldable pub parse_boot_record : Bytes → MasterBootRecord
unfolding parse_partition get_u16 get_u32
parse_boot_record b = record {
  bootloader = take 440 b;
  sig = get_u32 b 440;
  unused = get_u16 b 444;
  primary_partition = λ i. parse_partition b (446 + entry_size * i);
  magic_number = get_u16 b 510;
}

pub record MsdosPartitionTable : Type 0 where
  pub m_mbr : MasterBootRecord

-- `SUCCESS` with the offset, or `PARTITION_DOES_NOT_EXIST`, as `none`.
unfoldable pub get_partition_offset : MsdosPartitionTable → ℕ → Option ℕ
get_partition_offset table partition_number =
    let entry = table.m_mbr.primary_partition partition_number in
    if entry.partition_id == 0x00 then none else some entry.start_lba

module _ {D : Type 0} (dev : Disk D) where
  -- The constructor, with what it prints. It reads into a local variable that hides the field, which
  -- keeps what memory held; so does the buffer behind the bytes that are read.
  unfoldable pub partition_table : MasterBootRecord → Bytes → D → MsdosPartitionTable × Bytes
  unfolding parse_boot_record
  partition_table held buffer disk =
      let bytes = (dev.read_28 disk 0 boot_record_size).1 in
      let mbr = parse_boot_record (bytes ++ drop boot_record_size buffer) in
      (record { m_mbr = held }, if mbr.magic_number == 0xAA55 then [] else codes "Illegal MBR!")
