-- ===== src/Filesystem/Fat.antt =====
-- The FAT32 driver of src/filesystem/fat.cpp: its state and its on-disk records.
pub mod Table
pub mod Directory
pub mod Clusters
pub mod Files
pub mod Entries
pub mod Write
pub mod Paths
pub mod Examples
pub mod Mount
use Prim.Native.Nat.{bit_and}
use pingu_os.Common.{
  ℕ, zero, suc, ◌+◌, ◌*◌, ◌-◌, ◌/◌, ◌%◌, ◌^◌, Bool, true, false, not, ◌&&◌, ◌||◌, List, [], ◌∷◌,
  ◌++◌, ltb, leb, ◌==◌, if◌then◌else◌, length, get_or, take, drop, add32, mul32, sub32,
}
use pingu_os.Common.Bytes.{Bytes, get_u16, get_u32}

-- The fields of the boot sector, as far as the driver reads them.
pub record BiosParameterBlock32 : Type 0 where
  pub bytes_per_sector : ℕ
  pub sectors_per_cluster : ℕ
  pub reserved_sectors : ℕ
  pub fat_copies : ℕ
  pub table_size : ℕ
  pub root_cluster : ℕ
  pub fat_type_label : Bytes

-- `sizeof(BiosParameterBlock32)`, packed
abbrev pub bpb_size : ℕ
bpb_size = 90

-- The packed structure at the start of a boot sector.
unfoldable pub parse_bpb : Bytes → BiosParameterBlock32
parse_bpb b = record {
  bytes_per_sector = get_u16 b 11;
  sectors_per_cluster = get_or b 13 0;
  reserved_sectors = get_u16 b 14;
  fat_copies = get_or b 16 0;
  table_size = get_u32 b 36;
  root_cluster = get_u32 b 44;
  fat_type_label = take 8 (drop 82 b);
}

-- The object, with the disk behind `m_disk` and the heap behind `active_memory_manager`.
pub record Fat32 (D M : Type 0) : Type 0 where
  pub disk : D
  pub heap : M
  pub partition_offset : ℕ
  pub mounted : Bool
  pub bpb : BiosParameterBlock32
  pub fat_start : ℕ
  pub data_start : ℕ
  pub sector_buf : Bytes

abbrev pub entry_end : ℕ
entry_end = 0x00

abbrev pub entry_deleted : ℕ
entry_deleted = 0xE5

-- `IS_END_OF_CHAIN`
unfoldable pub is_end_of_chain : ℕ → Bool
is_end_of_chain cluster = leb 0x0FFFF8 cluster

-- `sizeof(DirectoryEntryFat32)`
abbrev pub dir_entry_size : ℕ
dir_entry_size = 32

pub record DirectoryEntryFat32 : Type 0 where
  pub name : Bytes
  pub attributes : ℕ
  pub reserved : ℕ
  pub c_tenth_time : ℕ
  pub c_time : ℕ
  pub c_date : ℕ
  pub a_time : ℕ
  pub first_cluster_hi : ℕ
  pub w_time : ℕ
  pub w_date : ℕ
  pub first_cluster_lo : ℕ
  pub size : ℕ

-- The packed structure, as it lies on the disk.
unfoldable pub parse_entry : Bytes → DirectoryEntryFat32
parse_entry b = record {
  name = take 11 b;
  attributes = get_or b 11 0;
  reserved = get_or b 12 0;
  c_tenth_time = get_or b 13 0;
  c_time = get_u16 b 14;
  c_date = get_u16 b 16;
  a_time = get_u16 b 18;
  first_cluster_hi = get_u16 b 20;
  w_time = get_u16 b 22;
  w_date = get_u16 b 24;
  first_cluster_lo = get_u16 b 26;
  size = get_u32 b 28;
}

-- The two bytes of a 16-bit field, and the four of a 32-bit field.
abbrev pub bytes16 : ℕ → Bytes
bytes16 v = v % 2 ^ 8 ∷ v / 2 ^ 8 % 2 ^ 8 ∷ []

abbrev pub bytes32 : ℕ → Bytes
bytes32 v = v % 2 ^ 8 ∷ v / 2 ^ 8 % 2 ^ 8 ∷ v / 2 ^ 16 % 2 ^ 8 ∷ v / 2 ^ 24 % 2 ^ 8 ∷ []

-- The fields behind the name, as they lie on the disk.
abbrev pub entry_fields : DirectoryEntryFat32 → Bytes
entry_fields e =
    e.attributes ∷ e.reserved ∷ e.c_tenth_time ∷ []
    ++ bytes16 e.c_time
    ++ bytes16 e.c_date
    ++ bytes16 e.a_time
    ++ bytes16 e.first_cluster_hi
    ++ bytes16 e.w_time
    ++ bytes16 e.w_date
    ++ bytes16 e.first_cluster_lo
    ++ bytes32 e.size

-- The structure as the bytes that it consists of.
unfoldable pub entry_bytes : DirectoryEntryFat32 → Bytes
entry_bytes e = e.name ++ entry_fields e
