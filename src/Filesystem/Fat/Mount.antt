-- ===== src/Filesystem/Fat/Mount.antt =====
-- Mounting a volume: `FAT32::mount`, `unmount` and `detect` of src/filesystem/fat.cpp.
pub mod Geometry
use pingu_os.Common.{
  length, ℕ, ◌+◌, Bool, true, false, not, List, [], ◌∷◌, ◌==◌, ltb, if◌then◌else◌, add32, mul32,
  ◌&&◌,
}
use pingu_os.Common.Bytes.{Bytes, codes}
use pingu_os.Drivers.Disk.{Disk}
use pingu_os.Filesystem.{FsError, success, invalid_filesystem}
use pingu_os.Filesystem.Fat.{Fat32, BiosParameterBlock32, parse_bpb, bpb_size}
use pingu_os.PathUtils.{strcmp}

-- The constructor: the fields that it does not set keep what the memory of the object held.
unfoldable pub fat32 : {D M : Type 0} → Fat32 D M → D → M → ℕ → Fat32 D M
fat32 held disk heap partition_offset = record held {
  disk = disk;
  heap = heap;
  partition_offset = partition_offset;
  mounted = false;
}

-- What `get_fs_name` returns.
abbrev pub get_fs_name : Bytes
get_fs_name = codes "FAT32"

module _ {D M : Type 0} (dev : Disk D) where
  -- What `m_bpb` is after the read, which stores all its bytes or, where it fails, none.
  unfoldable pub read_bpb : Fat32 D M → BiosParameterBlock32
  read_bpb fs =
      let bytes = (dev.read_28 fs.disk fs.partition_offset bpb_size).1 in
      if length bytes == 0 then fs.bpb else parse_bpb bytes

  -- What has been read stays in `m_bpb` also where the volume is then refused.
  unfoldable pub mount : Fat32 D M → FsError × Fat32 D M
  mount fs =
      let bpb = read_bpb fs in
      let fs' = record fs { bpb = bpb } in
      let fat_start = add32 fs.partition_offset bpb.reserved_sectors in
      let data_start = add32 fat_start (mul32 bpb.table_size bpb.fat_copies) in
      if not (bpb.bytes_per_sector == 512)
      then (invalid_filesystem, fs')
      else (if ltb 8 bpb.sectors_per_cluster then (invalid_filesystem, fs') else (
        success,
        record fs' { fat_start = fat_start; data_start = data_start; mounted = true },
      ))

  unfoldable pub unmount : Fat32 D M → Fat32 D M
  unmount fs = record fs { mounted = false }

-- `label_name`
abbrev pub label_name : Bytes
label_name = b'F' ∷ b'A' ∷ b'T' ∷ b'3' ∷ b'2' ∷ b' ' ∷ b' ' ∷ b' ' ∷ []

-- Whether two labels agree in each character.
unfoldable pub same_label : Bytes → Bytes → Bool
same_label [] [] = true
same_label [] (y ∷ ys) = false
same_label (x ∷ xs) [] = false
same_label (x ∷ xs) (y ∷ ys) = if not (x == y) then false else same_label xs ys

unfoldable pub detect : Bytes → Bool
detect boot_sector =
    let bpb = parse_bpb boot_sector in
    if not (bpb.bytes_per_sector == 512)
    then false
    else (if bpb.fat_copies == 0
        then false
        else (if bpb.table_size == 0 then false else same_label bpb.fat_type_label label_name))
