-- ===== src/Filesystem/Fat/Table.antt =====
-- The file allocation table: reading and writing its entries, and taking and giving back clusters.
pub mod Links
pub mod Allocate
pub mod Examples
use pingu_os.Common.{
  ℕ, zero, suc, ◌+◌, ◌*◌, ◌-◌, ◌/◌, ◌%◌, ◌^◌, Option, none, some, ◌==◌, leb, if◌then◌else◌, add32,
  mul32,
}
use pingu_os.Common.Bytes.{Bytes, fill, get_u32, set_u32}
use pingu_os.Allocator.{Allocator, Buffer}
use pingu_os.Drivers.Disk.{Disk}
use pingu_os.Filesystem.{FsError, success, out_of_memory}
use pingu_os.Filesystem.Fat.{Fat32}

-- `bytes_per_sector / 4`
abbrev pub per_sector : {D M : Type 0} → Fat32 D M → ℕ
per_sector fs = fs.bpb.bytes_per_sector / 4

-- `m_fat_start + fat_sector`
abbrev pub table_sector : {D M : Type 0} → Fat32 D M → ℕ → ℕ
table_sector fs cluster = add32 fs.fat_start (cluster / per_sector fs)

-- The byte at which the entry stands in its sector.
abbrev pub table_byte : {D M : Type 0} → Fat32 D M → ℕ → ℕ
table_byte fs cluster = 4 * (cluster % per_sector fs)

-- `NUM_ENTRIES`
abbrev pub num_entries : {D M : Type 0} → Fat32 D M → ℕ
num_entries fs = mul32 fs.bpb.table_size (per_sector fs)

module _ {D M : Type 0} (dev : Disk D) where
  -- What `buf` holds after a read of the table sector of `cluster`.
  unfoldable pub read_table : Fat32 D M → ℕ → Bytes → Bytes
  read_table fs cluster buf =
      fill buf (dev.read_28 fs.disk (table_sector fs cluster) fs.bpb.bytes_per_sector).1

  -- The disk after a write of `buf` to the table sector of `cluster`.
  unfoldable pub write_table : Fat32 D M → ℕ → Bytes → D
  write_table fs cluster buf = (dev.write_28 fs.disk (table_sector fs cluster) buf).1

  unfoldable pub get_next_cluster : Fat32 D M → ℕ → ℕ × Fat32 D M
  get_next_cluster fs cluster =
      let buf = read_table fs cluster fs.sector_buf in
      (get_u32 buf (table_byte fs cluster) % 2 ^ 28, record fs { sector_buf = buf })

  -- `m_sector_buf` with the entry of `cluster` replaced, written back.
  unfoldable pub store_entry : Fat32 D M → ℕ → ℕ → Fat32 D M
  store_entry fs cluster value =
      let buf = set_u32 (read_table fs cluster fs.sector_buf) (table_byte fs cluster) value in
      record fs { disk = write_table fs cluster buf; sector_buf = buf }

  unfoldable pub link_next_cluster : Fat32 D M → ℕ → ℕ → Fat32 D M
  link_next_cluster fs current next = store_entry fs current next

  unfoldable pub unlink_cluster : Fat32 D M → ℕ → ℕ → Fat32 D M
  unlink_cluster fs prev current = store_entry fs prev 0x0FFFFF

  module _ (mem : Allocator M) where
    -- The loop of `allocate_cluster` from `cluster` on, with `rounds` clusters to go. A cluster
    -- that is found keeps the buffer: the source returns without the call of `free`.
    unfoldable pub allocate_from : ℕ → Fat32 D M → ℕ → Buffer → ℕ × Fat32 D M
    allocate_from zero fs cluster sector = (0, record fs { heap = mem.free fs.heap sector.addr })
    allocate_from (suc rounds) fs cluster sector =
        let buf = read_table fs cluster sector.bytes in
        let taken = set_u32 buf (table_byte fs cluster) 0x0FFFFFFF in
        let rest = allocate_from rounds fs (cluster + 1) (record sector { bytes = buf }) in
        if get_u32 buf (table_byte fs cluster) % 2 ^ 28 == 0
        then (cluster, record fs { disk = write_table fs cluster taken })
        else rest

    unfoldable pub allocate_in : Fat32 D M → Option Buffer → ℕ × Fat32 D M
    allocate_in fs none = (0, fs)
    allocate_in fs (some sector) = allocate_from (num_entries fs - 1) fs 2 sector

    -- 0 if there is no memory for the buffer, or no free cluster.
    unfoldable pub allocate_cluster : Fat32 D M → ℕ × Fat32 D M
    allocate_cluster fs =
        let (block, heap) = mem.malloc fs.heap fs.bpb.bytes_per_sector in
        allocate_in (record fs { heap = heap }) block

    unfoldable pub deallocate_in : Fat32 D M → ℕ → Option Buffer → FsError × Fat32 D M
    deallocate_in fs del_cluster none = (out_of_memory, fs)
    deallocate_in fs del_cluster (some sector) =
        let buf = set_u32 (read_table fs del_cluster sector.bytes) (table_byte fs del_cluster) 0 in
        (
          success,
          record fs { disk = write_table fs del_cluster buf; heap = mem.free fs.heap sector.addr },
        )

    unfoldable pub deallocate_cluster : Fat32 D M → ℕ → FsError × Fat32 D M
    deallocate_cluster fs del_cluster =
        let (block, heap) = mem.malloc fs.heap fs.bpb.bytes_per_sector in
        deallocate_in (record fs { heap = heap }) del_cluster block
