-- ===== src/Filesystem/Fat/Clusters.antt =====
-- `read_cluster`, `write_cluster` and `zero_cluster` of src/filesystem/fat.cpp: the bytes of a
-- cluster.
pub mod Whole
pub mod RoundTrip
pub mod Partial
pub mod Runs
pub mod Slices
pub mod Storing
use pingu_os.Common.{
  ℕ, zero, suc, ◌+◌, ◌*◌, ◌-◌, ◌/◌, ◌%◌, ◌^◌, Bool, true, false, not, Option, none, some, ◌>>=◌,
  List, [], ◌∷◌, ◌++◌, ◌==◌, leb, ltb, if◌then◌else◌, length, take, drop, add32, mul32, sub32,
}
use pingu_os.Common.Bytes.{Bytes, fill}
use pingu_os.Allocator.{Allocator, Buffer}
use pingu_os.Drivers.Disk.{Disk}
use pingu_os.Filesystem.{FsError, success, out_of_memory, is_success}
use pingu_os.Filesystem.Fat.{Fat32}

-- `sectors_per_cluster * bytes_per_sector`
abbrev pub cluster_size : {D M : Type 0} → Fat32 D M → ℕ
cluster_size fs = fs.bpb.sectors_per_cluster * fs.bpb.bytes_per_sector

-- The first sector of a cluster.
abbrev pub first_sector : {D M : Type 0} → Fat32 D M → ℕ → ℕ
first_sector fs cluster = add32 fs.data_start (mul32 fs.bpb.sectors_per_cluster (sub32 cluster 2))

-- `size` clamped to the size of a cluster.
abbrev pub clamp : {D M : Type 0} → Fat32 D M → ℕ → ℕ
clamp fs size = if ltb (cluster_size fs) size then cluster_size fs else size

-- The lesser of two numbers, as the source computes it.
abbrev pub lesser : ℕ → ℕ → ℕ
lesser a b = if ltb b a then b else a

module _ {D M : Type 0} (dev : Disk D) where
  -- The loop over whole sectors: the bytes read and what is left, `none` if the fuel does not reach.
  unfoldable pub read_full : ℕ → Fat32 D M → ℕ → ℕ → Option (Bytes × ℕ × ℕ)
  read_full zero fs start_sector size = none
  read_full (suc fuel) fs start_sector size =
      let bytes = (dev.read_28 fs.disk start_sector fs.bpb.bytes_per_sector).1 in
      let rest = read_full fuel fs (add32 start_sector 1) (size - fs.bpb.bytes_per_sector) in
      if leb fs.bpb.bytes_per_sector size
      then (rest >>= λ (more, sector, left). some (bytes ++ more, sector, left))
      else some ([], start_sector, size)

  unfoldable pub zero_from : ℕ → Fat32 D M → ℕ → ℕ → Fat32 D M
  zero_from zero fs cluster i = fs
  zero_from (suc rounds) fs cluster i =
      let sector = add32 (first_sector fs cluster) i in
      zero_from rounds (record fs { disk = (dev.write_28 fs.disk sector (0 ∷ [])).1 }) cluster
        (i + 1)

  -- The source has no `return` here: the caller gets no error to look at.
  unfoldable pub zero_cluster : Fat32 D M → ℕ → Fat32 D M
  unfolding zero_from
  zero_cluster fs cluster = zero_from fs.bpb.sectors_per_cluster fs cluster 0

  module _ (mem : Allocator M) where
    -- The last part of `read_cluster`, after `done` have been read, with the block for a part of a
    -- sector.
    unfoldable pub read_tail :
        Fat32 D M → Option Buffer → Bytes → ℕ → ℕ → FsError × Bytes × Fat32 D M
    read_tail fs none done start_sector size = (out_of_memory, done, fs)
    read_tail fs (some temp) done start_sector size =
        let tail = take size (fill temp.bytes (dev.read_28 fs.disk start_sector size).1) in
        let fs' = record fs { heap = mem.free fs.heap temp.addr } in
        (success, (if size == 0 then done else done ++ tail), fs')

    -- `temp` is the block of the first part, if there was one.
    unfoldable pub read_end :
        Fat32 D M → Option Buffer → Bytes → ℕ → ℕ → FsError × Bytes × Fat32 D M
    read_end fs (some temp) done sector left = read_tail fs (some temp) done sector left
    read_end fs none done sector left =
        let (block, heap) = mem.malloc fs.heap fs.bpb.bytes_per_sector in
        if left == 0
        then (success, done, fs)
        else read_tail (record fs { heap = heap }) block done sector left

    unfoldable pub read_rest :
        Fat32 D M → Option Buffer → Bytes → ℕ → ℕ → Option (FsError × Bytes × Fat32 D M)
    read_rest fs temp done start_sector size = do
      (bytes, sector, left) ← read_full (size + 1) fs start_sector size
      some (read_end fs temp (done ++ bytes) sector left)

    -- The first part, from `sector_offset` on in its sector.
    unfoldable pub read_partial :
        Fat32 D M → Option Buffer → ℕ → ℕ → ℕ → Option (FsError × Bytes × Fat32 D M)
    read_partial fs none start_sector sector_offset size = some (out_of_memory, [], fs)
    read_partial fs (some temp) start_sector sector_offset size =
        let sector = fill temp.bytes (dev.read_28 fs.disk start_sector fs.bpb.bytes_per_sector).1 in
        let bytes_to_read = lesser (fs.bpb.bytes_per_sector - sector_offset) size in
        read_rest fs (some (record temp { bytes = sector }))
          (take bytes_to_read (drop sector_offset sector)) (add32 start_sector 1)
          (size - bytes_to_read)

    -- The error, and the bytes that have been stored in the caller's buffer.
    unfoldable pub read_cluster : Fat32 D M → ℕ → ℕ → ℕ → Option (FsError × Bytes × Fat32 D M)
    read_cluster fs cluster offset size =
        let start_sector = add32 (first_sector fs cluster) (offset / fs.bpb.bytes_per_sector) in
        let sector_offset = offset % fs.bpb.bytes_per_sector in
        let (block, heap) = mem.malloc fs.heap fs.bpb.bytes_per_sector in
        if sector_offset == 0
        then read_rest fs none [] start_sector (clamp fs size)
        else read_partial (record fs { heap = heap }) block start_sector sector_offset
            (clamp fs size)

    -- A write of a part of a sector that does not begin at its start: the bytes in front are read.
    unfoldable pub write_partial : Fat32 D M → Option Buffer → ℕ → ℕ → Bytes → FsError × Fat32 D M
    write_partial fs none start_sector sector_offset bytes = (out_of_memory, fs)
    write_partial fs (some sector_buf) start_sector sector_offset bytes =
        let head = fill sector_buf.bytes (dev.read_28 fs.disk start_sector sector_offset).1 in
        let all = take sector_offset head ++ bytes in
        (
          success,
          record fs {
            disk = (dev.write_28 fs.disk start_sector all).1;
            heap = mem.free fs.heap sector_buf.addr;
          },
        )

    -- One round of the loop of `write_cluster`.
    unfoldable pub write_sector : Fat32 D M → ℕ → ℕ → Bytes → FsError × Fat32 D M
    write_sector fs start_sector sector_offset bytes =
        let (block, heap) = mem.malloc fs.heap fs.bpb.bytes_per_sector in
        if sector_offset == 0
        then (success, record fs { disk = (dev.write_28 fs.disk start_sector bytes).1 })
        else write_partial (record fs { heap = heap }) block start_sector sector_offset bytes

    -- The loop; `buffer` starts at the byte to write next. The source begins a part of a sector at
    -- the start of its buffer, where this stands in the first round.
    unfoldable pub write_from : ℕ → Fat32 D M → ℕ → ℕ → Bytes → ℕ → Option (FsError × Fat32 D M)
    write_from zero fs start_sector sector_offset buffer size = none
    write_from (suc fuel) fs start_sector sector_offset buffer size =
        let num_bytes = lesser (fs.bpb.bytes_per_sector - sector_offset) size in
        let (err, fs') = write_sector fs start_sector sector_offset (take num_bytes buffer) in
        let rest =
          write_from fuel fs' (add32 start_sector 1) 0 (drop num_bytes buffer) (size - num_bytes) in
        if size == 0 then some (success, fs) else (if is_success err then rest else some (err, fs'))

    unfoldable pub write_cluster : Fat32 D M → ℕ → Bytes → ℕ → ℕ → Option (FsError × Fat32 D M)
    write_cluster fs cluster buffer offset size =
        let start_sector = add32 (first_sector fs cluster) (offset / fs.bpb.bytes_per_sector) in
        write_from (clamp fs size + 1) fs start_sector (offset % fs.bpb.bytes_per_sector) buffer
          (clamp fs size)
