-- ===== src/Filesystem/Fat/Files.antt =====
-- `FAT32::read`, `seek` and `close` of src/filesystem/fat.cpp, and the loops of `write`.
pub mod Chains
pub mod Seek
pub mod Contents
pub mod Rounds
pub mod Reading
pub mod Following
pub mod Access
pub mod Repeats
pub mod Unlinked
pub mod Area
pub mod Filling
pub mod Overwriting
pub mod Examples
use pingu_os.Common.{
  ℕ, zero, suc, ◌+◌, ◌*◌, ◌-◌, ◌/◌, ◌%◌, ◌^◌, Bool, true, false, not, ◌&&◌, ◌||◌, Option, none,
  some, ◌>>=◌, List, [], ◌∷◌, ◌++◌, ◌==◌, leb, ltb, if◌then◌else◌, length, take, drop, add32, mul32,
  sub32,
}
use pingu_os.Common.Bytes.{Bytes}
use pingu_os.Allocator.{Allocator}
use pingu_os.Drivers.Disk.{Disk}
use pingu_os.Filesystem.{
  FsError, success, out_of_memory, invalid_path, end_of_chain, disk_full, is_success, FileHandle,
}
use pingu_os.Filesystem.Fat.{Fat32, is_end_of_chain}
use pingu_os.Filesystem.Fat.Table.{
  get_next_cluster, link_next_cluster, allocate_cluster, deallocate_cluster,
}
use pingu_os.Filesystem.Fat.Clusters.{cluster_size, read_cluster, write_cluster, lesser}

unfoldable pub close : FileHandle → FileHandle
close handle = record handle { valid = false }

unfoldable pub seek_to : FileHandle → ℕ → Option ℕ → FsError × FileHandle
seek_to handle position none = (end_of_chain, handle)
seek_to handle position (some cluster) =
    (success, record handle { cluster = cluster; position = position })

module _ {D M : Type 0} (dev : Disk D) where
  -- `index` steps along the chain; `none` where it ends before.
  unfoldable pub follow : ℕ → Fat32 D M → ℕ → Option ℕ × Fat32 D M
  follow zero fs cluster = (some cluster, fs)
  follow (suc index) fs cluster =
      let (next, fs') = get_next_cluster dev fs cluster in
      let rest = follow index fs' next in if is_end_of_chain next then (none, fs') else rest

  -- The walk starts at the handle's present cluster.
  unfoldable pub seek : Fat32 D M → FileHandle → ℕ → FsError × FileHandle × Fat32 D M
  seek fs handle position =
      let (at, fs') = follow (position / cluster_size fs) fs handle.cluster in
      let (err, handle') = seek_to handle position at in
      if not handle.valid
      then (invalid_path, handle, fs)
      else (if ltb handle.size position
          then (invalid_path, handle, fs)
          else (if position == 0
              then (success, record handle { cluster = handle.start_cluster; position = 0 }, fs)
              else (err, handle', fs')))

  -- The loop that counts the clusters of a file: how many there are, the one that is the
  -- `needed`-th (0 before there is one), the last, and the buffer's new content; on `fuel`.
  unfoldable pub count_chain :
      ℕ
      → Fat32 D M
      → (needed cluster count last_needed last_valid : ℕ) → Option (ℕ × ℕ × ℕ × Fat32 D M)
  count_chain zero fs needed cluster count last_needed last_valid = none
  count_chain (suc fuel) fs needed cluster count last_needed last_valid =
      let count' = count + 1 in
      let last' = if count' == needed then cluster else last_needed in
      let (next, fs') = get_next_cluster dev fs cluster in
      let rest = count_chain fuel fs' needed next count' last' cluster in
      if is_end_of_chain cluster then some (count, last_needed, last_valid, fs) else rest

  module _ (mem : Allocator M) where
    -- One round of `read`: the bytes, the handle and what is left to read.
    unfoldable pub read_step :
        Fat32 D M
        → FileHandle
        → Bytes
        → ℕ
        → FsError × Bytes × Fat32 D M
        → FsError × FileHandle × Bytes × ℕ × Fat32 D M
    read_step fs handle done size (err, bytes, fs1) =
        let to_read = lesser (cluster_size fs - handle.position % cluster_size fs) size in
        let position = add32 handle.position to_read in
        let (next, fs2) = get_next_cluster dev fs1 handle.cluster in
        let left = size - to_read in
        if not (is_success err)
        then (err, handle, done, size, fs1)
        else (if (position % cluster_size fs == 0) && not (left == 0)
            then (
              success,
              record handle { position = position; cluster = next },
              done ++ bytes,
              left,
              fs2,
            )
            else (success, record handle { position = position }, done ++ bytes, left, fs1))

    -- The loop of `read`, with `size` bytes to go; `done` are the bytes read so far.
    unfoldable pub read_loop :
        ℕ → Fat32 D M → FileHandle → Bytes → ℕ → Option (FsError × FileHandle × Bytes × Fat32 D M)
    read_loop zero fs handle done size = none
    read_loop (suc fuel) fs handle done size =
        let offset = handle.position % cluster_size fs in
        let to_read = lesser (cluster_size fs - offset) size in
        let step =
          (read_cluster dev mem fs handle.cluster offset to_read >>= λ r.
          some (read_step fs handle done size r)) in
        let rest =
          (step >>= λ (err, handle', done', left, fs').
          let more = read_loop fuel fs' handle' done' left in
          if is_success err then more else some (err, handle', done', fs')) in
        if (size == 0) || leb 0x0FFFFFF8 handle.cluster
        then some (success, handle, done, fs)
        else rest

    -- The error, the handle and the bytes read, on as many clusters as `fuel` says.
    unfoldable pub read :
        ℕ → Fat32 D M → FileHandle → ℕ → Option (FsError × FileHandle × Bytes × Fat32 D M)
    read fuel fs handle size =
        let loop = read_loop fuel fs handle [] (lesser (handle.size - handle.position) size) in
        if not handle.valid
        then some (invalid_path, handle, [], fs)
        else (if leb handle.size handle.position then some (success, handle, [], fs) else loop)

    -- The loop of `write` that gives the clusters of a chain back, on `fuel`.
    unfoldable pub free_chain : ℕ → Fat32 D M → ℕ → Option (Fat32 D M)
    free_chain zero fs del_cluster = none
    free_chain (suc fuel) fs del_cluster =
        let (next, fs1) = get_next_cluster dev fs del_cluster in
        let (err, fs2) = deallocate_cluster dev mem fs1 del_cluster in
        let rest = free_chain fuel fs2 next in if is_end_of_chain del_cluster then some fs else rest

    -- The loop of `write` that appends `rounds` clusters to a chain.
    unfoldable pub extend_chain : ℕ → Fat32 D M → ℕ → FsError × Fat32 D M
    extend_chain zero fs cluster = (success, fs)
    extend_chain (suc rounds) fs cluster =
        let (new_cluster, fs1) = allocate_cluster dev mem fs in
        let rest =
          extend_chain rounds (link_next_cluster dev fs1 cluster new_cluster) new_cluster in
        if new_cluster == 0 then (disk_full, fs1) else rest

    -- The last loop of `write`, which fills the chain from its start, on `fuel`.
    unfoldable pub fill_chain :
        ℕ → Fat32 D M → FileHandle → ℕ → Bytes → ℕ → Option (FsError × FileHandle × Fat32 D M)
    fill_chain zero fs handle cluster buffer size = none
    fill_chain (suc fuel) fs handle cluster buffer size =
        let (new_cluster, fs1) = allocate_cluster dev mem fs in
        let linked = link_next_cluster dev fs1 cluster new_cluster in
        let fs' = if is_end_of_chain cluster then linked else fs in
        let at = if is_end_of_chain cluster then new_cluster else cluster in
        let bytes_to_write = lesser (cluster_size fs) size in
        let rest =
          (write_cluster dev mem fs' at buffer 0 bytes_to_write >>= λ (err, fs2).
          let (next, fs3) = get_next_cluster dev fs2 at in
          let handle' = record handle { size = add32 handle.size bytes_to_write } in
          let more =
            fill_chain fuel fs3 handle' next (drop bytes_to_write buffer) (size - bytes_to_write) in
          if is_success err then more else some (err, handle, fs2)) in
        if size == 0 then some (success, handle, fs) else rest

    -- The loop of an append: the clusters behind the last one, on `fuel`.
    unfoldable pub append_chain :
        ℕ → Fat32 D M → FileHandle → Bytes → ℕ → Option (FsError × FileHandle × Fat32 D M)
    append_chain zero fs handle buffer size = none
    append_chain (suc fuel) fs handle buffer size =
        let (new_cluster, fs1) = allocate_cluster dev mem fs in
        let linked = link_next_cluster dev fs1 handle.cluster new_cluster in
        let moved = record handle { cluster = new_cluster } in
        let bytes_to_write = lesser (cluster_size fs) size in
        let rest =
          (write_cluster dev mem linked new_cluster buffer 0 bytes_to_write >>= λ (err, fs2).
          let more =
            append_chain fuel fs2 (record moved { size = add32 moved.size bytes_to_write })
              (drop bytes_to_write buffer) (size - bytes_to_write) in
          if is_success err then more else some (err, moved, fs2)) in
        if size == 0
        then some (success, handle, fs)
        else (if new_cluster == 0 then some (disk_full, handle, fs1) else rest)
