-- ===== src/Filesystem/Fat/Write.antt =====
-- `FAT32::write` of src/filesystem/fat.cpp, in its three modes.
pub mod Steps
pub mod Search
pub mod Behind
pub mod Whole
pub mod Examples
use pingu_os.Common.{
  ℕ, ◌+◌, ◌*◌, ◌-◌, ◌/◌, ◌%◌, not, Option, none, some, ◌>>=◌, ◌==◌, ltb, if◌then◌else◌, drop, add32,
  get_or,
}
use pingu_os.Common.Bytes.{Bytes}
use pingu_os.Allocator.{Allocator}
use pingu_os.Drivers.Disk.{Disk}
use pingu_os.Filesystem.{
  FsError, success, not_found, invalid_path, not_implemented, is_success, FileHandle, WriteMode,
  write_mode, append_mode, insert_mode,
}
use pingu_os.Filesystem.Fat.{Fat32, DirectoryEntryFat32, entry_bytes, dir_entry_size}
use pingu_os.Filesystem.Fat.Table.{get_next_cluster, unlink_cluster}
use pingu_os.Filesystem.Fat.Clusters.{cluster_size, write_cluster, lesser}
use pingu_os.Filesystem.Fat.Files.{count_chain, free_chain, extend_chain, fill_chain, append_chain}
use pingu_os.Filesystem.Fat.Entries.{find_directory_entry}

module _ {D M : Type 0} (dev : Disk D) (mem : Allocator M) where
  -- The entry of the file, with the handle's size, written back to its place; the error of that
  -- is ignored.
  unfoldable pub update_entry :
      Fat32 D M → FileHandle → ℕ × ℕ × DirectoryEntryFat32 → Option (Fat32 D M)
  update_entry fs handle (cluster, index, entry) = do
    let bytes = entry_bytes (record entry { size = handle.size })
    (err, fs') ← write_cluster dev mem fs cluster bytes (dir_entry_size * index) dir_entry_size
    some fs'

  unfoldable pub write_append :
      ℕ
      → Fat32 D M
      → FileHandle
      → Bytes
      → ℕ
      → ℕ × ℕ × DirectoryEntryFat32
      → Option (FsError × FileHandle × Fat32 D M)
  write_append fuel fs handle buffer size at = do
    let offset = handle.size % cluster_size fs
    let bytes_to_write = lesser (cluster_size fs - offset) size
    (err, fs1) ← write_cluster dev mem fs handle.cluster buffer offset bytes_to_write
    let handle' = record handle { size = add32 handle.size bytes_to_write }
    let more =
        append_chain dev mem fuel fs1 handle' (drop bytes_to_write buffer) (size - bytes_to_write)
        >>= λ (err', handle'', fs2).
            (if is_success err'
              then (update_entry fs2 handle'' at >>= λ fs3. some (success, handle'', fs3))
              else some (err', handle'', fs2))
    if is_success err then more else some (err, handle, fs1)

  -- The clusters that the file has too many are given back.
  unfoldable pub shrink : ℕ → Fat32 D M → ℕ → Option (Fat32 D M)
  shrink fuel fs last_needed =
      let (unneeded, fs1) = get_next_cluster dev fs last_needed in
      free_chain dev mem fuel (unlink_cluster dev fs1 last_needed unneeded) unneeded

  -- The chain is made as long as it has to be.
  unfoldable pub resize_chain :
      ℕ → Fat32 D M → ℕ → ℕ × ℕ × ℕ × Fat32 D M → Option (FsError × Fat32 D M)
  resize_chain fuel fs needed (count, last_needed, last_valid, fs1) =
      let shorter = (shrink fuel fs1 last_needed >>= λ fs2. some (success, fs2)) in
      if ltb needed count
      then shorter
      else (if ltb count needed
          then some (extend_chain dev mem (needed - count) fs1 last_valid)
          else some (success, fs1))

  unfoldable pub write_whole :
      ℕ
      → Fat32 D M
      → FileHandle
      → Bytes
      → ℕ
      → ℕ × ℕ × DirectoryEntryFat32
      → Option (FsError × FileHandle × Fat32 D M)
  write_whole fuel fs handle buffer size at = do
    let needed = size / cluster_size fs + 1
    counted ← count_chain dev fuel fs needed handle.start_cluster 0 0 0
    (err, fs1) ← resize_chain fuel fs needed counted
    let filled = fill_chain dev mem fuel fs1 handle handle.start_cluster buffer size
    let more = filled >>= λ (err', handle', fs2).
        let rewound = record handle' { cluster = handle'.start_cluster; position = 0 } in
        (if is_success err'
          then (update_entry fs2 rewound at >>= λ fs3. some (success, rewound, fs3))
          else some (err', handle', fs2))
    if is_success err then more else some (err, handle, fs1)

  unfoldable pub write_at :
      ℕ
      → Fat32 D M
      → FileHandle
      → Bytes
      → ℕ
      → WriteMode
      → ℕ × ℕ × DirectoryEntryFat32
      → Option (FsError × FileHandle × Fat32 D M)
  write_at fuel fs handle buffer size append_mode at = write_append fuel fs handle buffer size at
  write_at fuel fs handle buffer size write_mode at = write_whole fuel fs handle buffer size at
  write_at fuel fs handle buffer size insert_mode at = do
    fs' ← update_entry fs handle at
    some (not_implemented, handle, fs')

  -- A file whose entry has not been found, or whose entry's name begins with 0, is not there.
  unfoldable pub write_found :
      ℕ
      → Fat32 D M
      → FileHandle
      → Bytes
      → ℕ
      → WriteMode
      → Option (ℕ × ℕ × DirectoryEntryFat32)
      → Option (FsError × FileHandle × Fat32 D M)
  write_found fuel fs handle buffer size mode none = some (not_found, handle, fs)
  write_found fuel fs handle buffer size mode (some (cluster, index, entry)) =
      let rest = write_at fuel fs handle buffer size mode (cluster, index, entry) in
      if get_or entry.name 0 0 == 0 then some (not_found, handle, fs) else rest

  unfoldable pub write :
      ℕ → Fat32 D M → FileHandle → Bytes → ℕ → WriteMode → Option (FsError × FileHandle × Fat32 D M)
  write fuel fs handle buffer size mode =
      let rest =
        (find_directory_entry dev mem fuel fs handle >>= λ (err, at, fs').
        write_found fuel fs' handle buffer size mode at) in
      if not handle.valid then some (invalid_path, handle, fs) else rest
