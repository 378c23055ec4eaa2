-- ===== src/Filesystem/Fat/Entries.antt =====
-- `create_directory_entry` and `find_directory_entry` of src/filesystem/fat.cpp: the entries of a
-- directory as records in its clusters.
pub mod Layout
pub mod Names
pub mod Slots
use Prim.Native.Nat.{bit_or}
use pingu_os.Common.{
  ℕ, zero, suc, ◌+◌, ◌*◌, ◌-◌, ◌/◌, ◌%◌, ◌^◌, Bool, true, false, not, ◌&&◌, ◌||◌, Option, none,
  some, ◌>>=◌, List, [], ◌∷◌, ◌++◌, ◌==◌, leb, ltb, if◌then◌else◌, length, take, drop, add32, mul32,
  sub32, get_or, replicate,
}
use pingu_os.Common.Bytes.{Bytes, fill, fill_at}
use pingu_os.PathUtils.{strlen, get_index, dot}
use pingu_os.Allocator.{Allocator, Buffer}
use pingu_os.Drivers.Disk.{Disk}
use pingu_os.Filesystem.{
  FsError, success, out_of_memory, disk_full, is_success, FileEntry, FileHandle,
}
use pingu_os.Filesystem.Fat.{
  Fat32, is_end_of_chain, DirectoryEntryFat32, entry_bytes, entry_end, entry_deleted,
  dir_entry_size,
}
use pingu_os.Filesystem.Fat.Table.{get_next_cluster, link_next_cluster, allocate_cluster}
use pingu_os.Filesystem.Fat.Directory.{entry_at}
use pingu_os.Filesystem.Fat.Clusters.{cluster_size, read_cluster, write_cluster, lesser}

-- The name, its first `name_size` characters padded with spaces, with `ext` at its end.
abbrev pub padded : Bytes → ℕ → Bytes → Bytes
padded name name_size ext =
    take (11 - length ext) (take name_size name ++ replicate (11 - name_size) b' ') ++ ext

-- The 11 characters of the stored name. The extension counts its dot, so that a shorter one
-- than three characters is followed by the terminator.
unfoldable pub short_name_at : Bytes → Option ℕ → Bytes
short_name_at name none = padded name (lesser 8 (strlen name)) []
short_name_at name (some dot_idx) =
    padded name (lesser 8 dot_idx)
      (take (lesser 3 (strlen name - dot_idx)) (drop (dot_idx + 1) name ++ 0 ∷ []))

unfoldable pub short_name : Bytes → Bytes
short_name name = short_name_at name (get_index name dot)

-- The first entry from `i` on that is free, among `rounds`.
unfoldable pub free_slot : ℕ → ℕ → Bytes → Option ℕ
free_slot zero i buf = none
free_slot (suc rounds) i buf =
    let first = get_or (entry_at buf i).name 0 0 in
    let rest = free_slot rounds (i + 1) buf in
    if (first == entry_end) || (first == entry_deleted) then some i else rest

-- The buffer with entry `i` set for a file; the fields that are not set keep what they hold.
unfoldable pub fill_slot : Bytes → ℕ → FileEntry → Bytes
fill_slot buf i new_entry = fill_at buf (dir_entry_size * i) (
    entry_bytes (record (entry_at buf i) {
      name = short_name new_entry.name;
      attributes = new_entry.attributes;
      size = new_entry.size;
      first_cluster_hi = new_entry.first_cluster / 2 ^ 16 % 2 ^ 16;
      first_cluster_lo = new_entry.first_cluster % 2 ^ 16;
    }))

unfoldable pub entry_cluster : DirectoryEntryFat32 → ℕ
entry_cluster e = bit_or (2 ^ 16 * e.first_cluster_hi) e.first_cluster_lo

-- The first entry from `i` on whose file starts at a cluster, among `rounds`.
unfoldable pub find_in : ℕ → ℕ → Bytes → ℕ → Option ℕ
find_in zero i buf start_cluster = none
find_in (suc rounds) i buf start_cluster =
    let rest = find_in rounds (i + 1) buf start_cluster in
    if entry_cluster (entry_at buf i) == start_cluster then some i else rest

module _ {D M : Type 0} (dev : Disk D) (mem : Allocator M) where
  -- What a round of `create_directory_entry` does where it finds no free entry: the cluster to go
  -- on with, or 0 if the disk is full. The new cluster is linked to itself, as in the source.
  unfoldable pub next_for_create : Fat32 D M → ℕ → ℕ × Fat32 D M
  next_for_create fs cluster =
      let (next, fs1) = get_next_cluster dev fs cluster in
      let (new_cluster, fs2) = allocate_cluster dev mem fs1 in
      let linked = link_next_cluster dev fs2 new_cluster new_cluster in
      if not (is_end_of_chain next)
      then (next, fs1)
      else (if new_cluster == 0 then (0, fs2) else (new_cluster, linked))

  -- The loop of `create_directory_entry`, on `fuel`; the errors of reads and writes are ignored.
  unfoldable pub create_loop : ℕ → Fat32 D M → ℕ → FileEntry → Bytes → Option (FsError × Fat32 D M)
  create_loop zero fs cluster new_entry buf = none
  create_loop (suc fuel) fs cluster new_entry buf = do
    (err, bytes, fs1) ← read_cluster dev mem fs cluster 0 (cluster_size fs)
    let buf' = fill buf bytes
    elim (free_slot (cluster_size fs / dir_entry_size) 0 buf') [
      | some i ↦
          (write_cluster dev mem fs1 cluster (fill_slot buf' i new_entry) 0 (cluster_size fs)
            >>= λ (err', fs2). some (success, fs2))
      | none ↦
          let (next, fs2) = next_for_create fs1 cluster in
          let disk_end = is_end_of_chain (get_next_cluster dev fs1 cluster).0 && (next == 0) in
          let rest = create_loop fuel fs2 next new_entry buf' in
          if disk_end then some (disk_full, fs2) else rest
    ]

  unfoldable pub create_in :
      ℕ → Fat32 D M → Option Buffer → FileEntry → Option (FsError × Fat32 D M)
  create_in fuel fs none new_entry = some (out_of_memory, fs)
  create_in fuel fs (some buf) new_entry = do
    (err, fs') ← create_loop fuel fs new_entry.parent_cluster new_entry buf.bytes
    some (err, record fs' { heap = mem.free fs'.heap buf.addr })

  unfoldable pub create_directory_entry : ℕ → Fat32 D M → FileEntry → Option (FsError × Fat32 D M)
  create_directory_entry fuel fs new_entry =
      let (block, heap) = mem.malloc fs.heap (cluster_size fs) in
      create_in fuel (record fs { heap = heap }) block new_entry

  -- The loop of `find_directory_entry`, on `fuel`: it does not look for the end of the chain.
  unfoldable pub find_loop :
      ℕ → Fat32 D M → ℕ → ℕ → Bytes → Option ((ℕ × ℕ × DirectoryEntryFat32) × Fat32 D M)
  find_loop zero fs cluster start_cluster buf = none
  find_loop (suc fuel) fs cluster start_cluster buf = do
    (err, bytes, fs1) ← read_cluster dev mem fs cluster 0 (cluster_size fs)
    let buf' = fill buf bytes
    elim (find_in (cluster_size fs / dir_entry_size) 0 buf' start_cluster) [
      | some i ↦ some ((cluster, i, entry_at buf' i), fs1)
      | none ↦
          let (next, fs2) = get_next_cluster dev fs1 cluster in
          find_loop fuel fs2 next start_cluster buf'
    ]

  unfoldable pub find_directory_in :
      ℕ
      → Fat32 D M
      → Option Buffer
      → FileHandle
      → Option (FsError × Option (ℕ × ℕ × DirectoryEntryFat32) × Fat32 D M)
  find_directory_in fuel fs none handle = some (out_of_memory, none, fs)
  find_directory_in fuel fs (some buf) handle = do
    (at, fs') ← find_loop fuel fs handle.parent_cluster handle.start_cluster buf.bytes
    some (success, some at, record fs' { heap = mem.free fs'.heap buf.addr })

  -- The cluster, the index and the entry itself, where there is memory for the buffer.
  unfoldable pub find_directory_entry :
      ℕ
      → Fat32 D M
      → FileHandle
      → Option (FsError × Option (ℕ × ℕ × DirectoryEntryFat32) × Fat32 D M)
  find_directory_entry fuel fs handle =
      let (block, heap) = mem.malloc fs.heap (cluster_size fs) in
      find_directory_in fuel (record fs { heap = heap }) block handle
