-- ===== src/Filesystem/Fat/Directory.antt =====
-- `FAT32DirectoryIterator` of src/filesystem/fat.cpp: the entries of a directory, one by one.
pub mod Scanning
use Prim.Native.Nat.{bit_and, bit_or}
use pingu_os.Common.{
  ℕ, zero, suc, ◌+◌, ◌*◌, ◌-◌, ◌/◌, ◌%◌, ◌^◌, Bool, true, false, not, ◌&&◌, Option, none, some,
  List, [], ◌∷◌, ◌++◌, ◌==◌, leb, ltb, if◌then◌else◌, get_or, take, drop, set, add32, mul32, sub32,
  replicate,
}
use pingu_os.Common.Bytes.{Bytes, fill, fill_at, get_u32, c_string}
use pingu_os.Drivers.Disk.{Disk}
use pingu_os.Filesystem.{FsError, success, end_of_directory, FileEntry, is_success}
use pingu_os.Filesystem.Fat.{
  Fat32, BiosParameterBlock32, DirectoryEntryFat32, parse_entry, entry_end, entry_deleted,
  dir_entry_size,
}

-- The iterator's own fields; `m_disk`, `m_bpb` and `m_partition_offset` are those of the volume.
pub record Fat32DirectoryIterator : Type 0 where
  pub cluster_buffer : Bytes
  pub entry_index : ℕ
  pub entries_per_cluster : ℕ
  pub current_cluster : ℕ
  pub start_cluster : ℕ
  pub finished : Bool

-- The first sector of a cluster, as the iterator computes it.
unfoldable pub cluster_sector : {D M : Type 0} → Fat32 D M → ℕ → ℕ
cluster_sector fs cluster =
    let fat_start = add32 fs.partition_offset fs.bpb.reserved_sectors in
    let data_start = add32 fat_start (mul32 fs.bpb.table_size fs.bpb.fat_copies) in
    add32 data_start (mul32 fs.bpb.sectors_per_cluster (sub32 cluster 2))

-- `entries[i]` of the buffer
unfoldable pub entry_at : Bytes → ℕ → DirectoryEntryFat32
unfolding parse_entry
entry_at buf i = parse_entry (take dir_entry_size (drop (dir_entry_size * i) buf))

-- The name without its padding, and a dot in front of the extension.
unfoldable pub unpad : Bytes → Bytes
unpad [] = []
unpad (c ∷ cs) = let rest = unpad cs in if c == b' ' then rest else c ∷ rest

unfoldable pub convert_entry : Fat32DirectoryIterator → DirectoryEntryFat32 → FileEntry
convert_entry it src = record {
  name = c_string (unpad (take 8 src.name) ++ b'.' ∷ unpad (drop 8 src.name));
  size = src.size;
  attributes = src.attributes;
  first_cluster = bit_or (2 ^ 16 * src.first_cluster_hi) src.first_cluster_lo;
  parent_cluster = it.current_cluster;
}

-- What `next` does with the rest of the cluster: it finds an entry, or the mark of the end, or
-- nothing.
pub data Scan : Type 0 where
  found : DirectoryEntryFat32 → Fat32DirectoryIterator → Scan
  ended : Fat32DirectoryIterator → Scan
  through : Fat32DirectoryIterator → Scan

-- `(attributes & 0x0F) == 0x0F`
unfoldable pub is_lfn : DirectoryEntryFat32 → Bool
is_lfn e = bit_and e.attributes 0x0F == 0x0F

-- The loop of `next`, with `rounds` entries of the cluster to go.
unfoldable pub scan : ℕ → Fat32DirectoryIterator → Scan
scan zero it = through it
scan (suc rounds) it =
    let e = entry_at it.cluster_buffer it.entry_index in
    let it' = record it { entry_index = it.entry_index + 1 } in
    let rest = scan rounds it' in
    if get_or e.name 0 0 == entry_end
    then ended (record it' { finished = true })
    else (if get_or e.name 0 0 == entry_deleted
        then rest
        else (if is_lfn e then rest else found e it'))

-- What `next` returns, and the file that it fills.
pub data Next : Type 0 where
  got : FileEntry → Fat32DirectoryIterator → Next
  stopped : FsError → Fat32DirectoryIterator → Next

module _ {D M : Type 0} (dev : Disk D) where
  -- The loop that reads the sectors `i` and on of a cluster, with `rounds` to go.
  unfoldable pub load_sectors : ℕ → Fat32 D M → ℕ → ℕ → Bytes → Bytes
  load_sectors zero fs sector i buf = buf
  load_sectors (suc rounds) fs sector i buf = load_sectors rounds fs sector (i + 1) (
      fill_at buf (fs.bpb.bytes_per_sector * i)
        (dev.read_28 fs.disk (add32 sector i) fs.bpb.bytes_per_sector).1)

  unfoldable pub load_cluster : Fat32 D M → Fat32DirectoryIterator → Fat32DirectoryIterator
  load_cluster fs it =
      if leb 0x0FFFFFF8 it.current_cluster then record it { finished = true } else record it {
        cluster_buffer =
            load_sectors fs.bpb.sectors_per_cluster fs (cluster_sector fs it.current_cluster) 0
              it.cluster_buffer;
        entry_index = 0;
      }

  -- The constructor; `garbage` is what the buffer holds before.
  unfoldable pub directory_iterator : Fat32 D M → Bytes → ℕ → Fat32DirectoryIterator
  unfolding load_cluster
  directory_iterator fs garbage start_cluster = load_cluster fs (record {
    cluster_buffer = garbage;
    entry_index = 0;
    entries_per_cluster = (fs.bpb.sectors_per_cluster * fs.bpb.bytes_per_sector) / dir_entry_size;
    current_cluster = start_cluster;
    start_cluster = start_cluster;
    finished = false;
  })

  -- The loop that writes the sectors `i` and on of a cluster, with `rounds` to go.
  unfoldable pub store_sectors : ℕ → Fat32 D M → ℕ → ℕ → Bytes → Fat32 D M
  store_sectors zero fs sector i buf = fs
  store_sectors (suc rounds) fs sector i buf =
      let bytes = take fs.bpb.bytes_per_sector (drop (fs.bpb.bytes_per_sector * i) buf) in
      store_sectors rounds (record fs { disk = (dev.write_28 fs.disk (add32 sector i) bytes).1 })
        sector (i + 1) buf

  unfoldable pub write_back_cluster :
      Fat32 D M → Fat32DirectoryIterator → Fat32 D M × Fat32DirectoryIterator
  write_back_cluster fs it =
      let sector = cluster_sector fs it.current_cluster in
      (
        store_sectors fs.bpb.sectors_per_cluster fs sector 0 it.cluster_buffer,
        record it { entry_index = 0 },
      )

  -- The entry in the table, read into the function's own buffer.
  unfoldable pub load_next_cluster :
      Fat32 D M → Fat32DirectoryIterator → FsError × Fat32DirectoryIterator
  load_next_cluster fs it =
      let fat_start = add32 fs.partition_offset fs.bpb.reserved_sectors in
      let fat_sector = it.current_cluster / (fs.bpb.bytes_per_sector / 4) in
      let fat_offset = it.current_cluster % (fs.bpb.bytes_per_sector / 4) in
      let fat_buf =
        fill (replicate 512 0)
          (dev.read_28 fs.disk (add32 fat_start fat_sector) fs.bpb.bytes_per_sector).1 in
      let next_cluster = get_u32 fat_buf (4 * fat_offset) % 2 ^ 28 in
      if leb 0x0FFFFFF8 next_cluster
      then (end_of_directory, record it { finished = true })
      else (success, load_cluster fs (record it { current_cluster = next_cluster }))

  -- `next`, on as many clusters as `fuel` says; `none` where the fuel does not reach.
  unfoldable pub next : ℕ → Fat32 D M → Fat32DirectoryIterator → Option Next
  next zero fs it = none
  next (suc fuel) fs it =
      if it.finished
      then some (stopped end_of_directory it)
      else elim (scan (it.entries_per_cluster - it.entry_index) it) [
        | found e it' ↦ some (got (convert_entry it' e) it')
        | ended it' ↦ some (stopped end_of_directory it')
        | through it' ↦
            let (err, it'') = load_next_cluster fs it' in
            let rest = next fuel fs it'' in if is_success err then rest else some (stopped err it'')
      ]

  -- A write past the buffer would hit `m_entry_index`, which is set to 0 afterwards.
  unfoldable pub delete_dir_entry :
      Fat32 D M → Fat32DirectoryIterator → Fat32 D M × Fat32DirectoryIterator
  delete_dir_entry fs it = write_back_cluster fs (record it {
    cluster_buffer = set it.cluster_buffer (dir_entry_size * it.entry_index) entry_deleted;
  })

  unfoldable pub reset : Fat32 D M → Fat32DirectoryIterator → Fat32DirectoryIterator
  reset fs it =
      load_cluster fs
        (record it { finished = false; entry_index = 0; current_cluster = it.start_cluster })
