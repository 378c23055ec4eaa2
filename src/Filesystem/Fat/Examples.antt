-- ===== src/Filesystem/Fat/Examples.antt =====
-- Tests: the driver on a disk in memory.
use pingu_os.Common.{
  if◌then◌else◌, length, ◌==◌, ℕ, zero, suc, ◌≢◌, ◌+◌, ◌*◌, ◌≡◌, refl, arith, true, false, [], ◌∷◌,
  ◌++◌, take, replicate, get_or,
}
use pingu_os.Common.Bytes.{get_u32}
use pingu_os.Allocator.{Buffer}
use pingu_os.Drivers.Disk.Mock.{mock_ata, mock_ata-IsDisk, pad}
use pingu_os.Filesystem.{FileEntry, FileHandle}
use pingu_os.Filesystem.Fat.{DirectoryEntryFat32, entry_bytes, parse_bpb, bpb_size, is_end_of_chain}
use pingu_os.Filesystem.Fat.Table.Examples.{volume, volume-HasTable, bump, bump-IsAllocator}
use pingu_os.Filesystem.Fat.Clusters.{first_sector, write_cluster}
use pingu_os.Filesystem.Fat.Clusters.RoundTrip.{HasRoom, ReadsBack, read_cluster-write_cluster}
use pingu_os.Filesystem.Fat.Clusters.Partial.{Returns, write_cluster-Returns}
use pingu_os.Filesystem.Fat.Directory.{Fat32DirectoryIterator, entry_at, scan}
use pingu_os.Filesystem.Fat.Directory.Scanning.{Scanned, scan-Scanned}
use pingu_os.Filesystem.Fat.Entries.{fill_slot, entry_cluster}
use pingu_os.Filesystem.Fat.Entries.Slots.{AreBytes, entry_for, entry_at-fill_slot}
use pingu_os.Filesystem.Fat.Files.{free_chain}
use pingu_os.Filesystem.Fat.Files.Chains.{ChainOf, stop, step, Distinct, Freed, free_chain-Freed}
use pingu_os.Filesystem.Fat.Mount.{mount}
use pingu_os.Filesystem.Fat.Mount.Geometry.{Mounting, mount-Mounting}

abbrev block : Buffer
block = record { addr = 4096; bytes = replicate 512 0 }

volume-HasRoom : HasRoom mock_ata bump (mock_ata-IsDisk 4096) volume 3 0
volume-HasRoom = record { bytes = refl; on = omega arith; addressable = omega arith }

read_cluster-write_cluster_example :
    ReadsBack mock_ata bump
      (mock_ata-IsDisk 4096)
      volume
      3
      5
      (1 ∷ 2 ∷ 3 ∷ 4 ∷ 5 ∷ 6 ∷ [])
      (write_cluster mock_ata bump volume 3 (1 ∷ 2 ∷ 3 ∷ 4 ∷ 5 ∷ 6 ∷ []) 0 5)
read_cluster-write_cluster_example =
    read_cluster-write_cluster mock_ata bump (mock_ata-IsDisk 4096) volume 3 0 5
      (1 ∷ 2 ∷ 3 ∷ 4 ∷ 5 ∷ 6 ∷ []) block volume-HasRoom (omega arith) (omega arith) (omega arith)
      refl

write_cluster-Returns_example :
    Returns mock_ata bump
      (mock_ata-IsDisk 4096)
      volume
      (first_sector volume 3 + 0)
      (take 32 ((mock_ata-IsDisk 4096).sector volume.disk (first_sector volume 3 + 0))
        ++ take 2 (7 ∷ 8 ∷ []))
      (write_cluster mock_ata bump volume 3 (7 ∷ 8 ∷ []) (512 * 0 + 32) 2)
write_cluster-Returns_example =
    write_cluster-Returns mock_ata bump (mock_ata-IsDisk 4096) volume 3 0 32 2 (7 ∷ 8 ∷ []) block
      volume-HasRoom (omega arith) (omega arith) (omega arith) (omega arith) refl

-- Clusters 2 and 3 are a chain.
pub volume-ChainOf : ChainOf mock_ata (mock_ata-IsDisk 4096) volume 2 (2 ∷ 3 ∷ [])
unfolding is_end_of_chain get_u32 mock_ata-IsDisk pad
volume-ChainOf = step refl (omega arith) (step refl (omega arith) (stop refl))

two_three-Distinct : Distinct (2 ∷ 3 ∷ [])
two_three-Distinct = ((λ same. omega (arith, same), tt), (tt, tt))

free_chain-Freed_example :
    Freed mock_ata
      (mock_ata-IsDisk 4096)
      bump
      volume
      (2 ∷ 3 ∷ [])
      (free_chain mock_ata bump 3 volume 2)
free_chain-Freed_example =
    free_chain-Freed mock_ata (mock_ata-IsDisk 4096) bump 3 volume 2 (2 ∷ 3 ∷ []) bump-IsAllocator
      (λ h. (record { addr = h; bytes = replicate 512 0 }, refl)) volume-HasTable volume-ChainOf
      two_three-Distinct (omega arith)

abbrev pub handle : FileHandle
handle = record {
  cluster = 2;
  start_cluster = 2;
  parent_cluster = 2;
  position = 0;
  size = 700;
  fs_specific = 0;
  valid = true;
}

abbrev file_entry : DirectoryEntryFat32
file_entry = record {
  name = b'F' ∷ b'I' ∷ b'L' ∷ b'E' ∷ b' ' ∷ b' ' ∷ b' ' ∷ b' ' ∷ b'T' ∷ b'X' ∷ b'T' ∷ [];
  attributes = 0x20;
  reserved = 0;
  c_tenth_time = 0;
  c_time = 0;
  c_date = 0;
  a_time = 0;
  first_cluster_hi = 1;
  w_time = 0;
  w_date = 0x5AB7;
  first_cluster_lo = 3;
  size = 70000;
}

abbrev iterator : Fat32DirectoryIterator
iterator = record {
  cluster_buffer = 0xE5 ∷ replicate 31 0 ++ entry_bytes file_entry ++ replicate 64 0;
  entry_index = 0;
  entries_per_cluster = 4;
  current_cluster = 2;
  start_cluster = 2;
  finished = false;
}

scan-Scanned_example : Scanned iterator 4 (scan 4 iterator)
scan-Scanned_example = scan-Scanned 4 iterator

mount-Mounting_example :
    let bytes = (mock_ata.read_28 volume.disk volume.partition_offset bpb_size).1 in
    Mounting mock_ata volume
      (if length bytes == 0 then volume.bpb else parse_bpb bytes)
      (mount mock_ata volume)
mount-Mounting_example = mount-Mounting mock_ata volume

same_everywhere : (n i d : ℕ) → get_or (replicate n d) i d ≡ d
same_everywhere zero i d = refl
same_everywhere (suc n) zero d = refl
same_everywhere (suc n) (suc i) d = same_everywhere n i d

zeros-AreBytes : AreBytes (replicate 64 0)
zeros-AreBytes i = omega (arith, same_everywhere 64 i 0)

abbrev new_file : FileEntry
new_file = record {
  name = b'A' ∷ b'.' ∷ b'T' ∷ b'X' ∷ b'T' ∷ [];
  size = 0;
  attributes = 0x20;
  first_cluster = 70000;
  parent_cluster = 2;
}

entry_at-fill_slot_example :
    let buf' = fill_slot (replicate 64 0) 1 new_file in
    (entry_at buf' 1 ≡ entry_for (entry_at (replicate 64 0) 1) new_file)
    × (entry_cluster (entry_at buf' 1) ≡ 70000)
    × ((j : ℕ) → 1 ≢ j → entry_at buf' j ≡ entry_at (replicate 64 0) j)
entry_at-fill_slot_example =
    entry_at-fill_slot (replicate 64 0) 1 new_file zeros-AreBytes (omega arith) (omega arith)
      (omega arith)
