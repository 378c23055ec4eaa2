-- ===== src/Filesystem/Fat/Files/Examples.antt =====
-- Tests: files on a disk in memory.
use pingu_os.Common.{◌^◌, ◌>>=◌, false, ◌≡◌, refl, arith, some, [], ◌∷◌, take, drop, replicate}
use pingu_os.Drivers.Disk.Mock.{mock_ata, mock_ata-IsDisk, pad}
use pingu_os.Filesystem.{FileHandle, success}
use pingu_os.Filesystem.Fat.Table.Examples.{volume, volume-HasTable, bump, bump-IsAllocator}
use pingu_os.Filesystem.Fat.Clusters.Slices.{cluster_bytes}
use pingu_os.Filesystem.Fat.Examples.{volume-ChainOf, handle}
use pingu_os.Filesystem.Fat.Files.{seek, read, count_chain}
use pingu_os.Filesystem.Fat.{is_end_of_chain}
use pingu_os.Filesystem.Fat.Table.{unlink_cluster}
use pingu_os.Filesystem.Fat.Directory.{Fat32DirectoryIterator, load_next_cluster}
use pingu_os.Filesystem.Fat.Files.Unlinked.{Cut, GoesOn, mark, read-unlink_cluster}
use pingu_os.Filesystem.Fat.Files.Chains.{EnoughMemory}
use pingu_os.Filesystem.Fat.Files.Contents.{HasFile, HasRead, contents}
use pingu_os.Filesystem.Fat.Files.Access.{read-seek}
use pingu_os.Filesystem.Fat.Files.Repeats.{read_twice, read-repeats}

volume-HasFile : HasFile mock_ata bump (mock_ata-IsDisk 4096) volume 2 (2 ∷ 3 ∷ [])
volume-HasFile = record {
  some_bytes = omega arith;
  table = volume-HasTable;
  chain = volume-ChainOf;
  disk = (omega arith, (omega arith, tt));
}

pub bump-EnoughMemory : EnoughMemory mock_ata (mock_ata-IsDisk 4096) bump
bump-EnoughMemory h = (record { addr = h; bytes = replicate 512 0 }, refl)

read-seek_example :
    let (err, handle', fs') = seek mock_ata volume handle 600 in
    (err ≡ success)
    × HasRead mock_ata bump
        (mock_ata-IsDisk 4096)
        volume
        handle
        700
        3
        (take 100 (drop 600 (contents mock_ata bump (mock_ata-IsDisk 4096) volume (2 ∷ 3 ∷ []))))
        (read mock_ata bump 3 fs' handle' 300)
unfolding mock_ata-IsDisk pad
read-seek_example =
    read-seek mock_ata bump (mock_ata-IsDisk 4096) bump-IsAllocator bump-EnoughMemory 3 volume
      handle 600 300 (2 ∷ 3 ∷ []) volume-HasFile refl refl (omega arith) (omega arith) (omega arith)
      (omega arith) (omega arith)

abbrev longer : FileHandle
longer = record handle { size = 1024 }

read-repeats_example :
    read_twice mock_ata bump (mock_ata-IsDisk 4096) 3 volume longer 512
    ≡ some (
      success,
      success,
      record longer { position = 1024 },
      cluster_bytes mock_ata bump (mock_ata-IsDisk 4096) volume 2,
      cluster_bytes mock_ata bump (mock_ata-IsDisk 4096) volume 2,
    )
read-repeats_example =
    read-repeats mock_ata bump (mock_ata-IsDisk 4096) bump-IsAllocator bump-EnoughMemory 3 volume
      longer 2 (3 ∷ []) volume-HasFile refl refl (omega arith) (omega arith) (omega arith)

-- The same volume on a disk of 2 ^ 21 sectors.
volume-Cut : Cut mock_ata bump (mock_ata-IsDisk (2 ^ 21)) volume 2
unfolding is_end_of_chain
volume-Cut = record {
  table = record {
    bytes = refl;
    table = omega arith;
    small = omega arith;
    addressable = omega arith;
    buffer = refl;
  };
  start = refl;
  some_sectors = omega arith;
  used = refl;
  on = omega arith;
  there = omega arith;
  mark_on = omega arith;
  mark_there = omega arith;
}

abbrev iterator : Fat32DirectoryIterator
iterator = record {
  cluster_buffer = [];
  entry_index = 16;
  entries_per_cluster = 16;
  current_cluster = 2;
  start_cluster = 2;
  finished = false;
}

-- The chain of the clusters 2 and 3 is cut behind 2.
read-unlink_cluster_example :
    let g = unlink_cluster mock_ata volume 2 3 in
    let (err, it') = load_next_cluster mock_ata g iterator in
    ((count_chain mock_ata 3 g 1 2 0 0 0 >>= λ r. some r.0) ≡ some 1)
    × HasRead mock_ata bump
        (mock_ata-IsDisk (2 ^ 21))
        g
        handle
        600
        mark
        (take 600 (contents mock_ata bump (mock_ata-IsDisk (2 ^ 21)) g (2 ∷ mark ∷ [])))
        (read mock_ata bump 3 g handle 600)
    × (err ≡ success)
    × GoesOn iterator it' mark
read-unlink_cluster_example =
    read-unlink_cluster mock_ata bump (mock_ata-IsDisk (2 ^ 21)) bump-IsAllocator bump-EnoughMemory
      3 volume handle iterator 3 600 1 volume-Cut refl refl (omega arith) (omega arith)
      (omega arith) (omega arith) (omega arith) (omega arith)
