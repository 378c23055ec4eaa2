-- ===== src/Filesystem/Fat/Write/Examples.antt =====
-- Tests: a file on a disk in memory is written over.
use pingu_os.Common.{
  ℕ, true, ◌≡◌, refl, arith, some, [], ◌∷◌, ◌++◌, ◌==◌, if◌then◌else◌, take, replicate, get_or, ◌≢◌,
}
use pingu_os.Common.Bytes.{Bytes, get_u16, get_u32}
use pingu_os.Drivers.Disk.Mock.{MockAta, mock_ata, mock_ata-IsDisk, pad}
use pingu_os.Filesystem.{FileHandle, write_mode}
use pingu_os.Filesystem.Fat.{Fat32, is_end_of_chain, parse_entry}
use pingu_os.Filesystem.Fat.Directory.{entry_at}
use pingu_os.Filesystem.Fat.Entries.{find_in, entry_cluster}
use pingu_os.Filesystem.Fat.Table.Links.{HasTable}
use pingu_os.Filesystem.Fat.Table.Examples.{volume, bump, bump-IsAllocator}
use pingu_os.Filesystem.Fat.Clusters.Slices.{cluster_bytes}
use pingu_os.Filesystem.Fat.Files.Chains.{ChainOf, stop, step}
use pingu_os.Filesystem.Fat.Files.Overwriting.{ReadsBack}
use pingu_os.Filesystem.Fat.Files.Examples.{bump-EnoughMemory}
use pingu_os.Filesystem.Fat.Write.{write}
use pingu_os.Filesystem.Fat.Write.Behind.{Overwrites}
use pingu_os.Filesystem.Fat.Write.Whole.{read-write}

-- The volume with a directory in cluster 4, whose first entry is FILE.TXT in cluster 2.
abbrev with_file : Fat32 MockAta ℕ
with_file = record volume {
  disk = λ s.
      if s == 36
      then b'F' ∷ b'I' ∷ b'L' ∷ b'E' ∷ b' ' ∷ b' ' ∷ b' ' ∷ b' ' ∷ b'T' ∷ b'X' ∷ b'T' ∷ 0x20 ∷ []
        ++ replicate 14 0
        ++ 2 ∷ 0 ∷ 188 ∷ 2 ∷ 0 ∷ 0 ∷ []
      else volume.disk s;
}

abbrev file : FileHandle
file = record {
  cluster = 2;
  start_cluster = 2;
  parent_cluster = 4;
  position = 0;
  size = 700;
  fs_specific = 0;
  valid = true;
}

with_file-HasTable : HasTable mock_ata (mock_ata-IsDisk 4096) with_file
with_file-HasTable = record {
  bytes = refl;
  table = omega arith;
  small = omega arith;
  addressable = omega arith;
  buffer = refl;
}

with_file-ChainOf : ChainOf mock_ata (mock_ata-IsDisk 4096) with_file 2 (2 ∷ 3 ∷ [])
unfolding is_end_of_chain get_u32 mock_ata-IsDisk pad
with_file-ChainOf = step refl (omega arith) (step refl (omega arith) (stop refl))

with_file-Overwrites :
    Overwrites mock_ata bump (mock_ata-IsDisk 4096) with_file file 100 4 600 (2 ∷ 3 ∷ [])
with_file-Overwrites = record {
  area = record {
    some_sectors = omega arith;
    behind = omega arith;
    room = omega arith;
    addressable = omega arith;
  };
  table = with_file-HasTable;
  chain = with_file-ChainOf;
  inside = ((omega arith, omega arith), ((omega arith, omega arith), tt));
  distinct = ((λ e. omega (arith, e), tt), (tt, tt));
  at = (omega arith, omega arith);
  apart = ((λ e. omega (arith, e)), ((λ e. omega (arith, e)), tt));
  valid = refl;
  small = omega arith;
}

abbrev directory : Bytes
directory = cluster_bytes mock_ata bump (mock_ata-IsDisk 4096) with_file 4

first_found : find_in 16 0 directory 2 ≡ some 0
unfolding find_in entry_at parse_entry entry_cluster get_u16 mock_ata-IsDisk pad
first_found = refl

first_named : get_or (entry_at directory 0).name 0 0 ≢ 0
unfolding entry_at parse_entry mock_ata-IsDisk pad
first_named e = omega (arith, e)

read-write_example :
    ReadsBack mock_ata bump
      (mock_ata-IsDisk 4096)
      3
      with_file
      file
      100
      (4 ∷ 2 ∷ 3 ∷ [])
      (2 ∷ 3 ∷ [])
      600
      (take 600 (replicate 600 7))
      (write mock_ata bump 3 with_file file (replicate 600 7) 600 write_mode)
read-write_example =
    read-write mock_ata bump (mock_ata-IsDisk 4096) bump-IsAllocator bump-EnoughMemory 3 with_file
      file 100 600 0 (2 ∷ 3 ∷ []) (replicate 600 7)
      (record { addr = 4096; bytes = replicate 512 0 }) with_file-Overwrites refl first_found
      first_named refl (omega arith) (omega arith) (omega arith)
