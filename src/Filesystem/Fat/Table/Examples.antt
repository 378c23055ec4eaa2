-- ===== src/Filesystem/Fat/Table/Examples.antt =====
-- Tests: the table on a disk in memory.
use pingu_os.Common.{
  ℕ, ◌+◌, ◌*◌, ◌^◌, ◌≡◌, ◌<◌, ◌==◌, if◌then◌else◌, refl, arith, Option, none, some, zero, suc, ◌≢◌,
  get_or, length-replicate, subst, sym, ◌%◌, ◌/◌, ◌∙◌, ap, true, length, [], ◌∷◌, replicate,
}
use pingu_os.Common.Bytes.{get_u32}
use pingu_os.Allocator.{Allocator, IsAllocator, Buffer}
use pingu_os.Drivers.Disk.{sector_size}
use pingu_os.Drivers.Disk.Mock.{pad, MockAta, mock_ata, mock_ata-IsDisk}
use pingu_os.Filesystem.Fat.{Fat32}
use pingu_os.Filesystem.Fat.Table.{get_next_cluster, link_next_cluster, allocate_cluster}
use pingu_os.Filesystem.Fat.Table.Links.{HasTable, InTable, entry, get_next_cluster-link}
use pingu_os.Filesystem.Fat.Table.Allocate.{
  IsFree, NoneBelow, Allocation, allocate_cluster-Allocation, allocate_cluster-past_table,
}

-- A heap that hands out one block after the other.
abbrev pub bump : Allocator ℕ
bump = record {
  malloc = λ m size. (some (record { addr = m; bytes = replicate size 0 }), m + size);
  free = λ m p. m;
}

-- A volume with one table sector at sector 32, whose clusters 2 and 3 are in use.
abbrev pub volume : Fat32 MockAta ℕ
volume = record {
  disk = λ s.
      if s == 32
      then 248 ∷ 255 ∷ 255 ∷ 15 ∷ 255 ∷ 255 ∷ 255 ∷ 15 ∷ 3 ∷ 0 ∷ 0 ∷ 0 ∷ 255 ∷ 255 ∷ 255 ∷ 15 ∷ []
      else [];
  heap = 4096;
  partition_offset = 0;
  mounted = true;
  bpb = record {
    bytes_per_sector = 512;
    sectors_per_cluster = 1;
    reserved_sectors = 32;
    fat_copies = 2;
    table_size = 1;
    root_cluster = 2;
    fat_type_label = [];
  };
  fat_start = 32;
  data_start = 34;
  sector_buf = replicate 512 0;
}

-- A volume whose table sector is full, with zeros behind it.
abbrev full_volume : Fat32 MockAta ℕ
full_volume = record volume { disk = λ s. if s == 32 then replicate 512 1 else [] }

pub volume-HasTable : HasTable mock_ata (mock_ata-IsDisk 4096) volume
volume-HasTable = record {
  bytes = refl;
  table = omega arith;
  small = omega arith;
  addressable = omega arith;
  buffer = refl;
}

full_volume-HasTable : HasTable mock_ata (mock_ata-IsDisk 4096) full_volume
full_volume-HasTable = record {
  bytes = refl;
  table = omega arith;
  small = omega arith;
  addressable = omega arith;
  buffer = refl;
}

abbrev length_of : Option Buffer → ℕ
length_of none = 0
length_of (some b) = length b.bytes

pub bump-IsAllocator : IsAllocator bump
bump-IsAllocator = record {
  sized = λ m size got. subst (λ o. length_of o ≡ size) got (length-replicate size 0);
}

get_or-replicate : (n i a : ℕ) → i < n → get_or (replicate n a) i 0 ≡ a
get_or-replicate zero i a h = absurd (omega (arith, h))
get_or-replicate (suc n) zero a h = refl
get_or-replicate (suc n) (suc i) a h = get_or-replicate n i a (omega (arith, h))

word_of_ones : (j : ℕ) → j + 3 < 512 → get_u32 (replicate 512 1) j ≡ 0x01010101
unfolding get_u32
word_of_ones j h = rw (
  get_or-replicate 512 j 1 (omega (arith, h)),
  get_or-replicate 512 (j + 1) 1 (omega (arith, h)),
  get_or-replicate 512 (j + 2) 1 (omega (arith, h)),
  get_or-replicate 512 (j + 3) 1 (omega (arith, h)),
)

full_volume-IsFree : IsFree mock_ata bump (mock_ata-IsDisk 4096) full_volume 128
unfolding get_u32 mock_ata-IsDisk pad
full_volume-IsFree = refl

full_volume-NoneBelow : NoneBelow mock_ata bump (mock_ata-IsDisk 4096) full_volume 128
unfolding get_u32 mock_ata-IsDisk pad
full_volume-NoneBelow b low h free =
    let j = 4 * (b % 128) in
    let first : b / 128 ≡ 0 = omega (arith, h) in
    let sector : pad sector_size (full_volume.disk (32 + b / 128)) ≡ replicate 512 1 =
      ap (λ q. pad sector_size (full_volume.disk (32 + q))) first in
    let ones : get_u32 (pad sector_size (full_volume.disk (32 + b / 128))) j ≡ 0x01010101 =
      ap (λ l. get_u32 l j) sector ∙ word_of_ones j (omega arith) in
    let word : 0x01010101 % 2 ^ 28 ≡ 0 = sym (ap (λ x. x % 2 ^ 28) ones) ∙ free in
    omega (arith, word)

get_next_cluster-link_example :
    let g = link_next_cluster mock_ata volume 3 5 in
    ((get_next_cluster mock_ata g 3).0 ≡ 5)
    × ((c' : ℕ)
        → InTable mock_ata (mock_ata-IsDisk 4096) volume c'
        → 3 ≢ c'
        → (get_next_cluster mock_ata g c').0 ≡ (get_next_cluster mock_ata volume c').0)
    × ((s : ℕ)
        → 32 ≢ s
        → (mock_ata-IsDisk 4096).sector g.disk s ≡ (mock_ata-IsDisk 4096).sector volume.disk s)
get_next_cluster-link_example =
    get_next_cluster-link mock_ata (mock_ata-IsDisk 4096) volume 3 5 volume-HasTable (omega arith)
      (omega arith)

allocate_cluster-Allocation_example :
    Allocation mock_ata bump (mock_ata-IsDisk 4096) volume (allocate_cluster mock_ata bump volume)
allocate_cluster-Allocation_example =
    allocate_cluster-Allocation mock_ata bump (mock_ata-IsDisk 4096) volume
      (record { addr = 4096; bytes = replicate 512 0 }) bump-IsAllocator volume-HasTable
      (omega arith) refl

allocate_cluster-past_table_example :
    let (c, g) = allocate_cluster mock_ata bump full_volume in
    (c ≡ 128) × (entry mock_ata (mock_ata-IsDisk 4096) g c ≡ 0x0FFFFFFF)
allocate_cluster-past_table_example =
    allocate_cluster-past_table mock_ata bump (mock_ata-IsDisk 4096) full_volume
      (record { addr = 4096; bytes = replicate 512 0 }) bump-IsAllocator full_volume-HasTable
      (omega arith) refl full_volume-NoneBelow full_volume-IsFree
