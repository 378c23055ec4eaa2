-- ===== src/Filesystem/Fat/Files/Area.antt =====
-- Where the clusters of a volume lie: behind the table, and apart from one another.
use native.Mathlib.Nat.{mul-suc, mul-le-mul_left, mul-le-mul_right}
use pingu_os.Common.{
  ℕ, Bool, true, false, refl, ltb, ◌+◌, ◌*◌, ◌-◌, ◌/◌, ◌%◌, ◌^◌, ◌≤◌, ◌<◌, ◌≡◌, ◌≢◌, ◌⊎◌, inl, inr,
  ◌∙◌, ap, arith, List, [], ◌∷◌, mul32, sub32, add32,
}
use pingu_os.Common.Bytes.{Bytes}
use pingu_os.Filesystem.Fat.{Fat32}
use pingu_os.Filesystem.Fat.Clusters.{first_sector}

-- `steps` more of `size` each.
further : (size i j : ℕ) → i < j → size * i + size ≤ size * j
further size i j less = omega (arith, mul-suc size i, mul-le-mul_left size less)

no_wrap : (a b : ℕ) → a + b < 2 ^ 32 → add32 a (b % 2 ^ 32) ≡ a + b
no_wrap a b small = omega (arith, small)

-- A volume on a disk of `count` sectors, whose clusters are 2 to below `top`: the entries of these
-- stand in front of the clusters, and the clusters end on the disk.
pub record HasData {D M : Type 0} (fs : Fat32 D M) (count top : ℕ) : Type 0 where
  pub some_sectors : 0 < fs.bpb.sectors_per_cluster
  pub behind : fs.fat_start + top / 128 < fs.data_start
  pub room : fs.data_start + fs.bpb.sectors_per_cluster * (top - 2) ≤ count
  pub addressable : count ≤ 2 ^ 28

pub HasData-within :
    {D M : Type 0} (fs : Fat32 D M) (count top : ℕ) (disk : D) (heap : M) (buf : Bytes)
    → HasData fs count top
    → HasData (record fs { disk = disk; heap = heap; sector_buf = buf }) count top
HasData-within fs count top disk heap buf a = record {
  some_sectors = a.some_sectors;
  behind = a.behind;
  room = a.room;
  addressable = a.addressable;
}

-- A cluster of the volume, and a list of them.
abbrev pub InData : ℕ → ℕ → Type 0
InData top c = (2 ≤ c) × (c < top)

abbrev pub AllInData : ℕ → List ℕ → Type 0
AllInData top [] = Unit {0}
AllInData top (c ∷ cs) = InData top c × AllInData top cs

module _ {D M : Type 0} (fs : Fat32 D M) (count top : ℕ) (data_area : HasData fs count top) where
  within_area :
      (c : ℕ)
      → InData top c
      → fs.bpb.sectors_per_cluster * (c - 2) + fs.bpb.sectors_per_cluster
        ≤ fs.bpb.sectors_per_cluster * (top - 2)
  within_area c (low, high) =
      further fs.bpb.sectors_per_cluster (c - 2) (top - 2) (omega (arith, low, high))

  first_sector_lem :
      (c : ℕ)
      → InData top c
      → first_sector fs c ≡ fs.data_start + fs.bpb.sectors_per_cluster * (c - 2)
  first_sector_lem c (low, high) =
      let few : 1 * (top - 2) ≤ fs.bpb.sectors_per_cluster * (top - 2) =
        mul-le-mul_right (top - 2) data_area.some_sectors in
      let index : sub32 c 2 ≡ c - 2 =
        omega (arith, low, high, few, data_area.room, data_area.addressable) in
      ap (λ z. add32 fs.data_start (mul32 fs.bpb.sectors_per_cluster z)) index
      ∙ no_wrap fs.data_start (fs.bpb.sectors_per_cluster * (c - 2))
          (omega (arith, within_area c (low, high), data_area.room, data_area.addressable))

  pub InData-room : (c : ℕ) → InData top c → first_sector fs c + fs.bpb.sectors_per_cluster ≤ count
  InData-room c i = omega (arith, first_sector_lem c i, within_area c i, data_area.room)

  -- Two clusters have no sector in common.
  pub InData-apart :
      (c d : ℕ)
      → InData top c
      → InData top d
      → c ≢ d
      → first_sector fs c + fs.bpb.sectors_per_cluster ≤ first_sector fs d
        ⊎ (first_sector fs d + fs.bpb.sectors_per_cluster ≤ first_sector fs c)
  InData-apart c d i j other = by_order (ltb c d) refl
    where
      before :
          (a b : ℕ)
          → InData top a
          → InData top b
          → a < b
          → first_sector fs a + fs.bpb.sectors_per_cluster ≤ first_sector fs b
      before a b i j less = omega (
        arith,
        first_sector_lem a i,
        first_sector_lem b j,
        further fs.bpb.sectors_per_cluster (a - 2) (b - 2) (omega (arith, i.0, less)),
      )

      by_order :
          (less : Bool)
          → ltb c d ≡ less
          → first_sector fs c + fs.bpb.sectors_per_cluster ≤ first_sector fs d
            ⊎ (first_sector fs d + fs.bpb.sectors_per_cluster ≤ first_sector fs c)
      by_order true h = inl (before c d i j (ground (arith, h)))
      by_order false h = inr (before d c j i (ground (arith, h, other)))

  -- The clusters lie behind the entries of the table.
  pub InData-behind : (c : ℕ) → InData top c → fs.data_start ≤ first_sector fs c
  InData-behind c i = omega (arith, first_sector_lem c i)

  pub InData-entry : (c : ℕ) → InData top c → fs.fat_start + c / 128 < fs.data_start
  InData-entry c i = omega (arith, i.1, data_area.behind)
