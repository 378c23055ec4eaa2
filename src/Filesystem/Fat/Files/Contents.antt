-- ===== src/Filesystem/Fat/Files/Contents.antt =====
-- The bytes of a file: those of the clusters of its chain, and what a read of them gives.
use native.Mathlib.Nat.{add-div_left, div-eq_of_lt}
use pingu_os.Common.{
  ℕ, suc, ◌+◌, ◌*◌, ◌-◌, ◌/◌, ◌≤◌, ◌<◌, ◌≡◌, refl, ◌∙◌, ap, arith, Option, some, List, [], ◌∷◌,
  ◌++◌, length, take, drop, take-append_both, drop-append_left, length-drop, get_or,
}
use pingu_os.Common.Bytes.{Bytes}
use pingu_os.Allocator.{Allocator}
use pingu_os.Drivers.Disk.{Disk, IsDisk, sector_size}
use pingu_os.Filesystem.{FsError, success, FileHandle}
use pingu_os.Filesystem.Fat.{Fat32}
use pingu_os.Filesystem.Fat.Table.Links.{HasTable}
use pingu_os.Filesystem.Fat.Table.Allocate.{HasTable-heap}
use pingu_os.Filesystem.Fat.Files.Chains.{ChainOf, HasTable-buffer}
use pingu_os.Filesystem.Fat.Clusters.{cluster_size, first_sector}
use pingu_os.Filesystem.Fat.Clusters.Whole.{run}
use pingu_os.Filesystem.Fat.Clusters.Runs.{length-run}
use pingu_os.Filesystem.Fat.Clusters.Slices.{cluster_bytes}

-- The cluster in which the last of `n` bytes from the offset `o` in the first cluster on stands.
abbrev pub last_cluster : ℕ → List ℕ → ℕ → ℕ → ℕ
last_cluster size cs o n = get_or cs ((o + n - 1) / size) 0

pub last_cluster-first :
    (size c : ℕ) (cs : List ℕ) (o n : ℕ)
    → o < size
    → o + n ≤ size
    → last_cluster size (c ∷ cs) o n ≡ c
last_cluster-first size c cs o n inside within =
    let first : (o + n - 1) / size ≡ 0 = div-eq_of_lt (omega (arith, inside, within)) in
    rw first refl

pub last_cluster-next :
    (size c : ℕ) (cs : List ℕ) (o n : ℕ)
    → o < size
    → size - o < n
    → last_cluster size (c ∷ cs) o n ≡ last_cluster size cs 0 (n - (size - o))
last_cluster-next size c cs o n inside more =
    let split : o + n - 1 ≡ size + (0 + (n - (size - o)) - 1) = omega (arith, inside, more) in
    let next : (o + n - 1) / size ≡ suc ((0 + (n - (size - o)) - 1) / size) =
      ap (λ z. z / size) split
      ∙ add-div_left (0 + (n - (size - o)) - 1) (omega (arith, inside))
      ∙ omega arith in
    rw next refl

module _ {D M : Type 0} (dev : Disk D) (mem : Allocator M) {count : ℕ} (k : IsDisk dev count) where
  -- The bytes of the clusters of a list, one behind the other, on a disk whose clusters begin at the
  -- sectors that `first` gives.
  abbrev pub bytes_of : D → (ℕ → ℕ) → ℕ → List ℕ → Bytes
  bytes_of d first sectors [] = []
  bytes_of d first sectors (c ∷ cs) =
      run dev mem k d (first c) sectors ++ bytes_of d first sectors cs

  abbrev pub contents : Fat32 D M → List ℕ → Bytes
  contents fs = bytes_of fs.disk (first_sector fs) fs.bpb.sectors_per_cluster

  -- The clusters of a list end on the disk.
  abbrev AllWithin : (ℕ → ℕ) → ℕ → List ℕ → Type 0
  AllWithin first sectors [] = Unit {0}
  AllWithin first sectors (c ∷ cs) = (first c + sectors ≤ count) × AllWithin first sectors cs

  abbrev pub AllOnDisk : Fat32 D M → List ℕ → Type 0
  AllOnDisk fs = AllWithin (first_sector fs) fs.bpb.sectors_per_cluster

  -- A volume in which a cluster begins the chain of a file, whose clusters lie on the disk.
  pub record HasFile (fs : Fat32 D M) (c : ℕ) (cs : List ℕ) : Type 0 where
    pub some_bytes : 0 < cluster_size fs
    pub table : HasTable dev k fs
    pub chain : ChainOf dev k fs c cs
    pub disk : AllOnDisk fs cs

  pub HasFile-within :
      (fs : Fat32 D M) (c : ℕ) (cs : List ℕ) (heap : M) (buf : Bytes)
      → length buf ≡ sector_size
      → HasFile fs c cs
      → HasFile (record fs { heap = heap; sector_buf = buf }) c cs
  HasFile-within fs c cs heap buf full f = record {
    some_bytes = f.some_bytes;
    table =
        HasTable-buffer dev k (record fs { heap = heap }) buf full
          (HasTable-heap dev mem k fs heap f.table);
    chain = f.chain;
    disk = f.disk;
  }

  -- A read that succeeds with given bytes and moves the handle to a position and a cluster. The
  -- driver changes in the heap and the buffer for a sector of the table only.
  pub data HasRead (fs : Fat32 D M) (handle : FileHandle) (position cluster : ℕ) (bytes : Bytes)
      : Option (FsError × FileHandle × Bytes × Fat32 D M) → Type 0 where
    has_read :
        {p c : ℕ} {got : Bytes} {heap : M} {buf : Bytes}
        → p ≡ position
        → c ≡ cluster
        → got ≡ bytes
        → length buf ≡ sector_size
        → HasRead fs handle position cluster bytes (
            some (
              success,
              record handle { position = p; cluster = c },
              got,
              record fs { heap = heap; sector_buf = buf },
            ))

  -- The bytes from a place in the first cluster on: those in it, and the rest behind it.
  pub take-contents :
      (fs : Fat32 D M) (c o n : ℕ) (cs : List ℕ)
      → o ≤ 512 * fs.bpb.sectors_per_cluster
      → take n (drop o (contents fs (c ∷ cs)))
        ≡ take n (drop o (cluster_bytes dev mem k fs c))
          ++ take (n - (512 * fs.bpb.sectors_per_cluster - o)) (contents fs cs)
  take-contents fs c o n cs within =
      let first = cluster_bytes dev mem k fs c in
      let size = length-run dev mem k fs.disk (first_sector fs c) fs.bpb.sectors_per_cluster in
      ap (take n) (drop-append_left o first (contents fs cs) (omega (arith, size, within)))
      ∙ take-append_both n (drop o first) (contents fs cs)
      ∙ ap (λ z. take n (drop o first) ++ take (n - z) (contents fs cs))
          (length-drop o first ∙ ap (λ z. z - o) size)

  pub HasRead-within :
      (fs : Fat32 D M) (handle : FileHandle) (heap : M) (buf : Bytes) (q d : ℕ) {p c p' c' : ℕ}
      {bytes bytes' : Bytes} {o : Option (FsError × FileHandle × Bytes × Fat32 D M)}
      → p ≡ p'
      → c ≡ c'
      → bytes ≡ bytes'
      → HasRead
          (record fs { heap = heap; sector_buf = buf })
          (record handle { position = q; cluster = d })
          p
          c
          bytes
          o
      → HasRead fs handle p' c' bytes' o
  HasRead-within fs handle heap buf q d ep ec eb (has_read hp hc hb full) =
      has_read (hp ∙ ep) (hc ∙ ec) (hb ∙ eb) full
