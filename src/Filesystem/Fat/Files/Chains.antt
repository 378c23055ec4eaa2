-- ===== src/Filesystem/Fat/Files/Chains.antt =====
-- Chains of clusters in the table: walking along one, and giving one back.
use pingu_os.Common.{
  ℕ, zero, suc, ◌+◌, ◌/◌, ◌%◌, ◌^◌, ◌<◌, ◌≡◌, ◌≢◌, refl, ◌∙◌, sym, subst, ap, arith, Bool, true,
  false, Option, some, List, [], ◌∷◌, ◌==◌, if◌then◌else◌, length,
}
use pingu_os.Common.Bytes.{Bytes}
use pingu_os.Allocator.{Allocator, IsAllocator, Buffer}
use pingu_os.Drivers.Disk.{Disk, IsDisk, sector_size}
use pingu_os.Filesystem.Fat.{Fat32, is_end_of_chain}
use pingu_os.Filesystem.Fat.Table.{deallocate_cluster}
use pingu_os.Filesystem.Fat.Table.Links.{HasTable, entry, InTable, get_next_cluster_lem}
use pingu_os.Filesystem.Fat.Table.Allocate.{
  deallocate_cluster_lem, deallocate_cluster-HasTable, deallocate_in-fat_start,
}
use pingu_os.Filesystem.Fat.Files.{free_chain}

-- The clusters of a chain in a table `e`, from a cluster on up to a mark of the end. The clusters
-- satisfy `On`.
pub data Chain (On : ℕ → Type 0) (e : ℕ → ℕ) : ℕ → List ℕ → Type 0 where
  stop : {c : ℕ} → is_end_of_chain c ≡ true → Chain On e c []
  step :
      {c : ℕ} {cs : List ℕ}
      → is_end_of_chain c ≡ false
      → On c
      → Chain On e (e c % 2 ^ 28) cs
      → Chain On e c (c ∷ cs)

-- No cluster twice.
abbrev pub Absent : ℕ → List ℕ → Type 0
Absent c [] = Unit {0}
Absent c (d ∷ ds) = (c ≢ d) × Absent c ds

abbrev pub Distinct : List ℕ → Type 0
Distinct [] = Unit {0}
Distinct (c ∷ cs) = Absent c cs × Distinct cs

-- An entry after the clusters of a list have been freed.
abbrev pub freed : List ℕ → ℕ → ℕ → ℕ
freed [] c v = v
freed (d ∷ ds) c v = if d == c then 0 else freed ds c v

freed_if :
    (b : Bool) (cs : List ℕ) (c v : ℕ)
    → freed cs c (if b then 0 else v) ≡ (if b then 0 else freed cs c v)
freed_if false cs c v = refl
freed_if true [] c v = refl
freed_if true (d ∷ ds) c v =
    ap (λ x. if d == c then 0 else x) (freed_if true ds c v) ∙ if_same (d == c)
  where
    if_same : (b : Bool) → ◌≡◌ {A = ℕ} (if b then 0 else 0) 0
    if_same false = refl
    if_same true = refl

unless : (d b v : ℕ) → d ≢ b → (if d == b then 0 else v) ≡ v
unless d b v other = let differ : (d == b) ≡ false = ground arith in rw differ refl

-- A chain is a chain in every table that agrees on its clusters.
Chain-cong :
    (On : ℕ → Type 0) (e e' : ℕ → ℕ) (d : ℕ) (cs : List ℕ) {c : ℕ}
    → ((b : ℕ) → d ≢ b → e' b ≡ e b)
    → Absent d cs
    → Chain On e c cs
    → Chain On e' c cs
Chain-cong On e e' d [] agree absent (stop end) = stop end
Chain-cong On e e' d (c ∷ cs) agree absent (step more on rest) = step more on (
    subst (λ x. Chain On e' (x % 2 ^ 28) cs) (sym (agree c absent.0))
      (Chain-cong On e e' d cs agree absent.1 rest))

module _ {D M : Type 0} (dev : Disk D) {count : ℕ} (k : IsDisk dev count) where
  -- The chain of a volume that begins with a cluster.
  abbrev pub ChainOf : Fat32 D M → ℕ → List ℕ → Type 0
  ChainOf fs = Chain (InTable dev k fs) (entry dev k fs)

  pub HasTable-buffer :
      (fs : Fat32 D M) (buf : Bytes)
      → length buf ≡ sector_size
      → HasTable dev k fs
      → HasTable dev k (record fs { sector_buf = buf })
  HasTable-buffer fs buf full t = record {
    bytes = t.bytes;
    table = t.table;
    small = t.small;
    addressable = t.addressable;
    buffer = full;
  }

  module _ (mem : Allocator M) where
    -- What `free_chain` leaves: the clusters are free, and every other entry is as it was.
    pub data Freed (fs : Fat32 D M) (cs : List ℕ) : Option (Fat32 D M) → Type 0 where
      all_freed :
          {g : Fat32 D M}
          → ((c : ℕ) → entry dev k g c ≡ freed cs c (entry dev k fs c))
          → HasTable dev k g
          → Freed fs cs (some g)

    after_first :
        (fs fs' : Fat32 D M) (c : ℕ) (cs : List ℕ) {o : Option (Fat32 D M)}
        → ((b : ℕ) → entry dev k fs' b ≡ (if c == b then 0 else entry dev k fs b))
        → Freed fs' cs o
        → Freed fs (c ∷ cs) o
    after_first fs fs' c cs one (all_freed rest t) =
        all_freed
          (λ b. rest b ∙ ap (freed cs b) (one b) ∙ freed_if (c == b) cs b (entry dev k fs b)) t

    -- Memory for a sector, whatever has been asked for before.
    abbrev pub EnoughMemory : Type 0
    EnoughMemory = (h : M) → (b : Buffer) × ((mem.malloc h sector_size).0 ≡ some b)

    deallocate_cluster-fat_start :
        (fs : Fat32 D M) (c : ℕ) → (deallocate_cluster dev mem fs c).1.fat_start ≡ fs.fat_start
    unfolding deallocate_cluster
    deallocate_cluster-fat_start fs c =
        let (block, heap) = mem.malloc fs.heap fs.bpb.bytes_per_sector in
        deallocate_in-fat_start dev mem k (record fs { heap = heap }) c block

    free_from :
        (fuel : ℕ) (fs : Fat32 D M) (c : ℕ) (cs : List ℕ) (start : ℕ)
        → fs.fat_start ≡ start
        → IsAllocator mem
        → EnoughMemory
        → HasTable dev k fs
        → Chain (λ b. start + b / 128 < count) (entry dev k fs) c cs
        → Distinct cs
        → length cs < fuel
        → Freed fs cs (free_chain dev mem fuel fs c)
    unfolding free_chain
    free_from zero fs c cs start at al memory t chain distinct enough =
        absurd (omega (arith, enough))
    free_from (suc fuel) fs c [] start at al memory t (stop end) distinct enough =
        rw end (all_freed (λ b. refl) t)
    free_from (suc fuel) fs c (d ∷ cs) start at al memory t (step more on rest) distinct enough =
        let sector = k.sector fs.disk (fs.fat_start + c / 128) in
        let fs1 = record fs { sector_buf = sector } in
        let t1 = HasTable-buffer fs sector (k.full_sector fs.disk (fs.fat_start + c / 128)) t in
        let fs2 = (deallocate_cluster dev mem fs1 c).1 in
        let inside : InTable dev k fs c = omega (arith, on, at) in
        let (b, got) = memory fs.heap in
        let block : (mem.malloc fs.heap fs.bpb.bytes_per_sector).0 ≡ some b =
          ap (λ n. (mem.malloc fs.heap n).0) t.bytes ∙ got in
        let one = (deallocate_cluster_lem dev mem k fs1 c b al t1 inside block).1 in
        rw (more, get_next_cluster_lem dev k fs t c inside)
          (after_first fs fs2 c cs one (
            free_from fuel fs2 (entry dev k fs c % 2 ^ 28) cs start
              (deallocate_cluster-fat_start fs1 c ∙ at) al memory
              (deallocate_cluster-HasTable dev mem k fs1 c t1)
              (Chain-cong (λ b. start + b / 128 < count) (entry dev k fs) (entry dev k fs2) c cs
                (λ b other. one b ∙ unless c b (entry dev k fs b) other) distinct.0 rest)
              distinct.1 (omega (arith, enough))))

    -- The loop that gives a chain back ends, on more fuel than the chain has clusters, and frees
    -- exactly the chain's clusters. The chain has no cluster twice, it ends in a mark of the end,
    -- and there is memory for a sector throughout.
    pub free_chain-Freed :
        (fuel : ℕ) (fs : Fat32 D M) (c : ℕ) (cs : List ℕ)
        → IsAllocator mem
        → EnoughMemory
        → HasTable dev k fs
        → ChainOf fs c cs
        → Distinct cs
        → length cs < fuel
        → Freed fs cs (free_chain dev mem fuel fs c)
    free_chain-Freed fuel fs c cs al memory t chain distinct enough =
        free_from fuel fs c cs fs.fat_start refl al memory t chain distinct enough
