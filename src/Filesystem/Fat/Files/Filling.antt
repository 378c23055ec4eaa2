-- ===== src/Filesystem/Fat/Files/Filling.antt =====
-- The last loop of `write`: the buffer goes into the clusters of a chain.
use pingu_os.Common.{
  ℕ, zero, suc, ◌+◌, ◌*◌, ◌-◌, ◌/◌, ◌%◌, ◌^◌, ◌≤◌, ◌<◌, ◌≡◌, ◌≢◌, ◌⊎◌, inl, inr, refl, ◌∙◌, sym,
  subst, ap, ap₂, arith, Option, some, ◌>>=◌, List, ◌∷◌, ◌++◌, ltb, if◌then◌else◌, length, take,
  drop, add32, take_add, take-append_both,
}
use pingu_os.Common.Bytes.{Bytes, get_u32}
use pingu_os.Allocator.{Allocator}
use pingu_os.Drivers.Disk.{Disk, IsDisk, sector_size}
use pingu_os.Filesystem.{FsError, success, is_success, FileHandle}
use pingu_os.Filesystem.Fat.{Fat32}
use pingu_os.Filesystem.Fat.Table.{get_next_cluster}
use pingu_os.Filesystem.Fat.Table.Links.{HasTable, InTable, entry, get_next_cluster_lem}
use pingu_os.Filesystem.Fat.Clusters.{first_sector, lesser}
use pingu_os.Filesystem.Fat.Clusters.Whole.{run}
use pingu_os.Filesystem.Fat.Clusters.Runs.{length-run, take-lesser}
use pingu_os.Filesystem.Fat.Clusters.Slices.{cluster_bytes}
use pingu_os.Filesystem.Fat.Clusters.Storing.{Stored, stored}
use pingu_os.Filesystem.Fat.Files.{fill_chain}
use pingu_os.Filesystem.Fat.Files.Chains.{Chain, stop, step, Absent}
use pingu_os.Filesystem.Fat.Files.Contents.{contents}
use pingu_os.Filesystem.Fat.Files.Area.{
  HasData, InData, AllInData, InData-apart, InData-behind, InData-entry,
}

-- A chain is a chain in a table that has the same entries of its clusters.
pub Chain-agree :
    (On : ℕ → Type 0) (e e' : ℕ → ℕ) (top : ℕ) {c : ℕ} {cs : List ℕ}
    → ((b : ℕ) → InData top b → e' b ≡ e b)
    → AllInData top cs
    → Chain On e c cs
    → Chain On e' c cs
Chain-agree On e e' top agree all (stop end) = stop end
Chain-agree On e e' top agree all (step {c} {cs} used on rest) = step used on (
    subst (λ x. Chain On e' (x % 2 ^ 28) cs) (sym (agree c all.0))
      (Chain-agree On e e' top agree all.1 rest))

module _ {D M : Type 0} (dev : Disk D) (mem : Allocator M) {count : ℕ} (k : IsDisk dev count) where
  run-agree :
      (d d' : D) (s m : ℕ)
      → ((t : ℕ) → s ≤ t → t < s + m → k.sector d' t ≡ k.sector d t)
      → run dev mem k d' s m ≡ run dev mem k d s m
  run-agree d d' s zero agree = refl
  run-agree d d' s (suc m) agree =
      ap₂ (λ x y. x ++ y) (agree s (omega arith) (omega arith))
        (run-agree d d' (s + 1) m
          (λ t low high. agree t (omega (arith, low)) (omega (arith, high))))

  -- The loop succeeds: the clusters hold the first `n` bytes of the buffer, the size of the handle
  -- has grown by as many, and the sectors in front of the clusters and all other clusters are as
  -- they were.
  pub data Filled (fs : Fat32 D M) (handle : FileHandle) (top : ℕ) (cs : List ℕ) (n : ℕ)
      (buffer : Bytes) : Option (FsError × FileHandle × Fat32 D M) → Type 0 where
    filled :
        {d : D} {buf : Bytes} {size : ℕ}
        → size ≡ handle.size + n
        → length buf ≡ sector_size
        → take n (contents dev mem k (record fs { disk = d }) cs) ≡ take n buffer
        → ((t : ℕ) → t < fs.data_start → k.sector d t ≡ k.sector fs.disk t)
        → ((e : ℕ)
            → InData top e
            → Absent e cs
            → cluster_bytes dev mem k (record fs { disk = d }) e ≡ cluster_bytes dev mem k fs e)
        → Filled fs handle top cs n buffer (
            some (success, record handle { size = size }, record fs { disk = d; sector_buf = buf }))

  -- Another cluster behind a write of one.
  pub other_lem :
      (fs : Fat32 D M) (top c e : ℕ) (d : D)
      → HasData fs count top
      → InData top c
      → InData top e
      → c ≢ e
      → ((t : ℕ)
          → t < first_sector fs c ⊎ (first_sector fs c + fs.bpb.sectors_per_cluster ≤ t)
          → k.sector d t ≡ k.sector fs.disk t)
      → cluster_bytes dev mem k (record fs { disk = d }) e ≡ cluster_bytes dev mem k fs e
  other_lem fs top c e d data_area i j other same =
      run-agree fs.disk d (first_sector fs e) fs.bpb.sectors_per_cluster (λ t low high. same t (
        aside t fs.bpb.sectors_per_cluster (InData-apart fs count top data_area c e i j other) low
          high))
    where
      aside :
          (t m : ℕ) {s s' : ℕ}
          → s + m ≤ s' ⊎ (s' + m ≤ s)
          → s' ≤ t
          → t < s' + m
          → t < s ⊎ (s + m ≤ t)
      aside t m (inl behind) low high = inr (omega (arith, behind, low))
      aside t m (inr before) low high = inl (omega (arith, before, high))

  -- The first cluster behind the write of it, and the others.
  front_lem :
      (fs : Fat32 D M) (handle : FileHandle) (top c n : ℕ) (cs : List ℕ) (buffer before : Bytes)
      (d₁ : D) {o : Option (FsError × FileHandle × Fat32 D M)}
      → let size = 512 * fs.bpb.sectors_per_cluster in
        let b = lesser size n in
        HasData fs count top
        → InData top c
        → Absent c cs
        → take b (cluster_bytes dev mem k (record fs { disk = d₁ }) c) ≡ take b buffer
        → ((t : ℕ)
            → t < first_sector fs c ⊎ (first_sector fs c + fs.bpb.sectors_per_cluster ≤ t)
            → k.sector d₁ t ≡ k.sector fs.disk t)
        → Filled
            (record fs { disk = d₁; sector_buf = before })
            (record handle { size = handle.size + b })
            top
            cs
            (n - b)
            (drop b buffer)
            o
        → Filled fs handle top (c ∷ cs) n buffer o
  front_lem fs handle top c n cs buffer before d₁ data_area inside absent here same
        (filled {d} more full bytes table others) =
      let size = 512 * fs.bpb.sectors_per_cluster in
      let b = lesser size n in
      let first = cluster_bytes dev mem k (record fs { disk = d }) c in
      let behind = contents dev mem k (record fs { disk = d }) cs in
      let room : length first ≡ size =
        length-run dev mem k d (first_sector fs c) fs.bpb.sectors_per_cluster in
      let left : n - size ≡ n - b = ground arith in
      let whole : b + (n - b) ≡ n = ground arith in
      filled (more ∙ ground arith) full
        (take-append_both n first behind
          ∙ ap₂ (λ x m. x ++ take m behind)
              (take-lesser n first (ltb n size) refl room
                ∙ ap (take b) (others c inside absent)
                ∙ here)
              (ap (λ m. n - m) room ∙ left)
          ∙ ap (λ x. take b buffer ++ x) bytes
          ∙ sym (take_add b (n - b) buffer)
          ∙ ap (λ m. take m buffer) whole)
        (λ t low.
          table t low
          ∙ same t (inl (omega (arith, low, InData-behind fs count top data_area c inside))))
        (λ e i apart.
          others e i apart.1
          ∙ other_lem fs top c e d₁ data_area inside i (λ h. apart.0 (sym h)) same)

  pub HasTable-disk :
      (fs : Fat32 D M) (d : D) → HasTable dev k fs → HasTable dev k (record fs { disk = d })
  HasTable-disk fs d t = record {
    bytes = t.bytes;
    table = t.table;
    small = t.small;
    addressable = t.addressable;
    buffer = t.buffer;
  }

  pub entry-agree :
      (fs : Fat32 D M) (top : ℕ) (d : D) (e : ℕ)
      → HasData fs count top
      → ((t : ℕ) → t < fs.data_start → k.sector d t ≡ k.sector fs.disk t)
      → InData top e
      → entry dev k (record fs { disk = d }) e ≡ entry dev k fs e
  entry-agree fs top d e data_area same i =
      ap (λ sector. get_u32 sector (4 * (e % 128)))
        (same (fs.fat_start + e / 128) (InData-entry fs count top data_area e i))

  -- A round of the loop behind its write, with what the rest of the loop leaves.
  pub fill_round :
      (fuel : ℕ) (fs : Fat32 D M) (handle : FileHandle) (top c n : ℕ) (cs : List ℕ) (buffer : Bytes)
      {o : Option (FsError × Fat32 D M)}
      → let b = lesser (512 * fs.bpb.sectors_per_cluster) n in
        HasData fs count top
        → HasTable dev k fs
        → InTable dev k fs c
        → InData top c
        → Absent c cs
        → handle.size + n < 2 ^ 32
        → ((d : D) (buf : Bytes)
            → ((t : ℕ) → t < fs.data_start → k.sector d t ≡ k.sector fs.disk t)
            → length buf ≡ sector_size
            → Filled
                (record fs { disk = d; sector_buf = buf })
                (record handle { size = handle.size + b })
                top
                cs
                (n - b)
                (drop b buffer)
                (fill_chain dev mem fuel
                  (record fs { disk = d; sector_buf = buf })
                  (record handle { size = handle.size + b })
                  (entry dev k fs c % 2 ^ 28)
                  (drop b buffer)
                  (n - b)))
        → Stored dev mem k fs (first_sector fs c) fs.bpb.sectors_per_cluster b buffer o
        → Filled fs handle top (c ∷ cs) n buffer (
            o >>= λ (err, fs2).
            let (next, fs3) = get_next_cluster dev fs2 c in
            let handle' = record handle { size = add32 handle.size b } in
            let more = fill_chain dev mem fuel fs3 handle' next (drop b buffer) (n - b) in
            if is_success err then more else some (err, handle, fs2))
  fill_round fuel fs handle top c n cs buffer data_area t on inside absent small rest
        (stored {d} here same) =
      let b = lesser (512 * fs.bpb.sectors_per_cluster) n in
      let table : (t : ℕ) → t < fs.data_start → k.sector d t ≡ k.sector fs.disk t =
        λ t low. same t (inl (omega (arith, low, InData-behind fs count top data_area c inside))) in
      let buf = k.sector d (fs.fat_start + c / 128) in
      let size : add32 handle.size b ≡ handle.size + b = ground (arith, small) in
      let next = ap (λ e. e % 2 ^ 28) (entry-agree fs top d c data_area table inside) in
      rw
        (
          get_next_cluster_lem dev k (record fs { disk = d }) (HasTable-disk fs d t) c on,
          next,
          size,
        )
        (front_lem fs handle top c n cs buffer buf d data_area inside absent here same
          (rest d buf table (k.full_sector d (fs.fat_start + c / 128))))
