-- ===== src/Filesystem/Fat/Files/Repeats.antt =====
-- Reads of a file one behind the other, of a cluster each.
use native.Mathlib.Nat.{add-mod_right}
use pingu_os.Common.{
  ℕ, ◌+◌, ◌%◌, ◌^◌, ◌≤◌, ◌<◌, ◌≡◌, refl, ◌∙◌, sym, ap, ap₂, arith, true, Option, some, ◌>>=◌, List,
  ◌∷◌, length, take, drop, length-append, take-append,
}
use pingu_os.Common.Bytes.{Bytes}
use pingu_os.Allocator.{Allocator, IsAllocator}
use pingu_os.Drivers.Disk.{Disk, IsDisk, sector_size}
use pingu_os.Filesystem.{FsError, success, FileHandle}
use pingu_os.Filesystem.Fat.{Fat32}
use pingu_os.Filesystem.Fat.Clusters.{cluster_size, first_sector}
use pingu_os.Filesystem.Fat.Clusters.Runs.{length-run}
use pingu_os.Filesystem.Fat.Clusters.Slices.{cluster_bytes}
use pingu_os.Filesystem.Fat.Files.{read}
use pingu_os.Filesystem.Fat.Files.Chains.{ChainOf, EnoughMemory, step}
use pingu_os.Filesystem.Fat.Files.Contents.{
  contents, HasFile, HasFile-within, HasRead, has_read, last_cluster, last_cluster-first,
}
use pingu_os.Filesystem.Fat.Files.Access.{amount, sectors_lem, read-contents}

module _ {D M : Type 0} (dev : Disk D) (mem : Allocator M) {count : ℕ} (k : IsDisk dev count) where
  -- Two reads of a handle, one behind the other: the errors, the handle and the bytes of each.
  abbrev pub read_twice :
      ℕ → Fat32 D M → FileHandle → ℕ → Option (FsError × FsError × FileHandle × Bytes × Bytes)
  read_twice fuel fs handle size =
      read dev mem fuel fs handle size >>= λ (err, handle', bytes, fs').
      read dev mem fuel fs' handle' size >>= λ (err', handle'', bytes', fs'').
      some (err, err', handle'', bytes, bytes')

  -- What a read has returned, in other terms.
  result_lem :
      (fs : Fat32 D M) (handle : FileHandle) {position cluster : ℕ} {bytes : Bytes} (p c : ℕ)
      (b : Bytes) {o : Option (FsError × FileHandle × Bytes × Fat32 D M)}
      → position ≡ p
      → cluster ≡ c
      → bytes ≡ b
      → HasRead dev mem k fs handle position cluster bytes o
      → (heap : M) × (buf : Bytes) × (length buf ≡ sector_size)
        × (o
            ≡ some (
              success,
              record handle { position = p; cluster = c },
              b,
              record fs { heap = heap; sector_buf = buf },
            ))
  result_lem fs handle p c b ep ec eb (has_read {heap = heap} {buf = buf} hp hc hb full) =
      (heap, buf, full, rw (hp, hc, hb, ep, ec, eb) refl)

  first_lem : (fs : Fat32 D M) {c d : ℕ} {ds : List ℕ} → ChainOf dev k fs c (d ∷ ds) → d ≡ c
  first_lem fs (step used on rest) = refl

  -- A read of a cluster's size that begins with the cluster: the handle stays at the cluster.
  module _ (al : IsAllocator mem) (memory : EnoughMemory dev k mem) where
    whole_read :
        (fuel : ℕ) (fs : Fat32 D M) (handle : FileHandle) (d : ℕ) (ds : List ℕ)
        → HasFile dev mem k fs handle.cluster (d ∷ ds)
        → handle.valid ≡ true
        → handle.position % cluster_size fs ≡ 0
        → handle.position + cluster_size fs ≤ handle.size
        → handle.size < 2 ^ 32
        → length (d ∷ ds) < fuel
        → (heap : M) × (buf : Bytes) × (length buf ≡ sector_size)
          × (read dev mem fuel fs handle (cluster_size fs)
              ≡ some (
                success,
                record handle { position = handle.position + cluster_size fs },
                cluster_bytes dev mem k fs handle.cluster,
                record fs { heap = heap; sector_buf = buf },
              ))
    whole_read fuel fs handle d ds file valid start within small enough =
        let size = cluster_size fs in
        let first = cluster_bytes dev mem k fs d in
        let full : length first ≡ size =
          length-run dev mem k fs.disk (first_sector fs d) fs.bpb.sectors_per_cluster
          ∙ sym (sectors_lem dev mem k fs file.table) in
        let n : amount handle handle.position size ≡ size = ground (arith, within) in
        let fits : handle.position % size + amount handle handle.position size
            ≤ length (contents dev mem k fs (d ∷ ds)) =
          omega (arith, start, n, full, length-append first (contents dev mem k fs ds)) in
        let last : last_cluster size (d ∷ ds) (handle.position % size)
              (amount handle handle.position size)
            ≡ handle.cluster =
          ap₂ (last_cluster size (d ∷ ds)) start n
          ∙ last_cluster-first size d ds 0 size file.some_bytes (omega arith)
          ∙ first_lem fs file.chain in
        let bytes : take (amount handle handle.position size)
              (drop (handle.position % size) (contents dev mem k fs (d ∷ ds)))
            ≡ cluster_bytes dev mem k fs handle.cluster =
          ap₂ (λ x y. take x (drop y (contents dev mem k fs (d ∷ ds)))) n start
          ∙ take-append size first (contents dev mem k fs ds) full
          ∙ ap (cluster_bytes dev mem k fs) (first_lem fs file.chain) in
        result_lem fs handle (handle.position + size) handle.cluster
          (cluster_bytes dev mem k fs handle.cluster) (ap (λ z. handle.position + z) n) last bytes
          (read-contents dev mem k al memory fuel fs handle size (d ∷ ds) file valid
            (omega (arith, within, file.some_bytes)) small file.some_bytes fits enough)

    -- Two reads of a cluster's size, one behind the other, of an open handle whose position is at
    -- the start of its cluster and whose file has at least two clusters' bytes from there on. Both
    -- succeed and move the position on by a cluster's size; but the handle stays at its cluster, and
    -- the second gives the bytes of that cluster again. The handle's cluster begins a chain of
    -- clusters that lie on the disk, there is memory for a sector throughout, and the loops may run
    -- more often than the chain has clusters.
    pub read-repeats :
        (fuel : ℕ) (fs : Fat32 D M) (handle : FileHandle) (d : ℕ) (ds : List ℕ)
        → HasFile dev mem k fs handle.cluster (d ∷ ds)
        → handle.valid ≡ true
        → handle.position % cluster_size fs ≡ 0
        → handle.position + cluster_size fs + cluster_size fs ≤ handle.size
        → handle.size < 2 ^ 32
        → length (d ∷ ds) < fuel
        → read_twice fuel fs handle (cluster_size fs)
          ≡ some (
            success,
            success,
            record handle { position = handle.position + cluster_size fs + cluster_size fs },
            cluster_bytes dev mem k fs handle.cluster,
            cluster_bytes dev mem k fs handle.cluster,
          )
    read-repeats fuel fs handle d ds file valid start within small enough =
        let size = cluster_size fs in
        let (heap, buf, full, first) =
          whole_read fuel fs handle d ds file valid start (omega (arith, within)) small enough in
        let fs' = record fs { heap = heap; sector_buf = buf } in
        let handle' = record handle { position = handle.position + size } in
        let (heap', buf', full', second) =
          whole_read fuel fs' handle' d ds
            (HasFile-within dev mem k fs handle.cluster (d ∷ ds) heap buf full file) valid
            (add-mod_right handle.position size ∙ start) within small enough in
        rw (first, second) refl
