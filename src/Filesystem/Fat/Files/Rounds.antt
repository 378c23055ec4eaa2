-- ===== src/Filesystem/Fat/Files/Rounds.antt =====
-- The rounds of the loop of `read`, inside a cluster and to the end of one.
use native.Mathlib.Nat.{mod-lt, mod_self, mod-add-mod}
use pingu_os.Common.{
  ℕ, zero, suc, ◌+◌, ◌*◌, ◌-◌, ◌%◌, ◌^◌, ◌≤◌, ◌<◌, ◌≡◌, refl, ◌∙◌, sym, ap, ap₂, arith, Bool, true,
  false, ◌&&◌, Option, some, ◌>>=◌, List, ◌∷◌, ◌++◌, ◌==◌, if◌then◌else◌, length, take, drop, add32,
  append_assoc,
}
use pingu_os.Common.Bytes.{Bytes}
use pingu_os.Allocator.{Allocator}
use pingu_os.Drivers.Disk.{Disk, IsDisk, sector_size}
use pingu_os.Filesystem.{FsError, success, is_success, FileHandle}
use pingu_os.Filesystem.Fat.{Fat32}
use pingu_os.Filesystem.Fat.Clusters.{cluster_size, lesser}
use pingu_os.Filesystem.Fat.Table.{get_next_cluster}
use pingu_os.Filesystem.Fat.Clusters.RoundTrip.{Reads, reads, read_ok}
use pingu_os.Filesystem.Fat.Clusters.Slices.{cluster_bytes}
use pingu_os.Filesystem.Fat.Files.{read_loop, read_step}
use pingu_os.Filesystem.Fat.Files.Contents.{
  contents, HasRead, has_read, take-contents, last_cluster, last_cluster-first, last_cluster-next,
  HasRead-within,
}

-- The place in a cluster of `size` bytes behind the end of it that a position is in.
pub next_start : (p size : ℕ) → 0 < size → (p + (size - p % size)) % size ≡ 0
next_start p size some_bytes =
    let whole : p % size + (size - p % size) ≡ size = omega (arith, mod-lt p some_bytes) in
    sym (mod-add-mod p size (size - p % size)) ∙ ap (λ n. n % size) whole ∙ mod_self size

and_false : (b : Bool) → (b && false) ≡ false
and_false true = refl
and_false false = refl

module _ {D M : Type 0} (dev : Disk D) (mem : Allocator M) {count : ℕ} (k : IsDisk dev count) where
  module _ (fs : Fat32 D M) (handle : FileHandle) (size : ℕ) (same : cluster_size fs ≡ size) where
    -- The last round of the loop: the bytes are within the cluster.
    step_last :
        (p c n : ℕ) (done bytes : Bytes) (heap : M)
        → n ≤ size - p % size
        → p + n < 2 ^ 32
        → read_step dev mem fs
            (record handle { position = p; cluster = c })
            done
            n
            (success, bytes, record fs { heap = heap })
          ≡ (
            success,
            record handle { position = p + n; cluster = c },
            done ++ bytes,
            0,
            record fs { heap = heap },
          )
    unfolding read_step
    step_last p c n done bytes heap within small =
        let least : lesser (size - p % size) n ≡ n = ground (arith, within) in
        let position : add32 p n ≡ p + n = omega (arith, small) in
        let left : n - n ≡ 0 = omega arith in
        rw (same, least, position, left, and_false ((p + n) % size == 0)) refl

    -- A round that reads to the end of the cluster, with bytes to read behind it.
    step_on :
        (p c n next : ℕ) (done bytes buf : Bytes) (heap : M)
        → 0 < size
        → size - p % size < n
        → p + n < 2 ^ 32
        → get_next_cluster dev (record fs { heap = heap }) c
          ≡ (next, record fs { heap = heap; sector_buf = buf })
        → read_step dev mem fs
            (record handle { position = p; cluster = c })
            done
            n
            (success, bytes, record fs { heap = heap })
          ≡ (
            success,
            record handle { position = p + (size - p % size); cluster = next },
            done ++ bytes,
            n - (size - p % size),
            record fs { heap = heap; sector_buf = buf },
          )
    unfolding read_step
    step_on p c n next done bytes buf heap some_bytes more small found =
        let least : lesser (size - p % size) n ≡ size - p % size = ground (arith, more) in
        let position : add32 p (size - p % size) ≡ p + (size - p % size) =
          omega (arith, more, small) in
        let not_done : (n - (size - p % size) == 0) ≡ false = ground (arith, more) in
        rw (same, least, position, found, next_start p size some_bytes, not_done) refl

  abbrev pub Loop :
      (fuel : ℕ) → Fat32 D M → FileHandle → (size p c : ℕ) → Bytes → ℕ → List ℕ → Type 0
  Loop fuel fs handle size p c done n cs =
      HasRead dev mem k fs handle (p + n) (last_cluster size cs (p % size) n)
        (done ++ take n (drop (p % size) (contents dev mem k fs cs)))
        (read_loop dev mem fuel fs (record handle { position = p; cluster = c }) done n)

  pub loop_done :
      (fuel : ℕ) (fs : Fat32 D M) (handle : FileHandle) (p c : ℕ) (done : Bytes)
      → 0 < fuel
      → read_loop dev mem fuel fs (record handle { position = p; cluster = c }) done 0
        ≡ some (success, record handle { position = p; cluster = c }, done, fs)
  unfolding read_loop
  loop_done zero fs handle p c done enough = absurd (omega (arith, enough))
  loop_done (suc fuel) fs handle p c done enough = refl

  -- A round behind its read: the bytes are in this cluster.
  pub round_last :
      (fuel : ℕ) (fs : Fat32 D M) (handle : FileHandle) (size p c n : ℕ) (cs : List ℕ)
      (done part : Bytes) {o : Option (FsError × Bytes × Fat32 D M)}
      → cluster_size fs ≡ size
      → length fs.sector_buf ≡ sector_size
      → 0 < size
      → 0 < fuel
      → n ≤ size - p % size
      → p + n < 2 ^ 32
      → part ≡ take n (drop (p % size) (contents dev mem k fs (c ∷ cs)))
      → Reads dev mem k fs part o
      → HasRead dev mem k fs handle
          (p + n)
          (last_cluster size (c ∷ cs) (p % size) n)
          (done ++ take n (drop (p % size) (contents dev mem k fs (c ∷ cs))))
          ((o >>= λ r.
              some (read_step dev mem fs (record handle { position = p; cluster = c }) done n r))
            >>= λ (err, handle', done', left, fs').
                let more = read_loop dev mem fuel fs' handle' done' left in
                if is_success err then more else some (err, handle', done', fs'))
  round_last fuel fs handle size p c n cs done part same full some_bytes enough within small all
        (reads (read_ok {got} {heap} same_bytes)) =
      rw
        (
          step_last fs handle size same p c n done got heap within small,
          loop_done fuel (record fs { heap = heap }) handle (p + n) c (done ++ got) enough,
        )
        (has_read refl
          (sym (
            last_cluster-first size c cs (p % size) n (mod-lt p some_bytes)
              (omega (arith, within, mod-lt p some_bytes))))
          (ap (λ l. done ++ l) (same_bytes ∙ all)) full)

  -- A round behind its read: there are bytes to read in the next cluster.
  pub round_on :
      (fuel : ℕ) (fs : Fat32 D M) (handle : FileHandle) (size p c n next : ℕ) (cs : List ℕ)
      (done part buf : Bytes) {o : Option (FsError × Bytes × Fat32 D M)}
      → cluster_size fs ≡ size
      → size ≡ 512 * fs.bpb.sectors_per_cluster
      → 0 < size
      → size - p % size < n
      → p + n < 2 ^ 32
      → part ≡ take n (drop (p % size) (cluster_bytes dev mem k fs c))
      → ((heap : M)
          → get_next_cluster dev (record fs { heap = heap }) c
            ≡ (next, record fs { heap = heap; sector_buf = buf }))
      → ((heap : M) (read_before : Bytes)
          → Loop fuel
              (record fs { heap = heap; sector_buf = buf })
              handle
              size
              (p + (size - p % size))
              next
              read_before
              (n - (size - p % size))
              cs)
      → Reads dev mem k fs part o
      → HasRead dev mem k fs handle
          (p + n)
          (last_cluster size (c ∷ cs) (p % size) n)
          (done ++ take n (drop (p % size) (contents dev mem k fs (c ∷ cs))))
          ((o >>= λ r.
              some (read_step dev mem fs (record handle { position = p; cluster = c }) done n r))
            >>= λ (err, handle', done', left, fs').
                let more = read_loop dev mem fuel fs' handle' done' left in
                if is_success err then more else some (err, handle', done', fs'))
  round_on fuel fs handle size p c n next cs done part buf same sectors some_bytes more small all
        found rest (reads (read_ok {got} {heap} same_bytes)) =
      let o = p % size in
      let inside : o < size = mod-lt p some_bytes in
      let behind = take (n - (size - o)) (contents dev mem k fs cs) in
      let at = next_start p size some_bytes in
      let bytes : (done ++ got)
            ++ take (n - (size - o)) (drop ((p + (size - o)) % size) (contents dev mem k fs cs))
          ≡ done ++ take n (drop o (contents dev mem k fs (c ∷ cs))) =
        ap (λ z. (done ++ got) ++ take (n - (size - o)) (drop z (contents dev mem k fs cs))) at
        ∙ append_assoc done got behind
        ∙ ap (λ l. done ++ l)
            (ap₂ (λ l z. l ++ take (n - (z - o)) (contents dev mem k fs cs)) (same_bytes ∙ all)
                sectors
              ∙ sym (take-contents dev mem k fs c o n cs (omega (arith, sectors, inside)))) in
      rw
        (step_on fs handle size same p c n next done got buf heap some_bytes more small
          (found heap))
        (HasRead-within dev mem k fs handle heap buf handle.position handle.cluster
          (omega (arith, more))
          (ap (λ z. last_cluster size cs z (n - (size - o))) at
            ∙ sym (last_cluster-next size c cs o n inside more))
          bytes (rest heap (done ++ got)))
