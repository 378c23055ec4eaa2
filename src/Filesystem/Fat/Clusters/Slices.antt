-- ===== src/Filesystem/Fat/Clusters/Slices.antt =====
-- `read_cluster` from any byte of a cluster on.
use pingu_os.Common.{
  ℕ, zero, suc, ◌+◌, ◌*◌, ◌-◌, ◌/◌, ◌%◌, ◌^◌, ◌≤◌, ◌<◌, ◌≡◌, ◌∙◌, sym, subst, ap, arith, false,
  Option, none, some, [], ◌++◌, ◌==◌, if◌then◌else◌, length, take, drop, add32, append_assoc,
}
use pingu_os.Common.Bytes.{Bytes, fill, fill_all, take_all}
use pingu_os.Allocator.{Allocator, IsAllocator, Buffer}
use pingu_os.Drivers.Disk.{Disk, IsDisk}
use pingu_os.Filesystem.{FsError}
use pingu_os.Filesystem.Fat.{Fat32}
use pingu_os.Filesystem.Fat.Clusters.{
  cluster_size, first_sector, clamp, lesser, read_full, read_end, read_rest, read_partial,
  read_cluster,
}
use pingu_os.Filesystem.Fat.Clusters.Whole.{run, read_full-run}
use pingu_os.Filesystem.Fat.Clusters.Runs.{take-run, drop-run, slice_lem}
use pingu_os.Filesystem.Fat.Clusters.RoundTrip.{
  clamp_lem, ReadOk, ReadOk-heap, read_tail_lem, read_end_lem, Reads, reads,
}

module _ {D M : Type 0} (dev : Disk D) (mem : Allocator M) {count : ℕ} (k : IsDisk dev count) where
  Reads-heap :
      (fs : Fat32 D M) (h : M) (bytes : Bytes) {o : Option (FsError × Bytes × Fat32 D M)}
      → Reads dev mem k (record fs { heap = h }) bytes o
      → Reads dev mem k fs bytes o
  Reads-heap fs h bytes (reads ok) = reads (ReadOk-heap dev mem k fs h bytes ok)

  -- A block for a part of a sector, that is at hand already or can be had.
  data HasBlock (fs : Fat32 D M) : Option Buffer → Type 0 where
    at_hand : {b : Buffer} → HasBlock fs (some b)
    on_heap :
        {b : Buffer} → (mem.malloc fs.heap fs.bpb.bytes_per_sector).0 ≡ some b → HasBlock fs none

  read_end-ReadOk :
      (fs : Fat32 D M) (temp : Option Buffer) (done : Bytes) (s r : ℕ)
      → HasBlock fs temp
      → 512 * s + r ≤ 512 * count
      → r < 512
      → ReadOk dev mem k fs
          (done ++ take r (k.sector fs.disk s))
          (read_end dev mem fs temp done s r)
  unfolding read_end
  read_end-ReadOk fs (some b) done s r at_hand on small =
      read_tail_lem dev mem k fs b done s r on small
  read_end-ReadOk fs none done s r (on_heap {b} memory) on small =
      read_end_lem dev mem k fs b done s r on small memory

  -- The sectors from `s` on, up to a part of the last.
  read_rest-Reads :
      (fs : Fat32 D M) (temp : Option Buffer) (done : Bytes) (s n m : ℕ)
      → fs.bpb.bytes_per_sector ≡ 512
      → HasBlock fs temp
      → n ≤ 512 * m
      → s + m ≤ count
      → count ≤ 2 ^ 28
      → Reads dev mem k fs
          (done ++ take n (run dev mem k fs.disk s m))
          (read_rest dev mem fs temp done s n)
  unfolding read_rest
  read_rest-Reads fs temp done s n m bytes memory within on limit =
      let q = n / 512 in
      let r = n % 512 in
      let parts : n ≡ 512 * q + r = omega arith in
      let front = run dev mem k fs.disk s q in
      let full : read_full dev (n + 1) fs s n ≡ some (front, s + q, r) =
        ap (read_full dev (n + 1) fs s) parts
        ∙ read_full-run dev mem k q r (n + 1) fs s bytes (omega arith) (omega arith)
            (omega (arith, within, on)) limit in
      let same : (done ++ front) ++ take r (k.sector fs.disk (s + q))
          ≡ done ++ take n (run dev mem k fs.disk s m) =
        append_assoc done front (take r (k.sector fs.disk (s + q)))
        ∙ ap (λ l. done ++ l)
            (sym (take-run dev mem k fs.disk s q r m (omega arith) (omega (arith, within)))
              ∙ ap (λ x. take x (run dev mem k fs.disk s m)) (sym parts)) in
      rw full (
        reads (
          subst (λ l. ReadOk dev mem k fs l (read_end dev mem fs temp (done ++ front) (s + q) r))
            same
            (read_end-ReadOk fs temp (done ++ front) (s + q) r memory (omega (arith, within, on))
              (omega arith))))

  -- A cluster that lies on the disk, with 512 bytes to a sector.
  pub record OnDisk (fs : Fat32 D M) (c : ℕ) : Type 0 where
    pub bytes : fs.bpb.bytes_per_sector ≡ 512
    pub on : first_sector fs c + fs.bpb.sectors_per_cluster ≤ count
    pub addressable : count ≤ 2 ^ 28

  -- The bytes of a cluster.
  abbrev pub cluster_bytes : Fat32 D M → ℕ → Bytes
  cluster_bytes fs c = run dev mem k fs.disk (first_sector fs c) fs.bpb.sectors_per_cluster

  read_partial-Reads :
      (fs : Fat32 D M) (b : Buffer) (s i x n m : ℕ)
      → fs.bpb.bytes_per_sector ≡ 512
      → length b.bytes ≡ 512
      → x < 512
      → i < m
      → 512 * i + x + n ≤ 512 * m
      → s + m ≤ count
      → count ≤ 2 ^ 28
      → Reads dev mem k fs
          (take n (drop (512 * i + x) (run dev mem k fs.disk s m)))
          (read_partial dev mem fs (some b) (s + i) x n)
  unfolding read_partial
  read_partial-Reads fs b s i x n m bytes room small inside within on limit =
      let sector = k.sector fs.disk (s + i) in
      let got : fill b.bytes (dev.read_28 fs.disk (s + i) fs.bpb.bytes_per_sector).1 ≡ sector =
        ap (λ z. fill b.bytes (dev.read_28 fs.disk (s + i) z).1) bytes
        ∙ ap (λ r. fill b.bytes r.1)
            (k.reads fs.disk (s + i) 512 (omega (arith, inside, on)) (omega arith))
        ∙ ap (fill b.bytes) (take_all 512 sector (omega (arith, k.full_sector fs.disk (s + i))))
        ∙ fill_all b.bytes sector (omega (arith, room, k.full_sector fs.disk (s + i))) in
      let num : lesser (fs.bpb.bytes_per_sector - x) n ≡ lesser (512 - x) n =
        ap (λ z. lesser (z - x) n) bytes in
      let next : add32 (s + i) 1 ≡ s + i + 1 = omega (arith, inside, on, limit) in
      rw (got, num, next, slice_lem dev mem k fs.disk s i x n m small inside)
        (read_rest-Reads fs (some (record b { bytes = sector }))
          (take (lesser (512 - x) n) (drop x sector)) (s + i + 1) (n - lesser (512 - x) n)
          (m - i - 1) bytes at_hand (ground (arith, within, inside)) (omega (arith, inside, on))
          limit)

  read_either :
      (fs : Fat32 D M) (s i x n m : ℕ) (b : Buffer)
      → IsAllocator mem
      → fs.bpb.bytes_per_sector ≡ 512
      → x < 512
      → 512 * i + x + n ≤ 512 * m
      → s + m ≤ count
      → count ≤ 2 ^ 28
      → (mem.malloc fs.heap fs.bpb.bytes_per_sector).0 ≡ some b
      → let (block, heap) = mem.malloc fs.heap fs.bpb.bytes_per_sector in
        Reads dev mem k fs (take n (drop (512 * i + x) (run dev mem k fs.disk s m))) (
          if x == 0
          then read_rest dev mem fs none [] (s + i) n
          else read_partial dev mem (record fs { heap = heap }) block (s + i) x n)
  read_either fs s i zero n m b al bytes small within on limit memory =
      let start : 512 * i + 0 ≡ 512 * i = omega arith in
      rw (start, drop-run dev mem k fs.disk s i m (omega (arith, within)))
        (read_rest-Reads fs none [] (s + i) n (m - i) bytes (on_heap memory) (omega (arith, within))
          (omega (arith, within, on)) limit)
  read_either fs s i (suc x) n m b al bytes small within on limit memory =
      let fs' = record fs { heap = (mem.malloc fs.heap fs.bpb.bytes_per_sector).1 } in
      let not_start : (suc x == 0) ≡ false = ground arith in
      let part = take n (drop (512 * i + suc x) (run dev mem k fs.disk s m)) in
      rw not_start (
        Reads-heap fs fs'.heap part (
          subst (λ o. Reads dev mem k fs' part (read_partial dev mem fs' o (s + i) (suc x) n))
            (sym memory)
            (read_partial-Reads fs' b s i (suc x) n m bytes
              (al.sized fs.heap fs.bpb.bytes_per_sector memory ∙ bytes) small
              (omega (arith, within)) within on limit)))

  read_at :
      (fs : Fat32 D M) (c i x n : ℕ) (b : Buffer)
      → IsAllocator mem
      → OnDisk fs c
      → x < 512
      → 512 * i + x + n ≤ 512 * fs.bpb.sectors_per_cluster
      → (mem.malloc fs.heap fs.bpb.bytes_per_sector).0 ≡ some b
      → Reads dev mem k fs
          (take n (drop (512 * i + x) (cluster_bytes fs c)))
          (read_cluster dev mem fs c (512 * i + x) n)
  unfolding read_cluster
  read_at fs c i x n b al room small within memory =
      let at = first_sector fs c in
      let start : add32 at ((512 * i + x) / fs.bpb.bytes_per_sector) ≡ at + i =
        ap (λ z. add32 at ((512 * i + x) / z)) room.bytes
        ∙ omega (arith, small, within, room.on, room.addressable) in
      let offset : (512 * i + x) % fs.bpb.bytes_per_sector ≡ x =
        ap (λ z. (512 * i + x) % z) room.bytes ∙ omega (arith, small) in
      let size : cluster_size fs ≡ 512 * fs.bpb.sectors_per_cluster =
        ap (λ z. fs.bpb.sectors_per_cluster * z) room.bytes ∙ omega arith in
      let clamped : clamp fs n ≡ n = clamp_lem n (cluster_size fs) (omega (arith, size, within)) in
      rw (start, offset, clamped)
        (read_either fs at i x n fs.bpb.sectors_per_cluster b al room.bytes small within room.on
          room.addressable memory)

  -- `read_cluster` of `n` bytes from the byte `o` of a cluster on, which are within the cluster,
  -- succeeds, where there is memory for a sector, and gives exactly those bytes of the cluster. It
  -- changes nothing but the heap.
  pub read_cluster-cluster_bytes :
      (fs : Fat32 D M) (c o n : ℕ) (b : Buffer)
      → IsAllocator mem
      → OnDisk fs c
      → o + n ≤ 512 * fs.bpb.sectors_per_cluster
      → (mem.malloc fs.heap fs.bpb.bytes_per_sector).0 ≡ some b
      → Reads dev mem k fs (take n (drop o (cluster_bytes fs c))) (read_cluster dev mem fs c o n)
  read_cluster-cluster_bytes fs c o n b al room within memory =
      let parts : 512 * (o / 512) + o % 512 ≡ o = omega arith in
      subst
        (λ z.
          Reads dev mem k fs (take n (drop z (cluster_bytes fs c))) (read_cluster dev mem fs c z n))
        parts
        (read_at fs c (o / 512) (o % 512) n b al room (omega arith) (omega (arith, parts, within))
          memory)
