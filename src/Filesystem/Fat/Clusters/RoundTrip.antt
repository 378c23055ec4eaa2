-- ===== src/Filesystem/Fat/Clusters/RoundTrip.antt =====
-- `read_cluster` behind `write_cluster`, from the start of a cluster.
use pingu_os.Common.{
  ℕ, zero, suc, ◌+◌, ◌*◌, ◌-◌, ◌/◌, ◌%◌, ◌^◌, ◌≤◌, ◌<◌, ◌≡◌, refl, ◌∙◌, sym, subst, ap, ap₂, arith,
  false, Option, none, some, ◌++◌, ◌==◌, ltb, if◌then◌else◌, length, take, drop, replicate, add32,
  append-nil, length-take, length-drop, take-append, take_add,
}
use pingu_os.Common.Bytes.{Bytes, fill}
use pingu_os.Allocator.{Allocator, Buffer}
use pingu_os.Drivers.Disk.{Disk, IsDisk}
use pingu_os.Filesystem.{FsError, success}
use pingu_os.Filesystem.Fat.{Fat32}
use pingu_os.Filesystem.Fat.Clusters.{
  cluster_size, first_sector, clamp, write_cluster, read_tail, read_end, read_rest, read_cluster,
}
use pingu_os.Filesystem.Fat.Clusters.Whole.{
  run, Written, written, write_from-Written, read_full-run,
}

pub clamp_lem : (size top : ℕ) → size ≤ top → (if ltb top size then top else size) ≡ size
clamp_lem size top h = ground arith

module _ {D M : Type 0} (dev : Disk D) (mem : Allocator M) {count : ℕ} (k : IsDisk dev count) where
  -- A read that succeeds with given bytes, and changes nothing but the heap.
  pub data ReadOk (fs : Fat32 D M) (bytes : Bytes) : FsError × Bytes × Fat32 D M → Type 0 where
    read_ok :
        {got : Bytes} {heap : M}
        → got ≡ bytes
        → ReadOk fs bytes (success, got, record fs { heap = heap })

  pub read_tail_lem :
      (fs : Fat32 D M) (b : Buffer) (done : Bytes) (s r : ℕ)
      → 512 * s + r ≤ 512 * count
      → r < 512
      → ReadOk fs (done ++ take r (k.sector fs.disk s)) (read_tail dev mem fs (some b) done s r)
  unfolding read_tail fill
  read_tail_lem fs b done s zero on small = read_ok (sym (append-nil done))
  read_tail_lem fs b done s (suc r) on small =
      let sector = k.sector fs.disk s in
      let got : (dev.read_28 fs.disk s (suc r)).1 ≡ take (suc r) sector =
        ap (λ o. o.1) (k.reads fs.disk s (suc r) (omega (arith, on)) (omega (arith, small))) in
      let full : length (take (suc r) sector) ≡ suc r =
        length-take (suc r) sector ∙ omega (arith, k.full_sector fs.disk s, small) in
      let some_bytes : (suc r == 0) ≡ false = ground arith in
      rw some_bytes (
        read_ok (
          ap (λ l. done ++ take (suc r) (fill b.bytes l)) got
          ∙ ap (λ l. done ++ l)
              (take-append (suc r) (take (suc r) sector)
                (drop (length (take (suc r) sector)) b.bytes) full)))

  pub ReadOk-heap :
      (fs : Fat32 D M) (h : M) (bytes : Bytes) {r : FsError × Bytes × Fat32 D M}
      → ReadOk (record fs { heap = h }) bytes r
      → ReadOk fs bytes r
  ReadOk-heap fs h bytes (read_ok same) = read_ok same

  pub read_end_lem :
      (fs : Fat32 D M) (b : Buffer) (done : Bytes) (s r : ℕ)
      → 512 * s + r ≤ 512 * count
      → r < 512
      → (mem.malloc fs.heap fs.bpb.bytes_per_sector).0 ≡ some b
      → ReadOk fs (done ++ take r (k.sector fs.disk s)) (read_end dev mem fs none done s r)
  unfolding read_end
  read_end_lem fs b done s zero on small memory = read_ok (sym (append-nil done))
  read_end_lem fs b done s (suc r) on small memory =
      let fs' = record fs { heap = (mem.malloc fs.heap fs.bpb.bytes_per_sector).1 } in
      let some_bytes : (suc r == 0) ≡ false = ground arith in
      rw some_bytes (
        ReadOk-heap fs fs'.heap (done ++ take (suc r) (k.sector fs.disk s)) (
          subst
            (λ o.
              ReadOk fs' (done ++ take (suc r) (k.sector fs.disk s))
                (read_tail dev mem fs' o done s (suc r)))
            (sym memory) (read_tail_lem fs' b done s (suc r) on small)))

  -- A cluster on the disk: 512 bytes to a sector, and a sector behind the bytes that are moved.
  pub record HasRoom (fs : Fat32 D M) (c q : ℕ) : Type 0 where
    pub bytes : fs.bpb.bytes_per_sector ≡ 512
    pub on : first_sector fs c + q < count
    pub addressable : count ≤ 2 ^ 28

  -- The first sector of a transfer that begins with the cluster, and its offset there.
  start_lem :
      (fs : Fat32 D M) (c : ℕ)
      → fs.bpb.bytes_per_sector ≡ 512
      → first_sector fs c ≤ count
      → count ≤ 2 ^ 28
      → (add32 (first_sector fs c) (0 / fs.bpb.bytes_per_sector) ≡ first_sector fs c)
        × (0 % fs.bpb.bytes_per_sector ≡ 0)
  start_lem fs c bytes on limit = (
    ap (λ n. add32 (first_sector fs c) (0 / n)) bytes ∙ omega (arith, on, limit),
    ap (λ n. 0 % n) bytes,
  )

  pub write_cluster-Written :
      (fs : Fat32 D M) (c q r : ℕ) (buffer : Bytes)
      → fs.bpb.bytes_per_sector ≡ 512
      → 512 * (first_sector fs c + q) + r ≤ 512 * count
      → count ≤ 2 ^ 28
      → r < 512
      → 512 * q + r ≤ cluster_size fs
      → 512 * q + r ≤ length buffer
      → Written dev mem k fs
          (first_sector fs c)
          q
          r
          buffer
          (write_cluster dev mem fs c buffer 0 (512 * q + r))
  unfolding write_cluster
  write_cluster-Written fs c q r buffer bytes on limit small fits there =
      let start = start_lem fs c bytes (omega (arith, on)) limit in
      let size : clamp fs (512 * q + r) ≡ 512 * q + r =
        clamp_lem (512 * q + r) (cluster_size fs) fits in
      rw (start.0, start.1, size)
        (write_from-Written dev mem k q r (512 * q + r + 1) fs (first_sector fs c) buffer bytes
          small (omega arith) there on limit)

  -- A read that gives the bytes, and changes nothing but the heap.
  pub data Reads (fs : Fat32 D M) (bytes : Bytes)
      : Option (FsError × Bytes × Fat32 D M) → Type 0 where
    reads : {r : FsError × Bytes × Fat32 D M} → ReadOk fs bytes r → Reads fs bytes (some r)

  pub read_cluster-Reads :
      (fs : Fat32 D M) (c q r : ℕ) (b : Buffer)
      → HasRoom fs c q
      → r < 512
      → 512 * q + r ≤ cluster_size fs
      → (mem.malloc fs.heap fs.bpb.bytes_per_sector).0 ≡ some b
      → Reads fs
          (run dev mem k fs.disk (first_sector fs c) q
            ++ take r (k.sector fs.disk (first_sector fs c + q)))
          (read_cluster dev mem fs c 0 (512 * q + r))
  unfolding read_cluster read_rest
  read_cluster-Reads fs c q r b room small fits memory =
      let start = start_lem fs c room.bytes (omega (arith, room.on)) room.addressable in
      let at = first_sector fs c in
      let size : clamp fs (512 * q + r) ≡ 512 * q + r =
        clamp_lem (512 * q + r) (cluster_size fs) fits in
      rw
        (
          start.0,
          start.1,
          size,
          read_full-run dev mem k q r (512 * q + r + 1) fs at room.bytes small (omega arith)
              (omega (arith, room.on)) room.addressable,
        )
        (reads (
          read_end_lem fs b (run dev mem k fs.disk at q) (at + q) r (omega (arith, room.on, small))
            small memory))

  -- A write that succeeds, and behind which a read from the cluster's start gives back the bytes.
  pub data ReadsBack (fs : Fat32 D M) (c size : ℕ) (buffer : Bytes)
      : Option (FsError × Fat32 D M) → Type 0 where
    back :
        {g : Fat32 D M}
        → Reads g (take size buffer) (read_cluster dev mem g c 0 size)
        → ReadsBack fs c size buffer (some (success, g))

  pub last_part :
      (r : ℕ) (sector part : Bytes)
      → r ≤ length part
      → (0 < r → sector ≡ take r part ++ replicate (512 - r) 0)
      → take r sector ≡ take r part
  last_part zero sector part there tail = refl
  last_part (suc r) sector part there tail =
      ap (λ l. take (suc r) l) (tail (omega arith))
      ∙ take-append (suc r) (take (suc r) part) (replicate (512 - suc r) 0)
          (length-take (suc r) part ∙ omega (arith, there))

  back_of :
      (fs : Fat32 D M) (c q r : ℕ) (buffer : Bytes) (b : Buffer) {o : Option (FsError × Fat32 D M)}
      → HasRoom fs c q
      → r < 512
      → 512 * q + r ≤ cluster_size fs
      → 512 * q + r ≤ length buffer
      → (mem.malloc fs.heap fs.bpb.bytes_per_sector).0 ≡ some b
      → Written dev mem k fs (first_sector fs c) q r buffer o
      → ReadsBack fs c (512 * q + r) buffer o
  back_of fs c q r buffer b room small fits there memory (written {d} front tail rest) =
      let g = record fs { disk = d } in
      let at = first_sector fs c in
      let same =
        ap₂ (λ x y. x ++ y) front
          (last_part r (k.sector d (at + q)) (drop (512 * q) buffer)
            (omega (arith, there, length-drop (512 * q) buffer)) tail)
        ∙ sym (take_add (512 * q) r buffer) in
      back (
        subst (λ l. Reads g l (read_cluster dev mem g c 0 (512 * q + r))) same
          (read_cluster-Reads g c q r b
            (record { bytes = room.bytes; on = room.on; addressable = room.addressable }) small fits
            memory))

  -- `write_cluster` from the start of a cluster, of `512 * q + r` bytes that are no more than a
  -- cluster holds, succeeds; and `read_cluster` then succeeds and gives back those bytes, where
  -- there is memory for its buffer.
  pub read_cluster-write_cluster :
      (fs : Fat32 D M) (c q r : ℕ) (buffer : Bytes) (b : Buffer)
      → HasRoom fs c q
      → r < 512
      → 512 * q + r ≤ cluster_size fs
      → 512 * q + r ≤ length buffer
      → (mem.malloc fs.heap fs.bpb.bytes_per_sector).0 ≡ some b
      → ReadsBack fs c (512 * q + r) buffer (write_cluster dev mem fs c buffer 0 (512 * q + r))
  read_cluster-write_cluster fs c q r buffer b room small fits there memory =
      back_of fs c q r buffer b room small fits there memory (
        write_cluster-Written fs c q r buffer room.bytes (omega (arith, room.on, small))
          room.addressable small fits there)
