-- ===== src/Filesystem/Fat/Clusters/Partial.antt =====
-- `write_cluster` inside one sector.
use pingu_os.Common.{
  ℕ, zero, suc, ◌+◌, ◌*◌, ◌-◌, ◌/◌, ◌%◌, ◌≤◌, ◌<◌, ◌≡◌, ◌≢◌, ◌∙◌, sym, subst, ap, arith, false,
  Option, some, ◌++◌, ◌==◌, if◌then◌else◌, length, take, drop, replicate, add32, length-take,
  length-append, take-append,
}
use pingu_os.Common.Bytes.{Bytes, fill}
use pingu_os.Allocator.{Allocator, Buffer}
use pingu_os.Drivers.Disk.{Disk, IsDisk}
use pingu_os.Filesystem.{FsError, success, is_success}
use pingu_os.Filesystem.Fat.{Fat32}
use pingu_os.Filesystem.Fat.Clusters.{
  cluster_size, first_sector, clamp, lesser, write_partial, write_sector, write_from, write_cluster,
}
use pingu_os.Filesystem.Fat.Clusters.RoundTrip.{HasRoom, clamp_lem}

module _ {D M : Type 0} (dev : Disk D) (mem : Allocator M) {count : ℕ} (k : IsDisk dev count) where
  -- A write that succeeds and leaves given bytes at the start of a sector, zeros behind them, and
  -- every other sector as it was.
  pub data PartWritten (fs : Fat32 D M) (s : ℕ) (image : Bytes) : FsError × Fat32 D M → Type 0 where
    part :
        {d : D} {h : M}
        → k.sector d s ≡ image ++ replicate (512 - length image) 0
        → ((t : ℕ) → s ≢ t → k.sector d t ≡ k.sector fs.disk t)
        → PartWritten fs s image (success, record fs { disk = d; heap = h })

  pub data Returns (fs : Fat32 D M) (s : ℕ) (image : Bytes)
      : Option (FsError × Fat32 D M) → Type 0 where
    returns : {r : FsError × Fat32 D M} → PartWritten fs s image r → Returns fs s image (some r)

  write_partial_lem :
      (fs : Fat32 D M) (b : Buffer) (s o : ℕ) (bytes : Bytes)
      → s < count
      → o + length bytes ≤ 512
      → PartWritten fs s
          (take o (k.sector fs.disk s) ++ bytes)
          (write_partial dev mem fs (some b) s o bytes)
  unfolding write_partial fill
  write_partial_lem fs b s o bytes on fits =
      let sector = k.sector fs.disk s in
      let got : (dev.read_28 fs.disk s o).1 ≡ take o sector =
        ap (λ r. r.1) (k.reads fs.disk s o on (omega (arith, fits))) in
      let full : length (take o sector) ≡ o =
        length-take o sector ∙ omega (arith, k.full_sector fs.disk s, fits) in
      let head : take o (fill b.bytes (dev.read_28 fs.disk s o).1) ≡ take o sector =
        ap (λ l. take o (fill b.bytes l)) got
        ∙ take-append o (take o sector) (drop (length (take o sector)) b.bytes) full in
      let size : length (take o sector ++ bytes) ≡ o + length bytes =
        length-append (take o sector) bytes ∙ ap (λ n. n + length bytes) full in
      let room : length (take o sector ++ bytes) ≤ 512 = omega (arith, size, fits) in
      rw head (
        part (k.writes fs.disk s (take o sector ++ bytes) on room)
          (λ t other. k.keeps fs.disk s t (take o sector ++ bytes) on room other))

  PartWritten-heap :
      (fs : Fat32 D M) (h : M) (s : ℕ) (image : Bytes) {r : FsError × Fat32 D M}
      → PartWritten (record fs { heap = h }) s image r
      → PartWritten fs s image r
  PartWritten-heap fs h s image (part here rest) = part here rest

  write_sector_lem :
      (fs : Fat32 D M) (b : Buffer) (s o : ℕ) (bytes : Bytes)
      → s < count
      → o + length bytes ≤ 512
      → (mem.malloc fs.heap fs.bpb.bytes_per_sector).0 ≡ some b
      → PartWritten fs s (take o (k.sector fs.disk s) ++ bytes) (write_sector dev mem fs s o bytes)
  unfolding write_sector
  write_sector_lem fs b s zero bytes on fits memory =
      part (k.writes fs.disk s bytes on (omega (arith, fits)))
        (λ t other. k.keeps fs.disk s t bytes on (omega (arith, fits)) other)
  write_sector_lem fs b s (suc o) bytes on fits memory =
      let fs' = record fs { heap = (mem.malloc fs.heap fs.bpb.bytes_per_sector).1 } in
      let not_start : (suc o == 0) ≡ false = ground arith in
      let image = take (suc o) (k.sector fs.disk s) ++ bytes in
      rw not_start (
        PartWritten-heap fs fs'.heap s image (
          subst (λ x. PartWritten fs' s image (write_partial dev mem fs' x s (suc o) bytes))
            (sym memory) (write_partial_lem fs' b s (suc o) bytes on fits)))

  finish :
      (fuel : ℕ) (fs : Fat32 D M) (s left : ℕ) (image rest : Bytes) {r : FsError × Fat32 D M}
      → left ≡ 0
      → PartWritten fs s image r
      → Returns fs s image (
          if is_success r.0
          then write_from dev mem (suc fuel) r.1 (add32 s 1) 0 rest left
          else some (r.0, r.1))
  unfolding write_from
  finish fuel fs s left image rest none_left (part here others) =
      rw none_left (returns (part here others))

  write_one :
      (fuel : ℕ) (fs : Fat32 D M) (s o size : ℕ) (buffer : Bytes) (b : Buffer)
      → fs.bpb.bytes_per_sector ≡ 512
      → 0 < size
      → o + size ≤ 512
      → size ≤ length buffer
      → s < count
      → (mem.malloc fs.heap fs.bpb.bytes_per_sector).0 ≡ some b
      → Returns fs s
          (take o (k.sector fs.disk s) ++ take size buffer)
          (write_from dev mem (suc (suc fuel)) fs s o buffer size)
  unfolding write_from
  write_one fuel fs s o size buffer b bytes some_bytes fits there on memory =
      let least : lesser (512 - o) size ≡ size = ground (arith, fits) in
      let num : lesser (fs.bpb.bytes_per_sector - o) size ≡ size =
        ap (λ n. lesser (n - o) size) bytes ∙ least in
      let not_done : (size == 0) ≡ false = ground arith in
      let none_left : size - size ≡ 0 = omega arith in
      let full : length (take size buffer) ≡ size =
        length-take size buffer ∙ omega (arith, there) in
      rw (num, not_done)
        (finish fuel fs s (size - size) (take o (k.sector fs.disk s) ++ take size buffer)
          (drop size buffer) none_left
          (write_sector_lem fs b s o (take size buffer) on (omega (arith, full, fits)) memory))

  -- A write of `size` bytes, at least one, that begins at byte `o` of sector `i` of the cluster and
  -- ends in that sector succeeds, given memory for its buffer. The sector keeps its first `o`
  -- bytes, then holds the bytes written, and zeros to its end whatever stood there. No other
  -- sector changes.
  pub write_cluster-Returns :
      (fs : Fat32 D M) (c i o size : ℕ) (buffer : Bytes) (b : Buffer)
      → HasRoom dev mem k fs c i
      → 0 < size
      → o + size ≤ 512
      → size ≤ cluster_size fs
      → size ≤ length buffer
      → (mem.malloc fs.heap fs.bpb.bytes_per_sector).0 ≡ some b
      → Returns fs
          (first_sector fs c + i)
          (take o (k.sector fs.disk (first_sector fs c + i)) ++ take size buffer)
          (write_cluster dev mem fs c buffer (512 * i + o) size)
  unfolding write_cluster
  write_cluster-Returns fs c i o size buffer b room some_bytes fits within there memory =
      let at = first_sector fs c in
      let start : add32 at ((512 * i + o) / fs.bpb.bytes_per_sector) ≡ at + i =
        ap (λ n. add32 at ((512 * i + o) / n)) room.bytes
        ∙ omega (arith, fits, some_bytes, room.on, room.addressable) in
      let offset : (512 * i + o) % fs.bpb.bytes_per_sector ≡ o =
        ap (λ n. (512 * i + o) % n) room.bytes ∙ omega (arith, fits, some_bytes) in
      let clamped : clamp fs size ≡ size = clamp_lem size (cluster_size fs) within in
      let fuel : size + 1 ≡ suc (suc (size - 1)) = omega arith in
      rw (start, offset, clamped, fuel)
        (write_one (size - 1) fs (at + i) o size buffer b room.bytes some_bytes fits there room.on
          memory)
