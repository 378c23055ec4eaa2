-- ===== src/Filesystem/Fat/Clusters/Whole.antt =====
-- Transfers from the start of a cluster: `read_cluster` reads what `write_cluster` has written.
use pingu_os.Common.{
  ℕ, zero, suc, ◌+◌, ◌*◌, ◌-◌, ◌^◌, ◌≤◌, ◌<◌, ◌≡◌, ◌≢◌, ◌⊎◌, inl, inr, refl, ◌∙◌, sym, ap, ap₂,
  arith, true, false, Option, some, [], ◌++◌, ◌==◌, leb, length, take, drop, replicate, add32,
  append-nil, length-take, length-drop, take_add, drop_add,
}
use pingu_os.Common.Bytes.{Bytes, take_all}
use pingu_os.Allocator.{Allocator}
use pingu_os.Drivers.Disk.{Disk, IsDisk}
use pingu_os.Filesystem.{FsError, success}
use pingu_os.Filesystem.Fat.{Fat32}
use pingu_os.Filesystem.Fat.Clusters.{lesser, write_sector, write_from, read_full}

past :
    (t s q r : ℕ)
    → t < s ⊎ (512 * suc q + r ≤ 512 * (t - s))
    → t < s + 1 ⊎ (512 * q + r ≤ 512 * (t - (s + 1)))
past t s q r (inl h) = inl (omega (arith, h))
past t s q r (inr h) = inr (omega (arith, h))

other : (t s q r : ℕ) → t < s ⊎ (512 * suc q + r ≤ 512 * (t - s)) → s ≢ t
other t s q r (inl h) e = omega (arith, h, e)
other t s q r (inr h) e = omega (arith, h, e)

module _ {D M : Type 0} (dev : Disk D) (mem : Allocator M) {count : ℕ} (k : IsDisk dev count) where
  -- The bytes of `q` sectors from `s` on.
  abbrev pub run : D → ℕ → ℕ → Bytes
  run d s zero = []
  run d s (suc q) = k.sector d s ++ run d (s + 1) q

  -- What a write of `512 * q + r` bytes from the start of sector `s` on leaves: the bytes, zeros to
  -- the end of the last sector, and every other sector as it was.
  pub data Written (fs : Fat32 D M) (s q r : ℕ) (buffer : Bytes)
      : Option (FsError × Fat32 D M) → Type 0 where
    written :
        {d : D}
        → run d s q ≡ take (512 * q) buffer
        → (0 < r → k.sector d (s + q) ≡ take r (drop (512 * q) buffer) ++ replicate (512 - r) 0)
        → ((t : ℕ) → t < s ⊎ (512 * q + r ≤ 512 * (t - s)) → k.sector d t ≡ k.sector fs.disk t)
        → Written fs s q r buffer (some (success, record fs { disk = d }))

  write_round :
      (fuel : ℕ) (fs : Fat32 D M) (s : ℕ) (buffer : Bytes) (size num : ℕ)
      → fs.bpb.bytes_per_sector ≡ 512
      → lesser 512 size ≡ num
      → 0 < size
      → write_from dev mem (suc fuel) fs s 0 buffer size
        ≡ write_from dev mem fuel
            (record fs { disk = (dev.write_28 fs.disk s (take num buffer)).1 })
            (add32 s 1)
            0
            (drop num buffer)
            (size - num)
  unfolding write_from write_sector
  write_round fuel fs s buffer size num bytes least some_bytes =
      let not_done : (size == 0) ≡ false = ground arith in
      let room : lesser (fs.bpb.bytes_per_sector - 0) size ≡ num =
        ap (λ b. lesser (b - 0) size) bytes ∙ least in
      rw (room, not_done) refl

  write_done :
      (fuel : ℕ) (fs : Fat32 D M) (s : ℕ) (buffer : Bytes)
      → 0 < fuel
      → write_from dev mem fuel fs s 0 buffer 0 ≡ some (success, fs)
  unfolding write_from
  write_done zero fs s buffer h = absurd (omega (arith, h))
  write_done (suc fuel) fs s buffer h = refl

  -- A part of a sector, behind which nothing is left to write.
  write_last :
      (r fuel : ℕ) (fs : Fat32 D M) (s : ℕ) (buffer : Bytes)
      → fs.bpb.bytes_per_sector ≡ 512
      → r < 512
      → r < fuel
      → r ≤ length buffer
      → 512 * s + r ≤ 512 * count
      → Written fs s 0 r buffer (write_from dev mem fuel fs s 0 buffer r)
  write_last zero fuel fs s buffer bytes small enough there on =
      rw (write_done fuel fs s buffer enough)
        (written refl (λ h. absurd (omega arith)) (λ t h. refl))
  write_last (suc r) zero fs s buffer bytes small enough there on = absurd (omega (arith, enough))
  write_last (suc r) (suc fuel) fs s buffer bytes small enough there on =
      let least : lesser 512 (suc r) ≡ suc r = ground (arith, small) in
      let full : length (take (suc r) buffer) ≡ suc r =
        length-take (suc r) buffer ∙ omega (arith, there) in
      let none_left : suc r - suc r ≡ 0 = omega arith in
      let here : s < count = omega (arith, on) in
      let w = k.writes fs.disk s (take (suc r) buffer) here (omega (arith, full, small)) in
      let pad = ap (λ n. take (suc r) buffer ++ replicate (512 - n) 0) full in
      let at : s + 0 ≡ s = omega arith in
      rw
        (
          write_round fuel fs s buffer (suc r) (suc r) bytes least (omega arith),
          none_left,
          write_done fuel (record fs { disk = (dev.write_28 fs.disk s (take (suc r) buffer)).1 })
              (add32 s 1) (drop (suc r) buffer) (omega (arith, enough)),
        )
        (written refl
          (λ h. ap (λ x. k.sector (dev.write_28 fs.disk s (take (suc r) buffer)).1 x) at ∙ w ∙ pad)
          (λ t h.
            k.keeps fs.disk s t (take (suc r) buffer) here (omega (arith, full, small))
              (ground (arith, h))))

  prepend_sector :
      (fs : Fat32 D M) (s q r : ℕ) (buffer : Bytes) {o : Option (FsError × Fat32 D M)}
      → s < count
      → 512 * suc q + r ≤ length buffer
      → Written
          (record fs { disk = (dev.write_28 fs.disk s (take 512 buffer)).1 })
          (s + 1)
          q
          r
          (drop 512 buffer)
          o
      → Written fs s (suc q) r buffer o
  prepend_sector fs s q r buffer on there (written {d} front tail rest) =
      let full : length (take 512 buffer) ≡ 512 = length-take 512 buffer ∙ omega (arith, there) in
      let w = k.writes fs.disk s (take 512 buffer) on (omega (arith, full)) in
      let first =
        rest s (inl (omega arith))
        ∙ w
        ∙ ap (λ n. take 512 buffer ++ replicate (512 - n) 0) full
        ∙ append-nil (take 512 buffer) in
      let more : 512 * suc q ≡ 512 + 512 * q = omega arith in
      let shift : s + suc q ≡ s + 1 + q = omega arith in
      written
        (ap₂ (λ x y. x ++ y) first front
          ∙ sym (take_add 512 (512 * q) buffer)
          ∙ ap (λ n. take n buffer) (sym more))
        (λ h.
          ap (λ n. k.sector d n) shift
          ∙ tail h
          ∙ ap (λ l. take r l ++ replicate (512 - r) 0)
              (sym (drop_add 512 (512 * q) buffer) ∙ ap (λ n. drop n buffer) (sym more)))
        (λ t h.
          rest t (past t s q r h)
          ∙ k.keeps fs.disk s t (take 512 buffer) on (omega (arith, full)) (other t s q r h))

  pub write_from-Written :
      (q r fuel : ℕ) (fs : Fat32 D M) (s : ℕ) (buffer : Bytes)
      → fs.bpb.bytes_per_sector ≡ 512
      → r < 512
      → 512 * q + r < fuel
      → 512 * q + r ≤ length buffer
      → 512 * (s + q) + r ≤ 512 * count
      → count ≤ 2 ^ 28
      → Written fs s q r buffer (write_from dev mem fuel fs s 0 buffer (512 * q + r))
  write_from-Written zero r fuel fs s buffer bytes small enough there on limit =
      let size : 512 * 0 + r ≡ r = omega arith in
      rw size (
        write_last r fuel fs s buffer bytes small (omega (arith, enough)) (omega (arith, there))
          (omega (arith, on)))
  write_from-Written (suc q) r zero fs s buffer bytes small enough there on limit =
      absurd (omega (arith, enough))
  write_from-Written (suc q) r (suc fuel) fs s buffer bytes small enough there on limit =
      let least : lesser 512 (512 * suc q + r) ≡ 512 = ground arith in
      let left : 512 * suc q + r - 512 ≡ 512 * q + r = omega arith in
      let next : add32 s 1 ≡ s + 1 = omega (arith, on, limit) in
      rw (write_round fuel fs s buffer (512 * suc q + r) 512 bytes least (omega arith), left, next)
        (prepend_sector fs s q r buffer (omega (arith, on)) there (
          write_from-Written q r fuel
            (record fs { disk = (dev.write_28 fs.disk s (take 512 buffer)).1 }) (s + 1)
            (drop 512 buffer) bytes small (omega (arith, enough))
            (omega (arith, there, length-drop 512 buffer)) (omega (arith, on)) limit))

  pub read_full-run :
      (q r fuel : ℕ) (fs : Fat32 D M) (s : ℕ)
      → fs.bpb.bytes_per_sector ≡ 512
      → r < 512
      → q < fuel
      → s + q ≤ count
      → count ≤ 2 ^ 28
      → read_full dev fuel fs s (512 * q + r) ≡ some (run fs.disk s q, s + q, r)
  unfolding read_full
  read_full-run q r zero fs s bytes small enough on limit = absurd (omega (arith, enough))
  read_full-run zero r (suc fuel) fs s bytes small enough on limit =
      let size : 512 * 0 + r ≡ r = omega arith in
      let at : s + 0 ≡ s = omega arith in
      let over : leb fs.bpb.bytes_per_sector r ≡ false = ap (λ b. leb b r) bytes ∙ ground arith in
      rw (size, at, over) refl
  read_full-run (suc q) r (suc fuel) fs s bytes small enough on limit =
      let more : leb fs.bpb.bytes_per_sector (512 * suc q + r) ≡ true =
        ap (λ b. leb b (512 * suc q + r)) bytes ∙ ground arith in
      let left : 512 * suc q + r - fs.bpb.bytes_per_sector ≡ 512 * q + r = omega (arith, bytes) in
      let next : add32 s 1 ≡ s + 1 = omega (arith, on, limit) in
      let at : s + 1 + q ≡ s + suc q = omega arith in
      let whole : (dev.read_28 fs.disk s fs.bpb.bytes_per_sector).1 ≡ k.sector fs.disk s =
        ap (λ n. (dev.read_28 fs.disk s n).1) bytes
        ∙ ap (λ o. o.1) (k.reads fs.disk s 512 (omega (arith, on)) (omega arith))
        ∙ take_all 512 (k.sector fs.disk s) (omega (arith, k.full_sector fs.disk s)) in
      rw
        (
          more,
          left,
          next,
          read_full-run q r fuel fs (s + 1) bytes small (omega (arith, enough)) (omega (arith, on))
              limit,
          whole,
          at,
        )
        refl
