-- ===== src/Filesystem/Fat/Clusters/Runs.antt =====
-- The bytes of sectors that follow one another, and parts of them.
use pingu_os.Common.{
  ℕ, zero, suc, ◌+◌, ◌*◌, ◌-◌, ◌≤◌, ◌<◌, ◌≡◌, refl, ◌∙◌, sym, ap, ap₂, arith, Bool, ltb, true,
  false, ◌++◌, length, take, drop, append-nil, append_assoc, length-append, length-drop, drop_add,
  take-append, take-append_left, take-append_both, drop-append_left, drop-append_right,
}
use pingu_os.Common.Bytes.{Bytes, take_all}
use pingu_os.Allocator.{Allocator}
use pingu_os.Drivers.Disk.{Disk, IsDisk}
use pingu_os.Filesystem.Fat.Clusters.{lesser}
use pingu_os.Filesystem.Fat.Clusters.Whole.{run}

pub take-lesser :
    (n : ℕ) (part : Bytes) {room : ℕ} (less : Bool)
    → ltb n room ≡ less
    → length part ≡ room
    → take n part ≡ take (lesser room n) part
take-lesser n part true less full = rw less refl
take-lesser n part {room} false less full =
    rw less (
      take_all n part (ground (arith, less, full)) ∙ sym (take_all room part (omega (arith, full))))

module _ {D M : Type 0} (dev : Disk D) (mem : Allocator M) {count : ℕ} (k : IsDisk dev count) where
  pub length-run : (d : D) (s q : ℕ) → length (run dev mem k d s q) ≡ 512 * q
  length-run d s zero = refl
  length-run d s (suc q) =
      length-append (k.sector d s) (run dev mem k d (s + 1) q)
      ∙ omega (arith, k.full_sector d s, length-run d (s + 1) q)

  run_add :
      (d : D) (s a b : ℕ)
      → run dev mem k d s (a + b) ≡ run dev mem k d s a ++ run dev mem k d (s + a) b
  run_add d s zero b =
      let left : 0 + b ≡ b = omega arith in
      let right : s + 0 ≡ s = omega arith in rw (left, right) refl
  run_add d s (suc a) b =
      let left : suc a + b ≡ suc (a + b) = omega arith in
      let right : s + suc a ≡ s + 1 + a = omega arith in
      rw (left, right)
        (ap (λ l. k.sector d s ++ l) (run_add d (s + 1) a b)
          ∙ sym (
              append_assoc (k.sector d s) (run dev mem k d (s + 1) a)
                (run dev mem k d (s + 1 + a) b)))

  -- The first bytes of a run of sectors, which end in its sector `q`.
  pub take-run :
      (d : D) (s q r m : ℕ)
      → r < 512
      → 512 * q + r ≤ 512 * m
      → take (512 * q + r) (run dev mem k d s m)
        ≡ run dev mem k d s q ++ take r (k.sector d (s + q))
  take-run d s q zero m small within =
      let split : m ≡ q + (m - q) = omega (arith, within) in
      let size : 512 * q + 0 ≡ 512 * q = omega arith in
      ap₂ (λ n x. take n (run dev mem k d s x)) size split
      ∙ ap (take (512 * q)) (run_add d s q (m - q))
      ∙ take-append (512 * q) (run dev mem k d s q) (run dev mem k d (s + q) (m - q))
          (length-run d s q)
      ∙ sym (append-nil (run dev mem k d s q))
  take-run d s q (suc r) m small within =
      let front = run dev mem k d s q in
      let behind = run dev mem k d (s + q + 1) (m - q - 1) in
      let split : m ≡ q + suc (m - q - 1) = omega (arith, within) in
      let left : 512 * q + suc r - 512 * q ≡ suc r = omega arith in
      let cut =
        take-append_both (512 * q + suc r) front (k.sector d (s + q) ++ behind)
        ∙ ap₂ (λ x n. x ++ take n (k.sector d (s + q) ++ behind))
            (take_all (512 * q + suc r) front (omega (arith, length-run d s q)))
            (ap (λ n. 512 * q + suc r - n) (length-run d s q) ∙ left) in
      ap (λ x. take (512 * q + suc r) (run dev mem k d s x)) split
      ∙ ap (take (512 * q + suc r)) (run_add d s q (suc (m - q - 1)))
      ∙ cut
      ∙ ap (λ l. front ++ l)
          (take-append_left (suc r) (k.sector d (s + q)) behind
            (omega (arith, k.full_sector d (s + q), small)))

  -- What is left of a run of sectors behind a place in its sector `i`.
  pub drop-run :
      (d : D) (s i m : ℕ)
      → i ≤ m
      → drop (512 * i) (run dev mem k d s m) ≡ run dev mem k d (s + i) (m - i)
  drop-run d s i m within =
      let split : m ≡ i + (m - i) = omega (arith, within) in
      let none_left : 512 * i - 512 * i ≡ 0 = omega arith in
      ap (λ x. drop (512 * i) (run dev mem k d s x)) split
      ∙ ap (drop (512 * i)) (run_add d s i (m - i))
      ∙ drop-append_right (512 * i) (run dev mem k d s i) (run dev mem k d (s + i) (m - i))
          (omega (arith, length-run d s i))
      ∙ ap (λ n. drop n (run dev mem k d (s + i) (m - i)))
          (ap (λ n. 512 * i - n) (length-run d s i) ∙ none_left)

  pub slice_lem :
      (d : D) (s i x n m : ℕ)
      → x < 512
      → i < m
      → take n (drop (512 * i + x) (run dev mem k d s m))
        ≡ take (lesser (512 - x) n) (drop x (k.sector d (s + i)))
          ++ take (n - lesser (512 - x) n) (run dev mem k d (s + i + 1) (m - i - 1))
  slice_lem d s i x n m small within =
      let part = drop x (k.sector d (s + i)) in
      let behind = run dev mem k d (s + i + 1) (m - i - 1) in
      let split : m - i ≡ suc (m - i - 1) = omega (arith, within) in
      let full : length part ≡ 512 - x =
        length-drop x (k.sector d (s + i)) ∙ ap (λ l. l - x) (k.full_sector d (s + i)) in
      let left : n - (512 - x) ≡ n - lesser (512 - x) n = ground arith in
      ap (take n) (
        drop_add (512 * i) x (run dev mem k d s m)
        ∙ ap (drop x) (drop-run d s i m (omega (arith, within)))
        ∙ ap (λ z. drop x (run dev mem k d (s + i) z)) split
        ∙ drop-append_left x (k.sector d (s + i)) behind
            (omega (arith, k.full_sector d (s + i), small)))
      ∙ take-append_both n part behind
      ∙ ap₂ (λ y z. y ++ take z behind) (take-lesser n part (ltb n (512 - x)) refl full)
          (ap (λ l. n - l) full ∙ left)
