-- ===== src/MemoryManagement/Undo.antt =====
-- `free` undoes `malloc`.
use pingu_os.Common.{
  ℕ, zero, suc, ◌+◌, ◌-◌, ◌≤◌, ◌<◌, ◌≡◌, ◌≢◌, refl, ◌∙◌, ap, subst, Bool, true, false, [], ◌∷◌,
  arith, ◌==◌, Bool-cases, inl, inr, leb, leb→le, ltb, length, Option, some, ==-refl,
}
use pingu_os.MemoryManagement.{LinearAllocator, header_size, malloc, free}
use pingu_os.MemoryManagement.Blocks.{
  Blocks, behind, cut, fits, first_fit, alloc, join, release_after, release, Holds,
}
use pingu_os.MemoryManagement.Malloc.{Represents, payload, Mallocs, gives, malloc-first_fit}
use pingu_os.MemoryManagement.Free.{free-release}
use pingu_os.MemoryManagement.Coalesced.{Gap, Coalesced, alloc-used, alloc-small, alloc-fits}

pub le-first_fit : (size s : ℕ) (bs : Blocks) → first_fit size s bs ≢ 0 → s ≤ first_fit size s bs
unfolding first_fit
le-first_fit size s [] h = absurd (h refl)
le-first_fit size s (b ∷ bs) h = ground (arith, le-first_fit size (behind s b.0) bs)

pub first_fit-used :
    (size s n : ℕ) (bs : Blocks)
    → first_fit size s ((n, true) ∷ bs) ≡ first_fit size (behind s n) bs
unfolding first_fit fits
first_fit-used size s n bs = ground arith

pub first_fit-small :
    (size s n : ℕ) (bs : Blocks)
    → ltb size n ≡ false
    → first_fit size s ((n, false) ∷ bs) ≡ first_fit size (behind s n) bs
unfolding first_fit fits
first_fit-small size s n bs h = rw h

pub first_fit-fits :
    (size s n : ℕ) (bs : Blocks) → ltb size n ≡ true → first_fit size s ((n, false) ∷ bs) ≡ s
unfolding first_fit fits
first_fit-fits size s n bs h = rw h

join-Gap : (n : ℕ) (bs : Blocks) → Gap false bs → join n bs ≡ (n, false) ∷ bs
unfolding join
join-Gap n [] g = refl
join-Gap n ((k, true) ∷ bs) g = refl
join-Gap n ((k, false) ∷ bs) g = absurd g

-- Joining what `cut` left.
cut-undo :
    (size n : ℕ) (bs : Blocks) (b : ℕ × Bool) (s : ℕ)
    → Gap false bs
    → (release_after (b.0, true) s s (cut size n bs) ≡ (b.0, true) ∷ (n, false) ∷ bs)
      × (release s s (cut size n bs) ≡ (n, false) ∷ bs)
unfolding release_after release cut join
cut-undo size n bs b s g = elim (Bool-cases (leb (size + header_size + 1) n)) [
  | inl big ↦
      let whole : size + (n - size - header_size) + header_size ≡ n =
        omega (arith, leb→le _ _ big) in
      rw (big, ==-refl s, whole) (refl, refl)
  | inr small ↦ rw (small, ==-refl s, join-Gap n bs g) (refl, refl)
]

Holds-cut : (size n s : ℕ) (bs : Blocks) → Holds s (cut size n bs) s
unfolding cut
Holds-cut size n s bs = elim (Bool-cases (leb (size + header_size + 1) n)) [
  | inl big ↦ rw (big, ==-refl s) refl
  | inr small ↦ rw (small, ==-refl s) refl
]

-- The chunk that `malloc` takes is allocated afterwards.
pub Holds-alloc :
    (size s : ℕ) (bs : Blocks)
    → 0 < s
    → first_fit size s bs ≢ 0
    → Holds s (alloc size bs) (first_fit size s bs)
unfolding first_fit
Holds-alloc size s [] pos h = absurd (h refl)
Holds-alloc size s ((n, true) ∷ bs) pos h =
    let same = first_fit-used size s n bs in
    let ne : first_fit size (behind s n) bs ≢ 0 = λ q. h (same ∙ q) in
    let later : (s == first_fit size (behind s n) bs) ≡ false =
      ground (arith, le-first_fit size (behind s n) bs ne) in
    rw (alloc-used size n bs, same, later) (Holds-alloc size (behind s n) bs (omega arith) ne)
Holds-alloc size s ((n, false) ∷ bs) pos h = elim (Bool-cases (ltb size n)) [
  | inl hit ↦ rw (alloc-fits size n bs hit, first_fit-fits size s n bs hit) (Holds-cut size n s bs)
  | inr miss ↦
      let same = first_fit-small size s n bs miss in
      let ne : first_fit size (behind s n) bs ≢ 0 = λ q. h (same ∙ q) in
      let later : (s == first_fit size (behind s n) bs) ≡ false =
        ground (arith, le-first_fit size (behind s n) bs ne) in
      rw (alloc-small size n bs miss, same, later)
        (Holds-alloc size (behind s n) bs (omega arith) ne)
]

release_after-alloc :
    (n : ℕ) (used : Bool) (size s : ℕ) (bs : Blocks)
    → 0 < s
    → Gap used bs
    → Coalesced bs
    → first_fit size s bs ≢ 0
    → release_after (n, used) s (first_fit size s bs) (alloc size bs) ≡ (n, used) ∷ bs
unfolding release_after first_fit
release_after-alloc n used size s [] pos g c h = absurd (h refl)
release_after-alloc n used size s ((k, true) ∷ bs) pos g c h =
    let same = first_fit-used size s k bs in
    let ne : first_fit size (behind s k) bs ≢ 0 = λ q. h (same ∙ q) in
    let later : (s == first_fit size (behind s k) bs) ≡ false =
      ground (arith, le-first_fit size (behind s k) bs ne) in
    rw (alloc-used size k bs, same, later)
      (ap (λ r. (n, used) ∷ r)
        (release_after-alloc k true size (behind s k) bs (omega arith) c.0 c.1 ne))
release_after-alloc n false size s ((k, false) ∷ bs) pos g c h = absurd g
release_after-alloc n true size s ((k, false) ∷ bs) pos g c h = elim (Bool-cases (ltb size k)) [
  | inl hit ↦
      rw (alloc-fits size k bs hit, first_fit-fits size s k bs hit)
        (cut-undo size k bs (n, true) s c.0).0
  | inr miss ↦
      let same = first_fit-small size s k bs miss in
      let ne : first_fit size (behind s k) bs ≢ 0 = λ q. h (same ∙ q) in
      let later : (s == first_fit size (behind s k) bs) ≡ false =
        ground (arith, le-first_fit size (behind s k) bs ne) in
      rw (alloc-small size k bs miss, same, later)
        (ap (λ r. (n, true) ∷ r)
          (release_after-alloc k false size (behind s k) bs (omega arith) c.0 c.1 ne))
]

release-alloc :
    (size s : ℕ) (bs : Blocks)
    → 0 < s
    → Coalesced bs
    → first_fit size s bs ≢ 0
    → release s (first_fit size s bs) (alloc size bs) ≡ bs
unfolding release first_fit
release-alloc size s [] pos c h = absurd (h refl)
release-alloc size s ((k, true) ∷ bs) pos c h =
    let same = first_fit-used size s k bs in
    let ne : first_fit size (behind s k) bs ≢ 0 = λ q. h (same ∙ q) in
    let later : (s == first_fit size (behind s k) bs) ≡ false =
      ground (arith, le-first_fit size (behind s k) bs ne) in
    rw (alloc-used size k bs, same, later)
      (release_after-alloc k true size (behind s k) bs (omega arith) c.0 c.1 ne)
release-alloc size s ((k, false) ∷ bs) pos c h = elim (Bool-cases (ltb size k)) [
  | inl hit ↦
      rw (alloc-fits size k bs hit, first_fit-fits size s k bs hit)
        (cut-undo size k bs (0, true) s c.0).1
  | inr miss ↦
      let same = first_fit-small size s k bs miss in
      let ne : first_fit size (behind s k) bs ≢ 0 = λ q. h (same ∙ q) in
      let later : (s == first_fit size (behind s k) bs) ≡ false =
        ground (arith, le-first_fit size (behind s k) bs ne) in
      rw (alloc-small size k bs miss, same, later)
        (release_after-alloc k false size (behind s k) bs (omega arith) c.0 c.1 ne)
]

pub payload-pos : (f : ℕ) → f ≢ 0 → payload f ≡ f + header_size
payload-pos zero h = absurd (h refl)
payload-pos (suc k) h = refl

pub Mallocs-some :
    {s : ℕ} {bs : Blocks} {e p : ℕ} {o : Option (ℕ × LinearAllocator)}
    → Mallocs s bs e p o
    → (a : LinearAllocator) × (o ≡ some (p, a)) × Represents a s bs e
Mallocs-some (gives {a} r) = (a, refl, r)

-- On a heap whose free chunks are never neighbours, and where some free chunk is larger than the
-- size, `malloc` with no alignment succeeds, and freeing the pointer that it returned restores
-- exactly the chunks from before the call.
pub free-malloc :
    (fuel : ℕ) (a : LinearAllocator) (size alignment s : ℕ) (bs : Blocks) (e : ℕ)
    → Represents a s bs e
    → Coalesced bs
    → alignment ≤ 1
    → length bs < fuel
    → first_fit size s bs ≢ 0
    → (p : ℕ) × (a' : LinearAllocator) × (malloc fuel a size alignment ≡ some (p, a'))
      × (p ≢ 0)
      × Represents (free a' p) s bs e
free-malloc fuel a size alignment s bs e r c plain enough found =
    let m = Mallocs-some (malloc-first_fit fuel a size alignment s bs e r plain enough) in
    let at = payload-pos (first_fit size s bs) found in
    let back = release-alloc size s bs r.not_null c found in
    let freed =
      free-release m.0 s (first_fit size s bs) (alloc size bs) e m.2
        (Holds-alloc size s bs r.not_null found) in
    (
      payload (first_fit size s bs),
      m.0,
      m.1,
      omega arith,
      rw at (
          subst (λ cs. Represents (free m.0 (first_fit size s bs + header_size)) s cs e) back
            freed),
    )
