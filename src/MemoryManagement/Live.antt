-- ===== src/MemoryManagement/Live.antt =====
-- The chunks that the program holds: `malloc` adds one and `free` takes one away, and no other
-- moves or changes its size.
use pingu_os.Common.{
  ℕ, ◌+◌, ◌-◌, ◌≤◌, ◌<◌, ◌≡◌, ◌≢◌, refl, ◌∙◌, Bool, true, false, [], ◌∷◌, arith, ◌==◌, ==_iff,
  Bool-cases, if◌then◌else◌, inl, inr, sym, leb, leb→le, Option, none, some,
}
use pingu_os.MemoryManagement.{header_size}
use pingu_os.MemoryManagement.Blocks.{
  Blocks, behind, cut, fits, first_fit, alloc, join, release_after, release, Holds,
}
use pingu_os.MemoryManagement.Undo.{le-first_fit}

-- The payload size of the allocated chunk at `t`.
unfoldable pub size_at : ℕ → Blocks → ℕ → Option ℕ
size_at s [] t = none
size_at s ((n, used) ∷ bs) t =
    if s == t then (if used then some n else none) else size_at (behind s n) bs t

size_at-below : (s : ℕ) (bs : Blocks) (t : ℕ) → t < s → size_at s bs t ≡ none
unfolding size_at
size_at-below s [] t h = refl
size_at-below s ((n, used) ∷ bs) t h = ground (arith, size_at-below (behind s n) bs t)

-- The payload that `alloc` hands out.
unfoldable pub granted : ℕ → Blocks → ℕ
unfolding fits
granted size [] = 0
granted size ((n, used) ∷ bs) =
    if fits size (n, used)
    then (if leb (size + header_size + 1) n then size else n)
    else granted size bs

size_at-cut :
    (size n s : ℕ) (bs : Blocks) (t : ℕ)
    → size < n
    → size_at s (cut size n bs) t ≡ (
        if s == t
        then some (if leb (size + header_size + 1) n then size else n)
        else size_at (behind s n) bs t)
unfolding size_at cut
size_at-cut size n s bs t h = elim (Bool-cases (leb (size + header_size + 1) n)) [
  | inl big ↦
      let end : behind (behind s size) (n - size - header_size) ≡ behind s n =
        omega (arith, leb→le _ _ big) in
      rw (big, end) (ground (arith, size_at-below (behind s n) bs t))
  | inr small ↦ rw small refl
]

lt_of_fits : (size n : ℕ) (used : Bool) → fits size (n, used) ≡ true → size < n
unfolding fits
lt_of_fits size n used h = ground arith

choose-else :
    (b : Bool) (x y z : Option ℕ) → (if b then x else z) ≡ (if b then x else (if b then y else z))
choose-else true x y z = refl
choose-else false x y z = refl

-- The step past a chunk that does not fit.
size_at-alloc_later :
    (size s n : ℕ) (used : Bool) (bs : Blocks) (t : ℕ)
    → 0 < s
    → first_fit size (behind s n) bs ≢ 0
    → size_at (behind s n) (alloc size bs) t ≡ (
        if first_fit size (behind s n) bs == t
        then some (granted size bs)
        else size_at (behind s n) bs t)
    → size_at s ((n, used) ∷ alloc size bs) t ≡ (
        if first_fit size (behind s n) bs == t
        then some (granted size bs)
        else size_at s ((n, used) ∷ bs) t)
unfolding size_at
size_at-alloc_later size s n used bs t pos ne ih = elim (Bool-cases (s == t)) [
  | inl same ↦
      let past : (first_fit size (behind s n) bs == t) ≡ false =
        ground (arith, le-first_fit size (behind s n) bs ne) in
      rw (same, past) refl
  | inr other ↦ rw other ih
]

pub size_at-alloc :
    (size s : ℕ) (bs : Blocks) (t : ℕ)
    → 0 < s
    → first_fit size s bs ≢ 0
    → size_at s (alloc size bs) t
      ≡ (if first_fit size s bs == t then some (granted size bs) else size_at s bs t)
unfolding size_at first_fit alloc granted
size_at-alloc size s [] t pos h = absurd (h refl)
size_at-alloc size s ((n, used) ∷ bs) t pos h = elim (Bool-cases (fits size (n, used))) [
  | inl hit ↦ rw hit (
      size_at-cut size n s bs t (lt_of_fits size n used hit)
      ∙ choose-else (s == t) (some (if leb (size + header_size + 1) n then size else n))
          (if used then some n else none) (size_at (behind s n) bs t))
  | inr miss ↦ rw miss (
      size_at-alloc_later size s n used bs t pos (rw miss at h)
        (size_at-alloc size (behind s n) bs t (omega arith) (rw miss at h)))
]

size_at-join :
    (s n : ℕ) (bs : Blocks) (u : ℕ) → size_at s (join n bs) u ≡ size_at s ((n, false) ∷ bs) u
unfolding size_at join
size_at-join s n [] u = refl
size_at-join s n ((k, true) ∷ bs) u = refl
size_at-join s n ((k, false) ∷ bs) u =
    let end : behind s (n + k + header_size) ≡ behind (behind s n) k = omega arith in
    rw end (ground (arith, size_at-below (behind (behind s n) k) bs u))

size_at-freed :
    (s n : ℕ) (bs : Blocks) (u : ℕ)
    → size_at s ((n, false) ∷ bs) u ≡ (if s == u then none else size_at s ((n, true) ∷ bs) u)
unfolding size_at
size_at-freed s n bs u = ground arith

size_at-merged :
    (s n k : ℕ) (bs : Blocks) (u : ℕ)
    → size_at s ((n + k + header_size, false) ∷ bs) u
      ≡ (if behind s n == u then none else size_at s ((n, false) ∷ (k, true) ∷ bs) u)
unfolding size_at
size_at-merged s n k bs u =
    let end : behind s (n + k + header_size) ≡ behind (behind s n) k = omega arith in
    rw end (ground (arith, size_at-below (behind (behind s n) k) bs u))

size_at-cons :
    (s n t : ℕ) (used : Bool) (bs cs : Blocks) (u : ℕ)
    → s < t
    → size_at (behind s n) cs u ≡ (if t == u then none else size_at (behind s n) bs u)
    → size_at s ((n, used) ∷ cs) u ≡ (if t == u then none else size_at s ((n, used) ∷ bs) u)
unfolding size_at
size_at-cons s n t used bs cs u h e = elim (Bool-cases (s == u)) [
  | inl same ↦ let past : (t == u) ≡ false = ground arith in rw (same, past) refl
  | inr other ↦ rw other e
]

le_of_Holds : (s t : ℕ) (bs : Blocks) → Holds s bs t → s ≤ t
le_of_Holds s t [] h = absurd h
le_of_Holds s t ((n, used) ∷ bs) h = elim (Bool-cases (s == t)) [
  | inl same ↦ omega (arith, (==_iff s t).0 same)
  | inr other ↦ omega (arith, le_of_Holds (behind s n) t bs (rw other at h))
]

-- The chunk directly behind `(n, used)` is given back.
size_at-release_next :
    (s n k : ℕ) (used v : Bool) (bs : Blocks) (u : ℕ)
    → v ≡ true
    → size_at s (if used then (n, used) ∷ join k bs else join (n + k + header_size) bs) u
      ≡ (if behind s n == u then none else size_at s ((n, used) ∷ (k, v) ∷ bs) u)
size_at-release_next s n k used false bs u h = cc
size_at-release_next s n k true true bs u h =
    size_at-cons s n (behind s n) true ((k, true) ∷ bs) (join k bs) u (omega arith)
      (size_at-join (behind s n) k bs u ∙ size_at-freed (behind s n) k bs u)
size_at-release_next s n k false true bs u h =
    size_at-join s (n + k + header_size) bs u ∙ size_at-merged s n k bs u

size_at-release_after :
    (n : ℕ) (used : Bool) (s t : ℕ) (bs : Blocks) (u : ℕ)
    → Holds (behind s n) bs t
    → size_at s (release_after (n, used) (behind s n) t bs) u
      ≡ (if t == u then none else size_at s ((n, used) ∷ bs) u)
unfolding release_after
size_at-release_after n used s t [] u h = absurd h
size_at-release_after n used s t ((k, v) ∷ bs) u h = elim (Bool-cases (behind s n == t)) [
  | inl here ↦
      rw here
        (rw (sym ((==_iff _ _).0 here)) (size_at-release_next s n k used v bs u (rw here at h)))
  | inr later ↦ rw later (
      size_at-cons s n t used ((k, v) ∷ bs) (release_after (k, v) (behind (behind s n) k) t bs) u
        (omega (arith, le_of_Holds (behind s n) t ((k, v) ∷ bs) h))
        (size_at-release_after k v (behind s n) t bs u (rw later at h)))
]

pub size_at-release :
    (s t : ℕ) (bs : Blocks) (u : ℕ)
    → Holds s bs t
    → size_at s (release s t bs) u ≡ (if t == u then none else size_at s bs u)
unfolding release
size_at-release s t [] u h = absurd h
size_at-release s t ((n, used) ∷ bs) u h = elim (Bool-cases (s == t)) [
  | inl here ↦
      let at : s ≡ t = (==_iff _ _).0 here in
      let is_used : used ≡ true = rw here at h in
      rw (here, is_used, ← at) (size_at-join s n bs u ∙ size_at-freed s n bs u)
  | inr later ↦ rw later (size_at-release_after n used s t bs u (rw later at h))
]
