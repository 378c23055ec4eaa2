-- ===== src/MemoryManagement/Coalesced.antt =====
-- No two free chunks are neighbours: `malloc` and `free` keep it so, and `free` undoes `malloc`.
use pingu_os.Common.{
  ℕ, ◌+◌, ◌≡◌, Bool, true, false, [], ◌∷◌, arith, ◌==◌, Bool-cases, inl, inr, leb, ltb,
}
use pingu_os.MemoryManagement.{header_size}
use pingu_os.MemoryManagement.Blocks.{
  Blocks, behind, cut, fits, alloc, join, release_after, release,
}

-- A chunk and the chunks behind it: if it is free, the next one is not.
abbrev pub Gap : Bool → Blocks → Type 0
Gap false ((n, false) ∷ bs) = ⊥
Gap _ _ = Unit

abbrev pub Coalesced : Blocks → Type 0
Coalesced [] = Unit
Coalesced ((n, used) ∷ bs) = Gap used bs × Coalesced bs

Gap-true : (bs : Blocks) → Gap true bs
Gap-true [] = tt
Gap-true ((n, true) ∷ bs) = tt
Gap-true ((n, false) ∷ bs) = tt

join-Coalesced : (n : ℕ) (bs : Blocks) → Coalesced bs → Coalesced (join n bs)
unfolding join
join-Coalesced n [] c = (tt, tt)
join-Coalesced n ((k, true) ∷ bs) c = (tt, c)
join-Coalesced n ((k, false) ∷ []) c = (tt, tt)
join-Coalesced n ((k, false) ∷ (j, true) ∷ bs) c = (tt, c.1)
join-Coalesced n ((k, false) ∷ (j, false) ∷ bs) c = absurd c.0

pub alloc-used :
    (size n : ℕ) (bs : Blocks) → alloc size ((n, true) ∷ bs) ≡ (n, true) ∷ alloc size bs
unfolding alloc fits
alloc-used size n bs = ground arith

pub alloc-small :
    (size n : ℕ) (bs : Blocks)
    → ltb size n ≡ false
    → alloc size ((n, false) ∷ bs) ≡ (n, false) ∷ alloc size bs
unfolding alloc fits
alloc-small size n bs h = rw h

pub alloc-fits :
    (size n : ℕ) (bs : Blocks) → ltb size n ≡ true → alloc size ((n, false) ∷ bs) ≡ cut size n bs
unfolding alloc fits
alloc-fits size n bs h = rw h

alloc-Gap : (used : Bool) (size : ℕ) (bs : Blocks) → Gap used bs → Gap used (alloc size bs)
unfolding alloc
alloc-Gap true size bs g = Gap-true (alloc size bs)
alloc-Gap false size [] g = tt
alloc-Gap false size ((n, false) ∷ bs) g = absurd g
alloc-Gap false size ((n, true) ∷ bs) g = rw (alloc-used size n bs) tt

cut-Coalesced : (size n : ℕ) (bs : Blocks) → Gap false bs → Coalesced bs → Coalesced (cut size n bs)
unfolding cut
cut-Coalesced size n bs g c = elim (Bool-cases (leb (size + header_size + 1) n)) [
  | inl big ↦ rw big (tt, (g, c))
  | inr small ↦ rw small (Gap-true bs, c)
]

pub alloc-Coalesced : (size : ℕ) (bs : Blocks) → Coalesced bs → Coalesced (alloc size bs)
unfolding alloc
alloc-Coalesced size [] c = tt
alloc-Coalesced size ((n, true) ∷ bs) c =
    rw (alloc-used size n bs) (Gap-true (alloc size bs), alloc-Coalesced size bs c.1)
alloc-Coalesced size ((n, false) ∷ bs) c = elim (Bool-cases (ltb size n)) [
  | inl hit ↦ rw (alloc-fits size n bs hit) (cut-Coalesced size n bs c.0 c.1)
  | inr miss ↦
      rw (alloc-small size n bs miss) (alloc-Gap false size bs c.0, alloc-Coalesced size bs c.1)
]

release_after-Gap :
    (used : Bool) (n s t : ℕ) (bs : Blocks) → Gap used (release_after (n, true) s t bs)
unfolding release_after
release_after-Gap true n s t bs = Gap-true (release_after (n, true) s t bs)
release_after-Gap false n s t [] = tt
release_after-Gap false n s t ((k, u) ∷ bs) = elim (Bool-cases (s == t)) [
  | inl here ↦ rw here tt
  | inr later ↦ rw later tt
]

release_after-Coalesced :
    (n : ℕ) (used : Bool) (s t : ℕ) (bs : Blocks)
    → Gap used bs
    → Coalesced bs
    → Coalesced (release_after (n, used) s t bs)
unfolding release_after
release_after-Coalesced n used s t [] g c = (g, tt)
release_after-Coalesced n true s t ((k, u) ∷ bs) g c = elim (Bool-cases (s == t)) [
  | inl here ↦ rw here (Gap-true (join k bs), join-Coalesced k bs c.1)
  | inr later ↦ rw later (
    Gap-true (release_after (k, u) (behind s k) t bs),
    release_after-Coalesced k u (behind s k) t bs c.0 c.1,
  )
]
release_after-Coalesced n false s t ((k, true) ∷ bs) g c = elim (Bool-cases (s == t)) [
  | inl here ↦ rw here (join-Coalesced (n + k + header_size) bs c.1)
  | inr later ↦ rw later (
    release_after-Gap false k (behind s k) t bs,
    release_after-Coalesced k true (behind s k) t bs c.0 c.1,
  )
]
release_after-Coalesced n false s t ((k, false) ∷ bs) g c = absurd g

pub release-Coalesced : (s t : ℕ) (bs : Blocks) → Coalesced bs → Coalesced (release s t bs)
unfolding release
release-Coalesced s t [] c = tt
release-Coalesced s t ((n, used) ∷ bs) c = elim (Bool-cases (s == t)) [
  | inl here ↦ rw here (join-Coalesced n bs c.1)
  | inr later ↦ rw later (release_after-Coalesced n used (behind s n) t bs c.0 c.1)
]
