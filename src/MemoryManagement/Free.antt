-- ===== src/MemoryManagement/Free.antt =====
-- `free` gives a chunk back and joins it with its free neighbours.
use pingu_os.Common.{
  ℕ, ◌+◌, ◌^◌, ◌≤◌, ◌<◌, ◌≡◌, refl, ◌∙◌, Bool, true, false, [], ◌∷◌, arith, ◌==◌, Bool-cases,
  if◌then◌else◌, inl, inr, sym, sub32, ==_iff,
}
use pingu_os.MemoryManagement.{
  Memory, LinearAllocator, header_size, write, merge_next, merge_prev, free_node, free,
}
use pingu_os.MemoryManagement.Blocks.{
  Blocks, entry, behind, Layout, SameBelow, join, release_after, release, Holds, Plain,
}
use pingu_os.MemoryManagement.Merge.{
  Left, unmarked, unmarked-Left, merge_next-join, merge_prev-free, merge_prev-none, merge_prev-used,
}
use pingu_os.MemoryManagement.Layout.{Layout-le}
use pingu_os.MemoryManagement.Malloc.{Represents}

Left-cons :
    (m g : Memory) (prev s n : ℕ) (used : Bool) (bs cs : Blocks) (e : ℕ)
    → Layout m prev s ((n, used) ∷ bs) e
    → entry (behind s n) cs ≡ entry (behind s n) bs
    → Left m s (behind s n) cs e g
    → Left m prev s ((n, used) ∷ cs) e g
Left-cons m g prev s n used bs cs e l same f =
    let here : g s ≡ m s = f.below s (omega arith) in
    record {
      layout = rw (here, same) (l.0, l.1, l.2, l.3, l.4, f.layout);
      below = λ a h. f.below a (omega arith);
    }

Left-trans :
    (m g h : Memory) (p q s t : ℕ) (bs cs : Blocks) (e : ℕ)
    → s ≤ t
    → Left m p s bs e g
    → Left g q t cs e h
    → SameBelow s m h
Left-trans m g h p q s t bs cs e le f f' a lt = f'.below a (omega arith) ∙ f.below a lt

entry-join : (s n : ℕ) (bs : Blocks) → entry s (join n bs) ≡ s
unfolding join
entry-join s n [] = refl
entry-join s n ((k, true) ∷ bs) = refl
entry-join s n ((k, false) ∷ bs) = refl

entry-release_after :
    (s n t x : ℕ) (used : Bool) (bs : Blocks) → entry s (release_after (n, used) x t bs) ≡ s
unfolding release_after join
entry-release_after s n t x used [] = refl
entry-release_after s n t x true ((k, u) ∷ bs) = ground arith
entry-release_after s n t x false ((k, u) ∷ bs) =
    ground (arith, entry-join s (n + k + header_size) bs)

-- Nothing free lies in front of the chunk at `s`.
free_node-join :
    (m : Memory) (prev s n : ℕ) (bs : Blocks) (e : ℕ)
    → 0 < s
    → e < 2 ^ 32
    → merge_prev (unmarked m s) s ≡ (s, unmarked m s)
    → Layout m prev s ((n, true) ∷ bs) e
    → Left m prev s (join n bs) e (free_node m s)
unfolding free_node
free_node-join m prev s n bs e pos top alone l =
    let u = unmarked-Left m prev s n true bs e l in
    let j = merge_next-join (unmarked m s) prev s n bs e pos top u.layout in
    rw alone (record { layout = j.layout; below = λ a h. j.below a h ∙ u.below a h })

unmarked-front :
    (m : Memory) (s t : ℕ)
    → s < t
    → (m t).prev ≡ s
    → (m s).allocated ≡ true
    → (unmarked m t (unmarked m t t).prev).allocated ≡ true
unfolding write
unmarked-front m s t h link used = ground arith

-- The chunk in front is allocated.
free_node-after_used :
    (m : Memory) (prev s n k : ℕ) (bs : Blocks) (e : ℕ)
    → 0 < s
    → e < 2 ^ 32
    → Layout m prev s ((n, true) ∷ (k, true) ∷ bs) e
    → Left m prev s ((n, true) ∷ join k bs) e (free_node m (behind s n))
free_node-after_used m prev s n k bs e pos top l =
    let t : ℕ = behind s n in
    let front : (unmarked m t (unmarked m t t).prev).allocated ≡ true =
      unmarked-front m s t (omega arith) l.5.0 l.2 in
    Left-cons m (free_node m t) prev s n true ((k, true) ∷ bs) (join k bs) e l (entry-join t k bs)
      (free_node-join m s t k bs e (omega arith) top (merge_prev-used (unmarked m t) t front) l.5)

-- The chunk in front is free.
free_node-after_free :
    (m : Memory) (prev s n k : ℕ) (bs : Blocks) (e : ℕ)
    → 0 < s
    → e < 2 ^ 32
    → Layout m prev s ((n, false) ∷ (k, true) ∷ bs) e
    → Left m prev s (join (n + k + header_size) bs) e (free_node m (behind s n))
unfolding free_node join
free_node-after_free m prev s n k bs e pos top l =
    let t : ℕ = behind s n in
    let v : Memory = unmarked m t in
    let u : Left m prev s ((n, false) ∷ (k, false) ∷ bs) e v =
      Left-cons m v prev s n false ((k, true) ∷ bs) ((k, false) ∷ bs) e l refl
        (unmarked-Left m s t k true bs e l.5) in
    let j = merge_next-join v prev s n ((k, false) ∷ bs) e pos top u.layout in
    let i = merge_next-join (merge_next v s) prev s (n + k + header_size) bs e pos top j.layout in
    rw (merge_prev-free v prev s n k bs e pos top u.layout)
      (record { layout = i.layout; below = λ a h. i.below a h ∙ j.below a h ∙ u.below a h })

free_node-after :
    (m : Memory) (prev s n k : ℕ) (used u : Bool) (bs : Blocks) (e : ℕ)
    → 0 < s
    → e < 2 ^ 32
    → Layout m prev s ((n, used) ∷ (k, u) ∷ bs) e
    → u ≡ true
    → Left m prev s
        (if used then (n, used) ∷ join k bs else join (n + k + header_size) bs)
        e
        (free_node m (behind s n))
free_node-after m prev s n k used false bs e pos top l h = cc
free_node-after m prev s n k true true bs e pos top l h =
    free_node-after_used m prev s n k bs e pos top l
free_node-after m prev s n k false true bs e pos top l h =
    free_node-after_free m prev s n k bs e pos top l

release_after-Left :
    (m : Memory) (prev s n t : ℕ) (used : Bool) (bs : Blocks) (e : ℕ)
    → 0 < s
    → e < 2 ^ 32
    → Layout m prev s ((n, used) ∷ bs) e
    → Holds (behind s n) bs t
    → Left m prev s (release_after (n, used) (behind s n) t bs) e (free_node m t)
unfolding release_after
release_after-Left m prev s n t used [] e pos top l h = absurd h
release_after-Left m prev s n t used ((k, u) ∷ bs) e pos top l h =
    elim (Bool-cases (behind s n == t)) [
      | inl here ↦
          let at : t ≡ behind s n = sym ((==_iff _ _).0 here) in
          rw here (rw at (free_node-after m prev s n k used u bs e pos top l (rw here at h)))
      | inr later ↦ rw later (
          Left-cons m (free_node m t) prev s n used ((k, u) ∷ bs)
            (release_after (k, u) (behind (behind s n) k) t bs) e l
            (entry-release_after (behind s n) k t (behind (behind s n) k) u bs)
            (release_after-Left m s (behind s n) k t u bs e (omega arith) top l.5 (rw later at h)))
    ]

unmarked-prev : (m : Memory) (s : ℕ) → (unmarked m s s).prev ≡ (m s).prev
unfolding write
unmarked-prev m s = ground arith

free_node-first :
    (m : Memory) (s n : ℕ) (used : Bool) (bs : Blocks) (e : ℕ)
    → 0 < s
    → e < 2 ^ 32
    → Layout m 0 s ((n, used) ∷ bs) e
    → used ≡ true
    → Left m 0 s (join n bs) e (free_node m s)
free_node-first m s n false bs e pos top l h = cc
free_node-first m s n true bs e pos top l h =
    free_node-join m 0 s n bs e pos top (merge_prev-none (unmarked m s) s (unmarked-prev m s ∙ l.0))
      l

release-Left :
    (m : Memory) (s t : ℕ) (bs : Blocks) (e : ℕ)
    → 0 < s
    → e < 2 ^ 32
    → Layout m 0 s bs e
    → Holds s bs t
    → Left m 0 s (release s t bs) e (free_node m t)
unfolding release
release-Left m s t [] e pos top l h = absurd h
release-Left m s t ((n, used) ∷ bs) e pos top l h = elim (Bool-cases (s == t)) [
  | inl here ↦
      let at : t ≡ s = sym ((==_iff _ _).0 here) in
      rw here (rw at (free_node-first m s n used bs e pos top l (rw here at h)))
  | inr later ↦ rw later (release_after-Left m 0 s n t used bs e pos top l (rw later at h))
]

offset-Plain : (used : Bool) (o : ℕ) → Plain used o → used ≡ true → o ≡ 0
offset-Plain true o p h = p
offset-Plain false o p h = cc

entry-release : (s t : ℕ) (bs : Blocks) → entry s (release s t bs) ≡ entry s bs
unfolding release
entry-release s t [] = refl
entry-release s t ((n, used) ∷ bs) =
    ground (arith, entry-join s n bs, entry-release_after s n t (behind s n) used bs)

offset-Holds :
    (m : Memory) (prev s t : ℕ) (bs : Blocks) (e : ℕ)
    → Layout m prev s bs e
    → Holds s bs t
    → ((m t).offset ≡ 0) × (s ≤ t) × (t + header_size ≤ e)
offset-Holds m prev s t [] e l h = absurd h
offset-Holds m prev s t ((n, used) ∷ bs) e l h = elim (Bool-cases (s == t)) [
  | inl here ↦
      let at : s ≡ t = (==_iff _ _).0 here in
      let plain : (m s).offset ≡ 0 = offset-Plain used (m s).offset l.4 (rw here at h) in
      (rw at at plain, omega arith, omega (arith, Layout-le m s (behind s n) bs e l.5))
  | inr later ↦
      let i = offset-Holds m s (behind s n) t bs e l.5 (rw later at h) in (i.0, omega arith, i.2)
]

-- Given the payload of an allocated chunk, `free` gives the chunk back, joined with the free
-- neighbours on both sides; the headers stay a doubly linked tiling.
pub free-release :
    (a : LinearAllocator) (s t : ℕ) (bs : Blocks) (e : ℕ)
    → Represents a s bs e
    → Holds s bs t
    → Represents (free a (t + header_size)) s (release s t bs) e
unfolding free
free-release a s t bs e r h =
    let at = offset-Holds a.mem 0 s t bs e r.layout h in
    let header : sub32 (t + header_size) header_size ≡ t = omega arith in
    let node : sub32 t (a.mem t).offset ≡ t = omega arith in
    let some_ptr : (t + header_size == 0) ≡ false = ground arith in
    let f = release-Left a.mem s t bs e r.not_null r.within r.layout h in
    let out : free a (t + header_size) ≡ record a { mem = free_node a.mem t } =
      rw (some_ptr, header, node) in
    rw out (record {
      not_null = r.not_null;
      within = r.within;
      first = r.first ∙ sym (entry-release s t bs);
      layout = f.layout;
    })
