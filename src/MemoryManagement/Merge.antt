-- ===== src/MemoryManagement/Merge.antt =====
-- What `free` writes when it joins a free chunk with a free neighbour.
use pingu_os.Common.{ℕ, ◌+◌, ◌^◌, ◌<◌, ◌≡◌, refl, Bool, true, false, [], ◌∷◌, arith, ◌⊎◌}
use pingu_os.MemoryManagement.{Memory, header_size, write, absorb, merge_next, merge_prev}
use pingu_os.MemoryManagement.Blocks.{Blocks, entry, behind, Layout, SameBelow, join}
use pingu_os.MemoryManagement.Layout.{Layout-same, Layout-le, Layout-relink, entry-cases}

-- The headers of `g` are the chunks `bs`, and differ from those of `m` only from `s` on.
pub record Left (m : Memory) (prev s : ℕ) (bs : Blocks) (e : ℕ) (g : Memory) : Type 0 where
  pub layout : Layout g prev s bs e
  pub below : SameBelow s m g

abbrev pub unmarked : Memory → ℕ → Memory
unmarked m s = write m s (record (m s) { allocated = false })

pub unmarked-Left :
    (m : Memory) (prev s n : ℕ) (used : Bool) (bs : Blocks) (e : ℕ)
    → Layout m prev s ((n, used) ∷ bs) e
    → Left m prev s ((n, false) ∷ bs) e (unmarked m s)
unfolding write
unmarked-Left m prev s n used bs e l =
    let tail : Layout (unmarked m s) s (behind s n) bs e =
      Layout-same m (unmarked m s) s (behind s n) bs e (λ a h. ground arith) l.5 in
    record {
      layout = (ground arith, ground arith, ground arith, ground arith, tt, tail);
      below = λ a h. ground arith;
    }

module _ (m : Memory) (s n k : ℕ) (after : ℕ) (size : (m s).size ≡ n)
    (next : (m s).next ≡ behind s n) (next_size : (m (behind s n)).size ≡ k)
    (next_free : (m (behind s n)).allocated ≡ false) (next_next : (m (behind s n)).next ≡ after)
    (far : (after ≡ 0) ⊎ (after ≡ behind (behind s n) k)) (pos : 0 < s)
    (top : behind (behind s n) k < 2 ^ 32) where
  merge_next-head : merge_next m s s ≡ record (m s) { size = n + k + header_size; next = after }
  unfolding merge_next absorb write
  merge_next-head = ground arith

  merge_next-after :
      after ≡ behind (behind s n) k
      → merge_next m s (behind (behind s n) k) ≡ record (m (behind (behind s n) k)) { prev = s }
  unfolding merge_next absorb write
  merge_next-after e = ground arith

  merge_next-above : (a : ℕ) → behind (behind s n) k < a → merge_next m s a ≡ m a
  unfolding merge_next absorb write
  merge_next-above a h = ground arith

  merge_next-below : (a : ℕ) → a < s → merge_next m s a ≡ m a
  unfolding merge_next absorb write
  merge_next-below a h = ground arith

merge_next-none : (m : Memory) (s : ℕ) → (m s).next ≡ 0 → merge_next m s ≡ m
unfolding merge_next
merge_next-none m s h = rw h

merge_next-used : (m : Memory) (s : ℕ) → (m (m s).next).allocated ≡ true → merge_next m s ≡ m
unfolding merge_next
merge_next-used m s h = ground arith

Left-refl :
    (m : Memory) (prev s : ℕ) (bs : Blocks) (e : ℕ) → Layout m prev s bs e → Left m prev s bs e m
Left-refl m prev s bs e l = record { layout = l; below = λ a h. refl }

merge_next-free :
    (m : Memory) (prev s n k : ℕ) (bs : Blocks) (e : ℕ)
    → 0 < s
    → e < 2 ^ 32
    → Layout m prev s ((n, false) ∷ (k, false) ∷ bs) e
    → Left m prev s ((n + k + header_size, false) ∷ bs) e (merge_next m s)
merge_next-free m prev s n k bs e pos top l = record {
  layout = rw (end, head) (l.0, refl, l.2, refl, tt, tail);
  below = merge_next-below m s n k (entry t bs) l.1 l.3 l.5.1 l.5.2 l.5.3 far pos room;
}
  where
    t : ℕ
    t = behind (behind s n) k

    room : t < 2 ^ 32
    room = omega (arith, Layout-le m (behind s n) t bs e l.5.5)

    far : (entry t bs ≡ 0) ⊎ (entry t bs ≡ t)
    far = entry-cases t bs

    end : behind s (n + k + header_size) ≡ t
    end = omega arith

    head : merge_next m s s ≡ record (m s) { size = n + k + header_size; next = entry t bs }
    head = merge_next-head m s n k (entry t bs) l.1 l.3 l.5.1 l.5.2 l.5.3 far pos room

    tail : Layout (merge_next m s) s t bs e
    tail =
        Layout-relink m (merge_next m s) (behind s n) s t bs e
          (merge_next-above m s n k (entry t bs) l.1 l.3 l.5.1 l.5.2 l.5.3 far pos room)
          (merge_next-after m s n k (entry t bs) l.1 l.3 l.5.1 l.5.2 l.5.3 far pos room) l.5.5

-- A free chunk takes in what `join` says.
pub merge_next-join :
    (m : Memory) (prev s n : ℕ) (bs : Blocks) (e : ℕ)
    → 0 < s
    → e < 2 ^ 32
    → Layout m prev s ((n, false) ∷ bs) e
    → Left m prev s (join n bs) e (merge_next m s)
unfolding join
merge_next-join m prev s n [] e pos top l =
    rw (merge_next-none m s l.3) (Left-refl m prev s ((n, false) ∷ []) e l)
merge_next-join m prev s n ((k, true) ∷ bs) e pos top l =
    rw (merge_next-used m s (rw l.3 l.5.2)) (Left-refl m prev s ((n, false) ∷ (k, true) ∷ bs) e l)
merge_next-join m prev s n ((k, false) ∷ bs) e pos top l =
    merge_next-free m prev s n k bs e pos top l

-- With a free chunk in front, `free` does at the front what `merge_next` does there.
pub merge_prev-free :
    (m : Memory) (prev s n k : ℕ) (bs : Blocks) (e : ℕ)
    → 0 < s
    → e < 2 ^ 32
    → Layout m prev s ((n, false) ∷ (k, false) ∷ bs) e
    → merge_prev m (behind s n) ≡ (s, merge_next m s)
unfolding merge_prev merge_next
merge_prev-free m prev s n k bs e pos top l = ground arith

pub merge_prev-none : (m : Memory) (s : ℕ) → (m s).prev ≡ 0 → merge_prev m s ≡ (s, m)
unfolding merge_prev
merge_prev-none m s h = rw h

pub merge_prev-used :
    (m : Memory) (s : ℕ) → (m (m s).prev).allocated ≡ true → merge_prev m s ≡ (s, m)
unfolding merge_prev
merge_prev-used m s h = ground arith
