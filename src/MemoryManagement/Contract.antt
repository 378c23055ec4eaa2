-- ===== src/MemoryManagement/Contract.antt =====
-- What a client of the heap may rely on, over any sequence of calls.
use pingu_os.Common.{
  ℕ, ◌+◌, ◌-◌, ◌^◌, ◌≤◌, ◌<◌, ◌≡◌, ◌≢◌, refl, ◌∙◌, Bool, true, false, [], ◌∷◌, arith, ◌==◌,
  Bool-cases, if◌then◌else◌, inl, inr, ltb, length, Option, none, some, subst,
}
use pingu_os.MemoryManagement.{
  LinearAllocator, Memory, header_size, write, init, give, malloc, free,
}
use pingu_os.MemoryManagement.Blocks.{Blocks, behind, fits, first_fit, alloc, release, Holds}
use pingu_os.MemoryManagement.Malloc.{Represents, malloc-first_fit, malloc-give}
use pingu_os.MemoryManagement.Free.{free-release}
use pingu_os.MemoryManagement.Coalesced.{Coalesced, alloc-Coalesced, release-Coalesced}
use pingu_os.MemoryManagement.Undo.{payload-pos, Mallocs-some, le-first_fit}
use pingu_os.MemoryManagement.Live.{size_at, granted, size_at-alloc, size_at-release}

-- The headers are a doubly linked tiling by the chunks `bs`, and no two free ones are neighbours.
pub record IsHeap (a : LinearAllocator) (s : ℕ) (bs : Blocks) (e : ℕ) : Type 0 where
  pub represents : Represents a s bs e
  pub coalesced : Coalesced bs

-- The heap `a'` holds the chunks of `bs`, and those alone, but for what `now t` says of the chunk
-- at `t`.
pub record Changed (bs : Blocks) (a' : LinearAllocator) (s e t : ℕ) (now : Option ℕ) : Type 0 where
  pub after : Blocks
  pub heap : IsHeap a' s after e
  pub others : (u : ℕ) → size_at s after u ≡ (if t == u then now else size_at s bs u)

-- The constructor makes one free chunk of all the memory behind the first header.
pub init-IsHeap :
    (m : Memory) (start size : ℕ)
    → 0 < start
    → header_size ≤ size
    → start + size < 2 ^ 32
    → IsHeap (init m start size) start ((size - header_size, false) ∷ []) (start + size)
unfolding init write
init-IsHeap m start size pos room top =
    let big : ltb size header_size ≡ false = ground arith in
    rw big (record {
      represents = record {
        not_null = pos;
        within = top;
        first = refl;
        layout = (ground arith, ground arith, ground arith, ground arith, tt, omega arith);
      };
      coalesced = (tt, tt);
    })

le-granted : (size s : ℕ) (bs : Blocks) → first_fit size s bs ≢ 0 → size ≤ granted size bs
unfolding first_fit granted fits
le-granted size s [] h = absurd (h refl)
le-granted size s ((n, used) ∷ bs) h = ground (arith, le-granted size (behind s n) bs)

not_live-first_fit :
    (size s : ℕ) (bs : Blocks) → first_fit size s bs ≢ 0 → size_at s bs (first_fit size s bs) ≡ none
unfolding first_fit size_at fits
not_live-first_fit size s [] h = absurd (h refl)
not_live-first_fit size s ((n, used) ∷ bs) h =
    ground (arith, not_live-first_fit size (behind s n) bs, le-first_fit size (behind s n) bs)

is_used : (used : Bool) (k n : ℕ) → (if used then some k else none) ≡ some n → used ≡ true
is_used true k n h = refl
is_used false k n h = cc

size_at-Holds : (s : ℕ) (bs : Blocks) (t n : ℕ) → size_at s bs t ≡ some n → Holds s bs t
unfolding size_at
size_at-Holds s [] t n h = cc
size_at-Holds s ((k, used) ∷ bs) t n h = elim (Bool-cases (s == t)) [
  | inl here ↦ rw here (is_used used k n (rw here at h))
  | inr later ↦ rw later (size_at-Holds (behind s k) bs t n (rw later at h))
]

-- If some free chunk is larger than the size, `malloc` without alignment, given fuel for each
-- chunk, returns the payload of a chunk `t` that was not allocated and now is, with at least the
-- size asked for; no other allocated chunk moves, grows, shrinks or is lost, and the heap stays
-- well formed.
pub malloc-Changed :
    (fuel : ℕ) (a : LinearAllocator) (size alignment s : ℕ) (bs : Blocks) (e : ℕ)
    → IsHeap a s bs e
    → alignment ≤ 1
    → length bs < fuel
    → first_fit size s bs ≢ 0
    → (t : ℕ) × (n : ℕ) × (a' : LinearAllocator) × (malloc fuel a size alignment
        ≡ some (t + header_size, a'))
      × (size ≤ n)
      × (size_at s bs t ≡ none)
      × Changed bs a' s e t (some n)
malloc-Changed fuel a size alignment s bs e i plain enough found =
    let r = i.represents in
    let m = Mallocs-some (malloc-first_fit fuel a size alignment s bs e r plain enough) in
    let at = payload-pos (first_fit size s bs) found in
    (
      first_fit size s bs,
      granted size bs,
      m.0,
      subst (λ p. malloc fuel a size alignment ≡ some (p, m.0)) at m.1,
      le-granted size s bs found,
      not_live-first_fit size s bs found,
      record {
        after = alloc size bs;
        heap = record { represents = m.2; coalesced = alloc-Coalesced size bs i.coalesced };
        others = λ u. size_at-alloc size s bs u r.not_null found;
      },
    )

-- If no free chunk is larger than the size, `malloc` without alignment returns null and changes
-- nothing.
pub malloc-null :
    (fuel : ℕ) (a : LinearAllocator) (size alignment s : ℕ) (bs : Blocks) (e : ℕ)
    → IsHeap a s bs e
    → alignment ≤ 1
    → length bs < fuel
    → first_fit size s bs ≡ 0
    → malloc fuel a size alignment ≡ some (0, a)
unfolding give
malloc-null fuel a size alignment s bs e i plain enough none_fits =
    malloc-give fuel a size alignment s bs e i.represents plain enough ∙ rw none_fits

-- Given the payload of an allocated chunk `t`, `free` takes it back: no other allocated chunk moves,
-- grows, shrinks or is lost, and the heap stays well formed.
pub free-Changed :
    (a : LinearAllocator) (s t n : ℕ) (bs : Blocks) (e : ℕ)
    → IsHeap a s bs e
    → size_at s bs t ≡ some n
    → Changed bs (free a (t + header_size)) s e t none
free-Changed a s t n bs e i live =
    let holds = size_at-Holds s bs t n live in
    record {
      after = release s t bs;
      heap = record {
        represents = free-release a s t bs e i.represents holds;
        coalesced = release-Coalesced s t bs i.coalesced;
      };
      others = λ u. size_at-release s t bs u holds;
    }

le_of_size_at : (s : ℕ) (bs : Blocks) (t n : ℕ) → size_at s bs t ≡ some n → s ≤ t
unfolding size_at
le_of_size_at s [] t n h = cc
le_of_size_at s ((j, used) ∷ bs) t n h = ground (arith, le_of_size_at (behind s j) bs t n)

-- Two allocated chunks do not overlap.
pub size_at_apart :
    (s : ℕ) (bs : Blocks) (t u n k : ℕ)
    → size_at s bs t ≡ some n
    → size_at s bs u ≡ some k
    → t < u
    → behind t n ≤ u
unfolding size_at
size_at_apart s [] t u n k p q h = cc
size_at_apart s ((j, used) ∷ bs) t u n k p q h = ground (
  arith,
  le_of_size_at (behind s j) bs u k,
  le_of_size_at (behind s j) bs t n,
  size_at_apart (behind s j) bs t u n k,
)
