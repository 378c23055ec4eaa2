-- ===== src/MemoryManagement/Malloc.antt =====
-- `malloc` is first fit.
use pingu_os.Common.{
  ℕ, zero, suc, ◌+◌, ◌^◌, ◌≤◌, ◌<◌, ◌≡◌, refl, ◌∙◌, Bool, true, false, Option, some, [], ◌∷◌, arith,
  ◌==◌, Bool-cases, if◌then◌else◌, length, ◌⊎◌, inl, inr, ◌≢◌, ltb, ltb→lt, leb, leb→le, ◌&&◌, ◌||◌,
  sym,
}
use pingu_os.MemoryManagement.{
  Memory, LinearAllocator, header_size, write, find_chunk, take_chunk, give, malloc,
}
use pingu_os.MemoryManagement.Blocks.{
  Blocks, entry, behind, Layout, SameBelow, cut, first_fit, alloc,
}
use pingu_os.MemoryManagement.Layout.{Layout-same, Layout-le, entry-cases}
use pingu_os.MemoryManagement.Cut.{
  take_chunk-cut, take_chunk-whole, cut_result-Layout, cut_result-below,
}

pub find_chunk_lem :
    (fuel : ℕ) (m : Memory) (size prev s : ℕ) (bs : Blocks) (e : ℕ)
    → 0 < s
    → Layout m prev s bs e
    → length bs < fuel
    → find_chunk fuel m (entry s bs) size ≡ some (first_fit size s bs)
unfolding find_chunk first_fit
find_chunk_lem zero m size prev s bs e pos l h = absurd (omega arith)
find_chunk_lem (suc fuel) m size prev s [] e pos l h = refl
find_chunk_lem (suc fuel) m size prev s ((n, used) ∷ bs) e pos l h =
    ground (arith, find_chunk_lem fuel m size s (behind s n) bs e)

abbrev whole_result : Memory → ℕ → Memory
whole_result m s = write m s (record (m s) { allocated = true; offset = 0 })

whole_result-Layout :
    (m : Memory) (prev s n : ℕ) (bs : Blocks) (e : ℕ)
    → Layout m prev s ((n, false) ∷ bs) e
    → Layout (whole_result m s) prev s ((n, true) ∷ bs) e × SameBelow s m (whole_result m s)
unfolding write
whole_result-Layout m prev s n bs e l =
    let tail : Layout (whole_result m s) s (behind s n) bs e =
      Layout-same m (whole_result m s) s (behind s n) bs e (λ a h. ground arith) l.5 in
    (
      (ground arith, ground arith, ground arith, ground arith, ground arith, tail),
      λ a h. ground arith,
    )

-- What taking a chunk of `m` leaves: the pointer `p`, the chunks `bs`, and no change below `s`.
record Took (m : Memory) (prev s : ℕ) (bs : Blocks) (e p : ℕ) (r : ℕ × Memory) : Type 0 where
  pointer : r.0 ≡ p
  layout : Layout r.1 prev s bs e
  below : SameBelow s m r.1

take_chunk-Took :
    (m : Memory) (size prev s n : ℕ) (bs : Blocks) (e : ℕ)
    → 0 < s
    → e < 2 ^ 32
    → size < n
    → Layout m prev s ((n, false) ∷ bs) e
    → Took m prev s (cut size n bs) e (s + header_size) (take_chunk m s size 1)
unfolding cut
take_chunk-Took m size prev s n bs e pos top fit l =
    let room : behind s n < 2 ^ 32 = omega (arith, Layout-le m s (behind s n) bs e l.5) in
    let far : ((m s).next ≡ 0) ⊎ ((m s).next ≡ behind s n) = rw l.3 (entry-cases (behind s n) bs) in
    elim (Bool-cases (leb (size + header_size + 1) n)) [
      | inl big ↦
          let h : size + header_size + 1 ≤ n = leb→le _ _ big in
          rw (big, take_chunk-cut m size s n room l.1 h)
            (record {
              pointer = refl;
              layout = cut_result-Layout m size prev s n bs e pos h l;
              below = cut_result-below m s size n h far;
            })
      | inr small ↦
          let whole = whole_result-Layout m prev s n bs e l in
          rw (small, take_chunk-whole m size s n room l.1 fit (ground arith))
            (record { pointer = refl; layout = whole.0; below = whole.1 })
    ]

Took-cons :
    (m : Memory) (prev s n : ℕ) (used : Bool) (bs cs : Blocks) (e p : ℕ) (r : ℕ × Memory)
    → Layout m prev s ((n, used) ∷ bs) e
    → entry (behind s n) cs ≡ entry (behind s n) bs
    → Took m s (behind s n) cs e p r
    → Took m prev s ((n, used) ∷ cs) e p r
Took-cons m prev s n used bs cs e p r l same t =
    let here : r.1 s ≡ m s = t.below s (omega arith) in
    record {
      pointer = t.pointer;
      layout = rw (here, same) (l.0, l.1, l.2, l.3, l.4, t.layout);
      below = λ a h. t.below a (omega arith);
    }

entry-alloc : (size s : ℕ) (bs : Blocks) → entry s (alloc size bs) ≡ entry s bs
unfolding alloc
entry-alloc size s [] = refl
entry-alloc size s (b ∷ bs) = ground arith

take_first-Took :
    (m : Memory) (size prev s : ℕ) (bs : Blocks) (e : ℕ)
    → 0 < s
    → e < 2 ^ 32
    → first_fit size s bs ≢ 0
    → Layout m prev s bs e
    → Took m prev s
        (alloc size bs)
        e
        (first_fit size s bs + header_size)
        (take_chunk m (first_fit size s bs) size 1)
unfolding first_fit alloc
take_first-Took m size prev s [] e pos top found l = absurd (found refl)
take_first-Took m size prev s ((n, true) ∷ bs) e pos top found l =
    let miss : (ltb size n && false) ≡ false = ground arith in
    rw miss (
      Took-cons m prev s n true bs (alloc size bs) e _ _ l (entry-alloc size (behind s n) bs)
        (take_first-Took m size s (behind s n) bs e (omega arith) top (λ q. found (rw miss q)) l.5))
take_first-Took m size prev s ((n, false) ∷ bs) e pos top found l = elim (Bool-cases (ltb size n)) [
  | inl hit ↦ rw hit (take_chunk-Took m size prev s n bs e pos top (ltb→lt _ _ hit) l)
  | inr miss ↦ rw miss (
      Took-cons m prev s n false bs (alloc size bs) e _ _ l (entry-alloc size (behind s n) bs)
        (take_first-Took m size s (behind s n) bs e (omega arith) top (λ q. found (rw miss q)) l.5))
]

pub alloc-none : (size s : ℕ) (bs : Blocks) → 0 < s → first_fit size s bs ≡ 0 → alloc size bs ≡ bs
unfolding first_fit alloc
alloc-none size s [] pos none_fits = refl
alloc-none size s ((n, used) ∷ bs) pos none_fits = ground (arith, alloc-none size (behind s n) bs)

-- The headers of the allocator `a` represent the chunks `bs` of the addresses from `s` to `e`.
pub record Represents (a : LinearAllocator) (s : ℕ) (bs : Blocks) (e : ℕ) : Type 0 where
  pub not_null : 0 < s
  pub within : e < 2 ^ 32
  pub first : a.m_first ≡ entry s bs
  pub layout : Layout a.mem 0 s bs e

-- The pointer to the payload of a chunk, null for no chunk.
abbrev pub payload : ℕ → ℕ
payload zero = 0
payload (suc k) = suc k + header_size

-- What a call leaves: the pointer `p`, and the headers of the chunks `bs`.
pub data Mallocs (s : ℕ) (bs : Blocks) (e p : ℕ) : Option (ℕ × LinearAllocator) → Type 0 where
  gives : {a : LinearAllocator} → Represents a s bs e → Mallocs s bs e p (some (p, a))

pub give-Mallocs :
    (a : LinearAllocator) (size s : ℕ) (bs : Blocks) (e f : ℕ)
    → Represents a s bs e
    → f ≡ first_fit size s bs
    → Mallocs s (alloc size bs) e (payload f) (give (some f) a size 1)
unfolding give
give-Mallocs a size s bs e zero r same =
    let nothing : alloc size bs ≡ bs = alloc-none size s bs r.not_null (sym same) in
    rw nothing (gives r)
give-Mallocs a size s bs e (suc k) r same =
    let t : Took a.mem 0 s (alloc size bs) e (suc k + header_size)
        (take_chunk a.mem (suc k) size 1) =
      rw same (take_first-Took a.mem size 0 s bs e r.not_null r.within (ground arith) r.layout) in
    rw (← t.pointer) (
      gives (record {
        not_null = r.not_null;
        within = r.within;
        first = r.first ∙ sym (entry-alloc size s bs);
        layout = t.layout;
      }))

pub malloc-give :
    (fuel : ℕ) (a : LinearAllocator) (size alignment s : ℕ) (bs : Blocks) (e : ℕ)
    → Represents a s bs e
    → alignment ≤ 1
    → length bs < fuel
    → malloc fuel a size alignment ≡ give (some (first_fit size s bs)) a size 1
unfolding malloc
malloc-give fuel a size alignment s bs e r plain enough =
    let one : (if alignment == 0 || alignment == 1 then 1 else alignment) ≡ 1 = ground arith in
    let found : find_chunk fuel a.mem a.m_first size ≡ some (first_fit size s bs) =
      rw r.first (find_chunk_lem fuel a.mem size 0 s bs e r.not_null r.layout enough) in
    rw (one, found)

-- With no alignment asked for and fuel for every chunk, `malloc` is first fit: it returns the
-- payload of the first free chunk that is larger than the size, cut if the rest can hold a chunk,
-- and null, with every chunk as it was, if there is none; the headers stay a doubly linked tiling.
pub malloc-first_fit :
    (fuel : ℕ) (a : LinearAllocator) (size alignment s : ℕ) (bs : Blocks) (e : ℕ)
    → Represents a s bs e
    → alignment ≤ 1
    → length bs < fuel
    → Mallocs s (alloc size bs) e (payload (first_fit size s bs)) (malloc fuel a size alignment)
malloc-first_fit fuel a size alignment s bs e r plain enough =
    rw (malloc-give fuel a size alignment s bs e r plain enough)
      (give-Mallocs a size s bs e (first_fit size s bs) r refl)
