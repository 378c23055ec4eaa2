-- ===== src/MemoryManagement/Cut.antt =====
-- What `malloc` writes when it takes a chunk: the headers after a cut, and after none.
use pingu_os.Common.{
  ℕ, ◌+◌, ◌-◌, ◌^◌, ◌≤◌, ◌<◌, ◌≡◌, refl, ◌∙◌, true, false, ◌∷◌, arith, ◌==◌, if◌then◌else◌, ◌⊎◌,
  add32, sub32,
}
use pingu_os.Common.Bits.{bit_and-ones, low_self}
use pingu_os.MemoryManagement.{Memory, header_size, write, align_up, split_chunk, take_chunk}
use pingu_os.MemoryManagement.Blocks.{Blocks, behind, Layout}
use pingu_os.MemoryManagement.Layout.{Layout-relink, entry-cases}

align_up-one : (raw : ℕ) → raw < 2 ^ 32 → align_up raw 1 ≡ raw
unfolding align_up
align_up-one raw h =
    omega (arith, bit_and-ones 32 (add32 raw 0), low_self 32 (add32 raw 0) (omega arith))

-- The memory after the chunk at `s` has been cut to `size`.
abbrev pub cut_memory : Memory → ℕ → ℕ → ℕ → Memory
cut_memory m s size n =
    let temp = behind s size in
    let after = (m s).next in
    let m₁ = write m temp (record (m temp) {
      allocated = false;
      size = n - size - header_size;
      prev = s;
      next = after;
    }) in
    let m₂ = if after == 0 then m₁ else write m₁ after (record (m₁ after) { prev = temp }) in
    write m₂ s (record (m₂ s) { size = size; next = temp })

split_chunk-cut :
    (m : Memory) (size s n : ℕ)
    → s + header_size + n < 2 ^ 32
    → (m s).size ≡ n
    → size + header_size + 1 ≤ n
    → split_chunk m s (s + header_size) size 0 ≡ cut_memory m s size n
unfolding split_chunk
split_chunk-cut m size s n top e h =
    let temp : add32 (s + header_size) size ≡ behind s size = omega arith in
    let left : sub32 (sub32 (sub32 (m s).size size) 0) header_size ≡ n - size - header_size =
      omega arith in
    let same : add32 size 0 ≡ size = omega arith in rw (temp, left, same)

pub take_chunk-cut :
    (m : Memory) (size s n : ℕ)
    → s + header_size + n < 2 ^ 32
    → (m s).size ≡ n
    → size + header_size + 1 ≤ n
    → let g = cut_memory m s size n in
      take_chunk m s size 1
      ≡ (s + header_size, write g s (record (g s) { allocated = true; offset = 0 }))
unfolding take_chunk
take_chunk-cut m size s n top e h =
    ground (arith, align_up-one (add32 s header_size), split_chunk-cut m size s n)

pub take_chunk-whole :
    (m : Memory) (size s n : ℕ)
    → s + header_size + n < 2 ^ 32
    → (m s).size ≡ n
    → size < n
    → n < size + header_size + 1
    → take_chunk m s size 1
      ≡ (s + header_size, write m s (record (m s) { allocated = true; offset = 0 }))
unfolding take_chunk
take_chunk-whole m size s n top e h k = ground (arith, align_up-one (add32 s header_size))

abbrev pub cut_result : Memory → ℕ → ℕ → ℕ → Memory
cut_result m s size n =
    let g = cut_memory m s size n in write g s (record (g s) { allocated = true; offset = 0 })

-- The links behind the cut: the next chunk, if any, lies behind `e`.
module _ (m : Memory) (s size n : ℕ) (h : size + header_size + 1 ≤ n)
    (far : ((m s).next ≡ 0) ⊎ ((m s).next ≡ behind s n)) where
  cut_result-head : cut_result m s size n s ≡ record {
    next = behind s size;
    prev = (m s).prev;
    allocated = true;
    size = size;
    offset = 0;
  }
  unfolding write
  cut_result-head = ground arith

  cut_result-rest : cut_result m s size n (behind s size) ≡ record (m (behind s size)) {
    allocated = false;
    size = n - size - header_size;
    prev = s;
    next = (m s).next;
  }
  unfolding write
  cut_result-rest = ground arith

  cut_result-after :
      (m s).next ≡ behind s n
      → cut_result m s size n (behind s n) ≡ record (m (behind s n)) { prev = behind s size }
  unfolding write
  cut_result-after e = ground arith

  cut_result-above : (a : ℕ) → behind s n < a → cut_result m s size n a ≡ m a
  unfolding write
  cut_result-above a p = ground arith

  pub cut_result-below : (a : ℕ) → a < s → cut_result m s size n a ≡ m a
  unfolding write
  cut_result-below a p = ground arith

pub cut_result-Layout :
    (m : Memory) (size prev s n : ℕ) (bs : Blocks) (e : ℕ)
    → 0 < s
    → size + header_size + 1 ≤ n
    → Layout m prev s ((n, false) ∷ bs) e
    → Layout (cut_result m s size n) prev s ((size, true) ∷ (n - size - header_size, false) ∷ bs) e
cut_result-Layout m size prev s n bs e pos h l =
    let far : ((m s).next ≡ 0) ⊎ ((m s).next ≡ behind s n) = rw l.3 (entry-cases (behind s n) bs) in
    let end : behind (behind s size) (n - size - header_size) ≡ behind s n = omega arith in
    let tail : Layout (cut_result m s size n) (behind s size) (behind s n) bs e =
      Layout-relink m (cut_result m s size n) s (behind s size) (behind s n) bs e
        (cut_result-above m s size n h far) (λ q. cut_result-after m s size n h far (l.3 ∙ q))
        l.5 in
    rw (end, cut_result-head m s size n h far, cut_result-rest m s size n h far)
      (l.0, refl, refl, refl, refl, (refl, refl, refl, l.3, tt, tail))
