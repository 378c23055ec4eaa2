-- ===== src/MemoryManagement/Aligned.antt =====
-- `malloc` with an alignment above 1 chooses the chunk as if there were no padding.
use pingu_os.Common.{
  ℕ, zero, suc, ap, ◌∙◌, lt→ltb, ◌+◌, ◌-◌, ◌%◌, ◌^◌, ◌<◌, ◌≡◌, ◌≢◌, refl, false, ◌∷◌, [], arith,
  some, add32,
}
use pingu_os.Common.Bits.{bit_and-field, low_self, high}
use pingu_os.MemoryManagement.{
  LinearAllocator, Memory, header_size, align_up, find_chunk, take_chunk, give, malloc,
}
use pingu_os.MemoryManagement.Blocks.{behind, first_fit}
use pingu_os.MemoryManagement.Undo.{first_fit-fits}
use pingu_os.MemoryManagement.Malloc.{Represents, find_chunk_lem}

align_up_16 : (raw : ℕ) → raw + 15 < 2 ^ 32 → align_up raw 16 ≡ raw + 15 - (raw + 15) % 16
unfolding align_up
align_up_16 raw h =
    let x : ℕ = add32 raw 15 in
    omega (arith, bit_and-field 4 28 x, low_self 28 (high 4 x) (omega arith))

give-pos :
    (a : LinearAllocator) (f size alignment : ℕ)
    → 0 < f
    → give (some f) a size alignment
      ≡ some (
        (take_chunk a.mem f size alignment).0,
        record a { mem = (take_chunk a.mem f size alignment).1 },
      )
unfolding give
give-pos a zero size alignment h = absurd (omega arith)
give-pos a (suc k) size alignment h = refl

pointer_16 :
    (m : Memory) (s size : ℕ)
    → s + header_size + 15 < 2 ^ 32
    → (take_chunk m s size 16).0 ≡ s + header_size + 15 - (s + header_size + 15) % 16
unfolding take_chunk
pointer_16 m s size h =
    let raw : add32 s header_size ≡ s + header_size = omega arith in
    rw raw (align_up_16 (s + header_size) h)

-- With one free chunk, below the last 16 bytes of the address space, whose payload does not start at a multiple of 16, and a request that fits
-- into the chunk only without the padding, `malloc` at alignment 16 returns a pointer from which
-- the requested bytes run past the end of the chunk.
pub malloc_16_overruns :
    (fuel : ℕ) (a : LinearAllocator) (size s n e : ℕ)
    → Represents a s ((n, false) ∷ []) e
    → 1 < fuel
    → e + 16 < 2 ^ 32
    → (s + header_size) % 16 ≢ 0
    → size < n
    → n < size + (16 - (s + header_size) % 16)
    → (p : ℕ) × (a' : LinearAllocator) × (malloc fuel a size 16 ≡ some (p, a'))
      × (behind s n < p + size)
unfolding malloc
malloc_16_overruns fuel a size s n e r enough top off fit tight =
    let fits_here : first_fit size s ((n, false) ∷ []) ≡ s =
      first_fit-fits size s n [] (lt→ltb _ _ fit) in
    let found : find_chunk fuel a.mem a.m_first size ≡ some s =
      rw r.first (find_chunk_lem fuel a.mem size 0 s _ e r.not_null r.layout enough)
      ∙ ap some fits_here in
    (
      (take_chunk a.mem s size 16).0,
      record a { mem = (take_chunk a.mem s size 16).1 },
      rw found (give-pos a s size 16 r.not_null),
      rw (pointer_16 a.mem s size (omega arith)) (omega arith),
    )
