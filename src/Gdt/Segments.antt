-- ===== src/Gdt/Segments.antt =====
-- What can be read back from a descriptor.
use Prim.Native.Nat.{bit_and, bit_or}
use pingu_os.Common.{
  ℕ, ◌+◌, ◌*◌, ◌/◌, ◌%◌, ◌^◌, ◌≤◌, ◌<◌, ◌≡◌, ◌∙◌, ap, arith, Bool-cases, inl, inr, leb, leb→le,
  if◌then◌else◌, shr, byte_at, mul32,
}
use pingu_os.Common.Bits.{bit_and-ones, bit_and-field, bit_or-disjoint, low}
use pingu_os.Gdt.{encoded, pages, segment_descriptor, base_of, limit_of}

base_of-encoded :
    (base limit flags hi : ℕ) → base < 2 ^ 32 → base_of (encoded base limit flags hi) ≡ base
unfolding base_of
base_of-encoded base limit flags hi word = omega (arith, word)

-- The base of a descriptor is the base that it was made with, for every 32-bit base, whatever the
-- limit and the flags.
base_of-segment_descriptor :
    (base limit flags : ℕ) → base < 2 ^ 32 → base_of (segment_descriptor base limit flags) ≡ base
unfolding segment_descriptor
base_of-segment_descriptor base limit flags word = elim (Bool-cases (leb limit (2 ^ 16))) [
  | inl small ↦ rw small (base_of-encoded base limit flags 0x40 word)
  | inr big ↦ rw big (base_of-encoded base (pages limit) flags 0xC0 word)
]

nibble : (x : ℕ) → bit_and x 0xF ≡ x % 16
nibble x = bit_and-ones 4 x ∙ omega arith

-- The flags byte, and what is read from it.
flags_or : (q n : ℕ) → n < 16 → bit_or (16 * q) n ≡ 16 * q + n
flags_or q n h = bit_or-disjoint 4 q n h

size_flags : (x : ℕ) → bit_and x 0xC0 ≡ 64 * (x / 64 % 4)
size_flags x = bit_and-field 6 2 x ∙ omega arith

page_bits : (y : ℕ) → bit_and (mul32 y (2 ^ 12)) 0xFFF ≡ 0
page_bits y =
    let whole : mul32 y (2 ^ 12) ≡ 4096 * (y % 2 ^ 20) = omega arith in
    rw whole (bit_and-ones 12 (4096 * (y % 2 ^ 20)) ∙ none_low (y % 2 ^ 20))
  where
    none_low : (q : ℕ) → low 12 (4096 * q) ≡ 0
    none_low q = omega arith

limit_of-bytes :
    (base limit flags : ℕ) → limit ≤ 2 ^ 16 → limit_of (encoded base limit flags 0x40) ≡ limit
unfolding limit_of
limit_of-bytes base limit flags small =
    let n = shr limit 16 % 16 in
    let hi = bit_or 0x40 (bit_and (shr limit 16) 0xF) in
    let byte : hi ≡ 64 + n =
      ap (bit_or 0x40) (nibble (shr limit 16)) ∙ flags_or 4 n (omega arith) in
    let low_part : bit_and hi 0xF ≡ n =
      ap (λ x. bit_and x 0xF) byte ∙ nibble (64 + n) ∙ omega arith in
    let size : bit_and hi 0xC0 ≡ 64 =
      ap (λ x. bit_and x 0xC0) byte ∙ size_flags (64 + n) ∙ omega arith in
    rw (size, low_part) (omega (arith, small))

limit_of-pages : (base limit flags : ℕ) → limit_of (encoded base limit flags 0xC0) ≡ 0
unfolding limit_of
limit_of-pages base limit flags =
    let n = shr limit 16 % 16 in
    let hi = bit_or 0xC0 (bit_and (shr limit 16) 0xF) in
    let byte : hi ≡ 192 + n =
      ap (bit_or 0xC0) (nibble (shr limit 16)) ∙ flags_or 12 n (omega arith) in
    let size : bit_and hi 0xC0 ≡ 192 =
      ap (λ x. bit_and x 0xC0) byte ∙ size_flags (192 + n) ∙ omega arith in
    rw size (page_bits (2 ^ 16 * bit_and hi 0xF + 2 ^ 8 * byte_at limit 8 + byte_at limit 0))

-- The limit of a descriptor is read back if it is at most 64 KB. For a larger limit, which is
-- stored in pages, what is read is 0.
pub limit_of-segment_descriptor :
    (base limit flags : ℕ)
    → limit_of (segment_descriptor base limit flags) ≡ (if leb limit (2 ^ 16) then limit else 0)
unfolding segment_descriptor
limit_of-segment_descriptor base limit flags = elim (Bool-cases (leb limit (2 ^ 16))) [
  | inl small ↦ rw small (limit_of-bytes base limit flags (leb→le limit (2 ^ 16) small))
  | inr big ↦ rw big (limit_of-pages base (pages limit) flags)
]
