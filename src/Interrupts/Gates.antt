-- ===== src/Interrupts/Gates.antt =====
-- What a gate of the descriptor table holds.
use Prim.Native.Nat.{bit_and, bit_or}
use pingu_os.Common.{ℕ, ◌+◌, ◌*◌, ◌/◌, ◌%◌, ◌^◌, ◌<◌, ◌≡◌, refl, ◌∙◌, ap, arith, shr}
use pingu_os.Common.Bits.{bit_and-ones, bit_or-disjoint}
use pingu_os.Interrupts.{gate, idt_interrupt_gate}

half : (x : ℕ) → bit_and x 0xFFFF ≡ x % 2 ^ 16
half x = bit_and-ones 16 x ∙ omega arith

level : (x : ℕ) → bit_and x 3 ≡ x % 4
level x = bit_and-ones 2 x ∙ omega arith

access_lem :
    (privilege : ℕ)
    → bit_or (bit_or 0x80 (2 ^ 5 * bit_and privilege 3)) 0xE ≡ 0x8E + 32 * (privilege % 4)
access_lem privilege =
    let bits = ap (λ n. bit_or (bit_or 0x80 (2 ^ 5 * n)) 0xE) (level privilege) in
    let inner : bit_or 0x80 (32 * (privilege % 4)) ≡ 0x80 + 32 * (privilege % 4) =
      bit_or-disjoint 7 1 (32 * (privilege % 4)) (omega arith) in
    let sixteen : 0x80 + 32 * (privilege % 4) ≡ 16 * (8 + 2 * (privilege % 4)) = omega arith in
    bits
    ∙ ap (λ n. bit_or n 0xE) (inner ∙ sixteen)
    ∙ bit_or-disjoint 4 (8 + 2 * (privilege % 4)) 0xE (omega arith)
    ∙ omega arith

-- A gate leads to the address that it was made with, for every 32-bit address, with the code
-- segment that it was made with; it is present, an interrupt gate, and its privilege level is the
-- lower two bits of the one that was asked for.
gate-fields :
    (code_segment addr privilege : ℕ)
    → addr < 2 ^ 32
    → let g = gate code_segment addr privilege idt_interrupt_gate in
      (2 ^ 16 * g.handler_addr_hi + g.handler_addr_lo ≡ addr)
      × (g.gdt_code_segment_selector ≡ code_segment)
      × (g.access / 2 ^ 7 ≡ 1)
      × (g.access / 2 ^ 5 % 4 ≡ privilege % 4)
      × (g.access % 2 ^ 5 ≡ idt_interrupt_gate)
unfolding gate
gate-fields code_segment addr privilege word =
    rw (half addr, half (shr addr 16), access_lem privilege)
      (omega (arith, word), refl, omega arith, omega arith, omega arith)
