-- ===== src/Pci/Bars.antt =====
-- `get_base_address_register` of src/hardware_communication/pci.cpp: the size of a memory register.
use Prim.Native.Nat.{bit_and}
use pingu_os.Common.{
  ℕ, ◌+◌, ◌-◌, ◌*◌, ◌/◌, ◌%◌, ◌^◌, ◌<◌, ◌≡◌, ◌≢◌, ◌⊎◌, inl, inr, refl, sym, ap, ap₂, ◌∙◌, arith,
  Bool, false, [], ◌==◌, leb, shr,
}
use pingu_os.Common.Bits.{bit_and-field}
use mathlib.Core.Path.{fun_ext}
use native.Mathlib.Decide.{ℕ_discrete}
use pingu_os.Port.{Ports}
use pingu_os.Pci.{
  Function, BarType, mm, BaseAddressRegister, command_port, data_port, compute_id, read, write,
  size_of_mask, probe, memory_register, base_address, get_base_address_register, header_type_offset,
  bar_start_offset,
}
use pingu_os.Pci.Config.{IsConfig, at_offset, read_lem}

no_flags : (x : ℕ) → x < 2 ^ 32 → bit_and x 0xFFFFFFF0 ≡ 16 * (x / 16)
no_flags x h = omega (arith, bit_and-field 4 28 x)

low_bit : (x : ℕ) → bit_and x 0x01 ≡ x % 2
low_bit x = omega (arith, bit_and-field 0 1 x)

mode_bits : (x : ℕ) → bit_and (shr x 1) 0x3 ≡ x / 2 % 4
mode_bits x = omega (arith, bit_and-field 0 2 (shr x 1))

prefetch_bit : (x : ℕ) → bit_and (shr x 3) 0x01 ≡ x / 8 % 2
prefetch_bit x = omega (arith, bit_and-field 0 1 (shr x 3))

-- A register has the offset of a word.
bar_word : (i : ℕ) → bit_and (bar_start_offset + 4 * i) 2 ≡ 0
bar_word i = omega (arith, bit_and-field 1 1 (bar_start_offset + 4 * i))

flags_small : (flags : ℕ) → (flags ≡ 0) ⊎ (flags ≡ 8) → (flags < 16) × (flags % 8 ≡ 0)
flags_small flags (inl e) = (omega (arith, e), omega (arith, e))
flags_small flags (inr e) = (omega (arith, e), omega (arith, e))

prefetch_lem :
    (flags x : ℕ) → (flags ≡ 0) ⊎ (flags ≡ 8) → x ≡ flags / 8 → (x == 0x01) ≡ (flags == 8)
prefetch_lem flags x (inl e) h = let none : x ≡ 0 = omega (arith, h, e) in rw (none, e) refl
prefetch_lem flags x (inr e) h = let one : x ≡ 1 = omega (arith, h, e) in rw (one, e) refl

-- The bits of a register with such flags.
register_bits :
    (size flags k lines : ℕ)
    → size ≡ 16 * lines
    → (flags ≡ 0) ⊎ (flags ≡ 8)
    → size * k + flags < 2 ^ 32
    → let v = size * k + flags in
      (bit_and v 0x01 ≡ 0)
      × (bit_and (shr v 1) 0x3 ≡ 0)
      × ((bit_and (shr v 3) 0x01 == 0x01) ≡ (flags == 8))
      × (bit_and v 0xFFFFFFF0 ≡ size * k)
register_bits size flags k lines whole plain h =
    let v = size * k + flags in
    let small = flags_small flags plain in
    let product : size * k ≡ 16 * (lines * k) = ap (λ (t : ℕ). t * k) whole ∙ omega arith in
    (
      omega (arith, low_bit v, product, small),
      omega (arith, mode_bits v, product, small),
      prefetch_lem flags (bit_and (shr v 3) 0x01) plain
          (omega (arith, prefetch_bit v, product, small)),
      omega (arith, no_flags v h, product, small),
    )

size_of_mask_lem :
    (size flags lines : ℕ)
    → size ≡ 16 * lines
    → (flags ≡ 0) ⊎ (flags ≡ 8)
    → 0 < size
    → size < 2 ^ 32
    → size_of_mask (2 ^ 32 - size + flags) ≡ size
unfolding size_of_mask
size_of_mask_lem size flags lines whole plain some fits =
    let small = flags_small flags plain in
    omega (arith, no_flags (2 ^ 32 - size + flags) (omega (arith, whole, small)), whole, small)

-- The words but the one at an address agree.
abbrev pub SameElsewhere : ℕ → (ℕ → ℕ) → (ℕ → ℕ) → Type 0
SameElsewhere id a b = (i : ℕ) → i ≢ id → a i ≡ b i

module _ {P : Type 0} {ports : Ports P} (config : IsConfig ports) where
  open config use {word, address}

  -- A memory register with `size` bytes behind it, a multiple of 16: its low bits are `flags`, and
  -- of an address it keeps what is a multiple of the size.
  pub record IsMemoryBar (f : Function) (offset size flags : ℕ) : Type 0 where
    pub lines : ℕ
    pub whole : size ≡ 16 * lines
    pub some_size : 0 < size
    pub fits : size < 2 ^ 32
    pub plain : (flags ≡ 0) ⊎ (flags ≡ 8)
    pub sized :
        (p : P)
        → address p ≡ compute_id f offset
        → at_offset (word (ports.write p data_port 0xFFFFFFFF)) f offset ≡ 2 ^ 32 - size + flags
    pub stored :
        (p : P) (k : ℕ)
        → address p ≡ compute_id f offset
        → size * k + flags < 2 ^ 32
        → at_offset (word (ports.write p data_port (size * k + flags))) f offset ≡ size * k + flags

  write_elsewhere :
      (p : P) (f : Function) (offset v : ℕ)
      → SameElsewhere (compute_id f offset) (word (write ports p f offset v)) (word p)
  unfolding write
  write_elsewhere p f offset v i ne =
      let id = compute_id f offset in
      let p₁ = ports.write p command_port id in
      config.writes_there p₁ i v (λ e. ne (e ∙ config.selects p id))
      ∙ ap (λ (w : ℕ → ℕ). w i) (config.selecting_keeps p id)

  -- The probe of a register finds the mask, and puts back what was there.
  probe_lem :
      (p : P) (f : Function) (offset size flags k : ℕ)
      → IsMemoryBar f offset size flags
      → bit_and offset 2 ≡ 0
      → size * k + flags < 2 ^ 32
      → at_offset (word p) f offset ≡ size * k + flags
      → ((probe ports p f offset (size * k + flags)).0 ≡ 2 ^ 32 - size + flags)
        × (word (probe ports p f offset (size * k + flags)).1 ≡ word p)
  unfolding probe
  probe_lem p f offset size flags k bar aligned word_size there =
      let id = compute_id f offset in
      let v = size * k + flags in
      let p₁ = write ports p f offset 0xFFFFFFFF in
      let r = read_lem config p₁ f offset in
      let p₂ = (read ports p₁ f offset).1 in
      let p₃ = write ports p₂ f offset v in
      let mask : word p₁ id ≡ 2 ^ 32 - size + flags =
        unfold write in (bar.sized (ports.write p command_port id) (config.selects p id)) in
      let back : word p₃ id ≡ v =
        unfold write in
        (bar.stored (ports.write p₂ command_port id) k (config.selects p₂ id) word_size) in
      let same : (i : ℕ) → word p₃ i ≡ word p i = λ i. elim (ℕ_discrete i id) [
        | yes e ↦ ap (word p₃) e ∙ back ∙ sym there ∙ ap (word p) (sym e)
        | no ne ↦
            write_elsewhere p₂ f offset v i ne
            ∙ ap (λ (w : ℕ → ℕ). w i) r.1
            ∙ write_elsewhere p f offset 0xFFFFFFFF i ne
      ] in
      (r.0 ∙ ap (λ (b : ℕ). shr (word p₁ id) (b * 8)) aligned ∙ omega (arith, mask), fun_ext same)

  -- A memory register of 32 bits.
  abbrev pub found : ℕ → ℕ → ℕ → BaseAddressRegister
  found size flags k = record { prefetchable = flags == 8; addr = size * k; size = size; type = mm }

  base_address_lem :
      (p : P) (f : Function) (offset size flags k : ℕ)
      → IsMemoryBar f offset size flags
      → bit_and offset 2 ≡ 0
      → size * k + flags < 2 ^ 32
      → at_offset (word p) f offset ≡ size * k + flags
      → ((base_address ports p f offset).0 ≡ found size flags k)
        × ((base_address ports p f offset).1 ≡ [])
        × (word (base_address ports p f offset).2 ≡ word p)
  unfolding base_address memory_register
  base_address_lem p f offset size flags k bar aligned word_size there =
      let v = size * k + flags in
      let r = read_lem config p f offset in
      let value : (read ports p f offset).0 ≡ v =
        r.0
        ∙ ap (λ (b : ℕ). shr (at_offset (word p) f offset) (b * 8)) aligned
        ∙ omega (arith, there) in
      let p₁ = (read ports p f offset).1 in
      let m =
        probe_lem p₁ f offset size flags k bar aligned word_size
          (ap (λ (w : ℕ → ℕ). at_offset w f offset) r.1 ∙ there) in
      let b = register_bits size flags k bar.lines bar.whole bar.plain word_size in
      let full = size_of_mask_lem size flags bar.lines bar.whole bar.plain bar.some_size bar.fits in
      rw (value, b.0, b.1, m.0)
        (
          ap₂
                (λ (q : Bool) (a : ℕ). record {
                  prefetchable = q;
                  addr = a;
                  size = size_of_mask (2 ^ 32 - size + flags);
                  type = mm;
                })
                b.2 b.3
              ∙ ap
                  (λ (n : ℕ). record {
                    prefetchable = flags == 8;
                    addr = size * k;
                    size = n;
                    type = mm;
                  })
                  full,
          refl,
          m.1 ∙ r.1,
        )

  -- At a function with a header of type 0, a memory register of 32 bits, prefetchable or not, is
  -- reported with its address, which is a multiple of its size, with its size, and with no warning;
  -- no register of the function or of another one has changed afterwards.
  pub get_base_address_register-found :
      (unset : BarType) (p : P) (f : Function) (i size flags k : ℕ)
      → at_offset (word p) f header_type_offset / 2 ^ 16 % 2 ^ 7 ≡ 0
      → i < 6
      → IsMemoryBar f (bar_start_offset + 4 * i) size flags
      → size * k + flags < 2 ^ 32
      → at_offset (word p) f (bar_start_offset + 4 * i) ≡ size * k + flags
      → ((get_base_address_register ports unset p f i).0 ≡ found size flags k)
        × ((get_base_address_register ports unset p f i).1 ≡ [])
        × (word (get_base_address_register ports unset p f i).2 ≡ word p)
  unfolding get_base_address_register
  get_base_address_register-found unset p f i size flags k plain_header six bar word_size there =
      let r = read_lem config p f header_type_offset in
      let header = (read ports p f header_type_offset).0 in
      let type : bit_and header 0x7F ≡ 0 =
        omega (arith, bit_and-field 0 7 header, r.0, plain_header) in
      let inside : leb (6 - 4 * 0) i ≡ false = ground arith in
      let p₁ = (read ports p f header_type_offset).1 in
      let b =
        base_address_lem p₁ f (bar_start_offset + 4 * i) size flags k bar (bar_word i) word_size
          (ap (λ (w : ℕ → ℕ). at_offset w f (bar_start_offset + 4 * i)) r.1 ∙ there) in
      rw (type, inside) (b.0, b.1, b.2 ∙ r.1)
