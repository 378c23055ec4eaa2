-- ===== src/Pci/Selection.antt =====
-- What `select_drivers` of src/hardware_communication/pci.cpp takes from the registers of a function.
use Prim.Native.Nat.{bit_and}
use pingu_os.Common.{
  ℕ, zero, suc, ◌+◌, ◌-◌, ◌*◌, ◌≡◌, ◌≢◌, ◌⊎◌, inl, inr, refl, sym, ap, ◌∙◌, arith, Bool, true,
  false, not, ◌&&◌, Bool-cases, Option, none, some, List, [], ◌∷◌, ◌==◌, leb, if◌then◌else◌, shr,
  set,
}
use pingu_os.Port.{Ports}
use pingu_os.Pci.{
  Function, BarType, mm, BaseAddressRegister, PciDeviceDescriptor, MemoryMapMode, b32, b20, b64,
  unnamed, read, probe, mode_of, wide_register, memory_register, base_address,
  get_base_address_register, header_type_offset, bar_start_offset,
}
use pingu_os.Pci.Drivers.{noted, note_register, note_registers}

-- A register of input and output, or one that is not there, has the size 0.
abbrev pub IsUseless : BarType → BaseAddressRegister → Type 0
IsUseless unset bar = (bar.type ≡ mm) ⊎ (bar.size ≡ 0)

module _ {P : Type 0} (ports : Ports P) where
  memory_register-type :
      (p : P) (f : Function) (offset value mask : ℕ) (r : BaseAddressRegister)
      (mode : MemoryMapMode)
      → (memory_register ports p f offset value mask r mode).0.type ≡ r.type
  unfolding memory_register wide_register
  memory_register-type p f offset value mask r b32 = refl
  memory_register-type p f offset value mask r b20 = refl
  memory_register-type p f offset value mask r unnamed = refl
  memory_register-type p f offset value mask r b64 =
      elim (Bool-cases (not ((read ports p f (offset + 4)).0 == 0))) [
        | inl high ↦ rw high refl
        | inr low ↦ rw low refl
      ]

  base_address-IsUseless :
      (unset : BarType) (p : P) (f : Function) (offset : ℕ)
      → IsUseless unset (base_address ports p f offset).0
  unfolding base_address
  base_address-IsUseless unset p f offset =
      let value = (read ports p f offset).0 in
      let p₂ = probe ports (read ports p f offset).1 f offset value in
      let r : BaseAddressRegister = record {
        prefetchable = bit_and (shr value 3) 0x01 == 0x01;
        addr = 0;
        size = 0;
        type = mm;
      } in
      elim (Bool-cases (bit_and value 0x01 == 0)) [
        | inl memory ↦
            rw memory (inl (memory_register-type p₂.1 f offset value p₂.0 r (mode_of value)))
        | inr input ↦ rw input (inr refl)
      ]

  get_base_address_register-IsUseless :
      (unset : BarType) (p : P) (f : Function) (i : ℕ)
      → IsUseless unset (get_base_address_register ports unset p f i).0
  unfolding get_base_address_register
  get_base_address_register-IsUseless unset p f i =
      let header = read ports p f header_type_offset in
      elim (Bool-cases (leb (6 - 4 * bit_and header.0 0x7F) i)) [
        | inl absent ↦ rw absent (inr refl)
        | inr there ↦ rw there (base_address-IsUseless unset header.1 f (bar_start_offset + 4 * i))
      ]

-- A memory register with an address and a size.
abbrev pub is_useful : BaseAddressRegister → Bool
is_useful bar = not (bar.addr == 0) && not (bar.size == 0)

abbrev pub first_useful : List BaseAddressRegister → Option BaseAddressRegister
first_useful [] = none
first_useful (bar ∷ bars) = let rest = first_useful bars in if is_useful bar then some bar else rest

abbrev pub with_memory : PciDeviceDescriptor → Option BaseAddressRegister → PciDeviceDescriptor
with_memory dev none = dev
with_memory dev (some bar) = record dev {
  type = mm;
  memory_base = bar.addr;
  memory_size = bar.size;
}

-- With a memory register noted, no other one is.
kept :
    (dev : PciDeviceDescriptor) (unset : BarType) (bar : BaseAddressRegister)
    → dev.memory_base ≢ 0
    → IsUseless unset bar
    → note_register dev bar ≡ dev
unfolding note_register
kept dev unset bar set (inl e) =
    let full : (dev.memory_base == 0) ≡ false = ground arith in rw e (rw full (ground arith))
kept dev unset bar set (inr e) = rw e (ground arith)

taken :
    (dev : PciDeviceDescriptor) (unset : BarType) (bar : BaseAddressRegister)
    → dev.memory_base ≡ 0
    → IsUseless unset bar
    → note_register dev bar ≡ (if is_useful bar then with_memory dev (some bar) else dev)
unfolding note_register
taken dev unset bar empty (inl e) =
    let free : (dev.memory_base == 0) ≡ true = ground arith in
    elim (Bool-cases (is_useful bar)) [
      | inl useful ↦ rw useful (ap (noted dev bar) e ∙ rw free refl)
      | inr useless ↦ rw useless refl
    ]
taken dev unset bar empty (inr e) = rw e (ground arith)

useful_addr : (bar : BaseAddressRegister) → is_useful bar ≡ true → bar.addr ≢ 0
useful_addr bar h = λ e. cc (useless_addr bar.addr bar.size e)
  where
    useless_addr : (a n : ℕ) → a ≡ 0 → (not (a == 0) && not (n == 0)) ≡ false
    useless_addr a n e = ground arith

module _ {P : Type 0} (ports : Ports P) (construct : P → PciDeviceDescriptor → Option ℕ × P)
    (unset : BarType) where
  -- The registers as they are read one after the other.
  pub registers_at : ℕ → ℕ → P → Function → List BaseAddressRegister
  registers_at zero i p f = []
  registers_at (suc rounds) i p f =
      let r = get_base_address_register ports unset p f i in r.0 ∷ registers_at rounds (i + 1) r.2 f

  note_registers-full :
      (rounds i : ℕ) (p : P) (f : Function) (dev : PciDeviceDescriptor)
      → dev.memory_base ≢ 0
      → (note_registers ports construct unset rounds i p f dev).0 ≡ dev
  unfolding note_registers
  note_registers-full zero i p f dev full = refl
  note_registers-full (suc rounds) i p f dev full =
      let r = get_base_address_register ports unset p f i in
      let same = kept dev unset r.0 full (get_base_address_register-IsUseless ports unset p f i) in
      ap (λ d. (note_registers ports construct unset rounds (i + 1) r.2 f d).0) same
      ∙ note_registers-full rounds (i + 1) r.2 f dev full

  -- Of the registers of a function, a descriptor without memory gets the first memory register that
  -- has an address and a size, and nothing else: whatever the registers hold, no port is ever noted,
  -- since the size of a register of input and output is left 0.
  pub note_registers-first_useful :
      (rounds i : ℕ) (p : P) (f : Function) (dev : PciDeviceDescriptor)
      → dev.memory_base ≡ 0
      → (note_registers ports construct unset rounds i p f dev).0
        ≡ with_memory dev (first_useful (registers_at rounds i p f))
  unfolding note_registers registers_at
  note_registers-first_useful zero i p f dev empty = refl
  note_registers-first_useful (suc rounds) i p f dev empty =
      let r = get_base_address_register ports unset p f i in
      let bar = r.0 in
      let rest = λ (d : PciDeviceDescriptor).
        (note_registers ports construct unset rounds (i + 1) r.2 f d).0 in
      let bars = registers_at rounds (i + 1) r.2 f in
      let now = taken dev unset bar empty (get_base_address_register-IsUseless ports unset p f i) in
      elim (Bool-cases (is_useful bar)) [
        | inl useful ↦
            let dev' = with_memory dev (some bar) in
            ap rest (now ∙ ap (λ b. if b then dev' else dev) useful)
            ∙ note_registers-full rounds (i + 1) r.2 f dev' (useful_addr bar useful)
            ∙ ap (λ b. with_memory dev (if b then some bar else first_useful bars)) (sym useful)
        | inr useless ↦
            ap rest (now ∙ ap (λ b. if b then with_memory dev (some bar) else dev) useless)
            ∙ note_registers-first_useful rounds (i + 1) r.2 f dev empty
            ∙ ap (λ b. with_memory dev (if b then some bar else first_useful bars)) (sym useless)
      ]
