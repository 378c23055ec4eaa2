-- ===== src/Pci/Examples.antt =====
-- Tests: a configuration space in memory, with one register of 128 KB.
use pingu_os.Common.{
  ℕ, ◌+◌, ◌*◌, ◌≡◌, ◌≢◌, refl, ap, ◌∙◌, arith, inr, false, Option, none, [], ◌==◌, if◌then◌else◌,
}
use pingu_os.Port.{Ports}
use pingu_os.Pci.{
  Function, mm, PciDeviceDescriptor, compute_id, get_device_descriptor, get_base_address_register,
  command_port,
}
use pingu_os.Pci.Config.{IsConfig, Described, get_device_descriptor-Described}
use pingu_os.Pci.Bars.{IsMemoryBar, found, get_base_address_register-found}
use pingu_os.Pci.Drivers.{note_registers}
use pingu_os.Pci.Selection.{with_memory, first_useful, registers_at, note_registers-first_useful}

record Space : Type 0 where
  selected : ℕ
  words : ℕ → ℕ

abbrev card : Function
card = record { bus = 0; device = 3; function = 0 }

-- `compute_id card 0x10`
abbrev bar₀ : ℕ
bar₀ = 0x80001810

abbrev settle : ℕ → ℕ → ℕ
settle id v = if id == bar₀ then (if v == 0xFFFFFFFF then 0xFFFE0008 else v) else v

abbrev space : Ports Space
space = record {
  read = λ p port. (p.words p.selected, p);
  write = λ p port v.
      if port == command_port
      then record p { selected = v }
      else record p { words = λ i. if i == p.selected then settle p.selected v else p.words i };
}

elsewhere :
    (p : Space) (id v : ℕ)
    → id ≢ p.selected
    → (if id == p.selected then settle p.selected v else p.words id) ≡ p.words id
elsewhere p id v ne = let other : (id == p.selected) ≡ false = ground arith in rw other refl

unfoldable space-IsConfig : IsConfig space
unfolding elsewhere
space-IsConfig = record {
  address = λ p. p.selected;
  word = λ p. p.words;
  selects = λ p id. refl;
  selecting_keeps = λ p id. refl;
  reads = λ p. refl;
  reading_keeps = λ p. refl;
  writes_there = λ p id v ne. elsewhere p id v ne;
}

there :
    (p : Space) (v : ℕ)
    → p.selected ≡ bar₀
    → (if bar₀ == p.selected then settle p.selected v else p.words bar₀) ≡ settle bar₀ v
there p v e = ap (λ (s : ℕ). if bar₀ == s then settle s v else p.words bar₀) e

card-IsMemoryBar : IsMemoryBar space-IsConfig card 0x10 0x20000 8
unfolding space-IsConfig compute_id
card-IsMemoryBar = record {
  lines = 0x2000;
  whole = refl;
  some_size = omega arith;
  fits = omega arith;
  plain = inr refl;
  sized = λ p e. there p 0xFFFFFFFF e;
  stored = λ p k e h.
      let other : (0x20000 * k + 8 == 0xFFFFFFFF) ≡ false = ground arith in
      there p (0x20000 * k + 8) e ∙ rw other refl;
}

-- The card at 0xFEBC0000.
abbrev start : Space
start = record {
  selected = 0;
  words = λ id. if id == bar₀ then 0xFEBC0008 else (if id == 0x80001800 then 0x100E8086 else 0);
}

get_base_address_register-found_example :
    let r = get_base_address_register space mm start card 0 in
    (r.0 ≡ found space-IsConfig 0x20000 8 0x7F5E)
    × (r.1 ≡ [])
    × (space-IsConfig.word r.2 ≡ space-IsConfig.word start)
unfolding space-IsConfig compute_id
get_base_address_register-found_example =
    get_base_address_register-found space-IsConfig mm start card 0 0x20000 8 0x7F5E refl
      (omega arith) card-IsMemoryBar (omega arith) refl

get_device_descriptor-Described_example :
    Described space-IsConfig start card (get_device_descriptor space mm start card).0
    × (space-IsConfig.word (get_device_descriptor space mm start card).1
        ≡ space-IsConfig.word start)
get_device_descriptor-Described_example =
    get_device_descriptor-Described space-IsConfig mm start card

-- No driver has a constructor here.
abbrev no_driver : Space → PciDeviceDescriptor → Option ℕ × Space
no_driver p dev = (none, p)

abbrev bare : PciDeviceDescriptor
bare = record {
  type = mm;
  port_base = 0;
  interrupt = 11;
  memory_base = 0;
  memory_size = 0;
  place = card;
  vendor_id = 0x8086;
  device_id = 0x100E;
  status = 0;
  command = 0;
  class_id = 0;
  subclass_id = 0;
  interface_id = 0;
  revision = 0;
}

note_registers-first_useful_example :
    (note_registers space no_driver mm 6 0 start card bare).0
    ≡ with_memory bare (first_useful (registers_at space no_driver mm 6 0 start card))
note_registers-first_useful_example =
    note_registers-first_useful space no_driver mm 6 0 start card bare refl
