-- ===== src/Pci/Config.antt =====
-- What src/hardware_communication/pci.cpp relies on: the configuration space behind its two ports.
use Prim.Native.Nat.{bit_and}
use pingu_os.Common.{ℕ, ◌*◌, ◌/◌, ◌%◌, ◌^◌, ◌≡◌, ◌≢◌, refl, ap, ◌∙◌, arith, shr}
use pingu_os.Port.{Ports}
use pingu_os.Pci.{
  Function, BarType, PciDeviceDescriptor, command_port, data_port, compute_id, read,
  get_device_descriptor, class_id_offset, command_offset, device_id_offset, interface_id_offset,
  interrupt_offset, revision_offset, status_offset, subclass_id_offset, vendor_id_offset,
}

-- The address that is selected, and the word at each address.
pub record IsConfig {P : Type 0} (ports : Ports P) : Type 0 where
  pub address : P → ℕ
  pub word : P → ℕ → ℕ
  pub selects : (p : P) (id : ℕ) → address (ports.write p command_port id) ≡ id
  pub selecting_keeps : (p : P) (id : ℕ) → word (ports.write p command_port id) ≡ word p
  pub reads : (p : P) → (ports.read p data_port).0 ≡ word p (address p)
  pub reading_keeps : (p : P) → word (ports.read p data_port).1 ≡ word p
  pub writes_there :
      (p : P) (id v : ℕ) → id ≢ address p → word (ports.write p data_port v) id ≡ word p id

-- The words of a header: what stands at an offset, and the bytes from the offset on.
abbrev pub at_offset : (ℕ → ℕ) → Function → ℕ → ℕ
at_offset word f offset = word (compute_id f offset)

module _ {P : Type 0} {ports : Ports P} (config : IsConfig ports) where
  open config use {word, address}

  pub read_lem :
      (p : P) (f : Function) (offset : ℕ)
      → ((read ports p f offset).0 ≡ shr (at_offset (word p) f offset) (bit_and offset 2 * 8))
        × (word (read ports p f offset).1 ≡ word p)
  unfolding read
  read_lem p f offset =
      let id = compute_id f offset in
      let p₁ = ports.write p command_port id in
      (
        ap (λ (w : ℕ). shr w (bit_and offset 2 * 8))
            (config.reads p₁
              ∙ ap (word p₁) (config.selects p id)
              ∙ ap (λ (w : ℕ → ℕ). w id) (config.selecting_keeps p id)),
        config.reading_keeps p₁ ∙ config.selecting_keeps p id,
      )

  -- The same after a state with the same words.
  pub read_same :
      (p q : P) (f : Function) (offset : ℕ)
      → word q ≡ word p
      → ((read ports q f offset).0 ≡ shr (at_offset (word p) f offset) (bit_and offset 2 * 8))
        × (word (read ports q f offset).1 ≡ word p)
  read_same p q f offset same =
      let r = read_lem q f offset in
      (r.0 ∙ ap (λ (w : ℕ → ℕ). shr (at_offset w f offset) (bit_and offset 2 * 8)) same, r.1 ∙ same)

  -- What the descriptor of a function holds, in terms of the 32-bit words of its header.
  pub record Described (p : P) (f : Function) (d : PciDeviceDescriptor) : Type 0 where
    pub vendor_id : d.vendor_id ≡ at_offset (word p) f 0x00 % 2 ^ 16
    pub device_id : d.device_id ≡ at_offset (word p) f 0x00 / 2 ^ 16 % 2 ^ 16
    pub command : d.command ≡ at_offset (word p) f 0x04 % 2 ^ 16
    pub status : d.status ≡ at_offset (word p) f 0x04 / 2 ^ 16 % 2 ^ 16
    pub revision : d.revision ≡ at_offset (word p) f 0x08 % 2 ^ 8
    pub interface_id : d.interface_id ≡ at_offset (word p) f 0x08 % 2 ^ 8
    pub subclass_id : d.subclass_id ≡ at_offset (word p) f 0x08 / 2 ^ 16 % 2 ^ 8
    pub class_id : d.class_id ≡ at_offset (word p) f 0x08 / 2 ^ 16 % 2 ^ 8
    pub interrupt : d.interrupt ≡ at_offset (word p) f 0x3C
    pub place : d.place ≡ f

  -- The ids of vendor and device, the status, the command and the revision of a descriptor are those
  -- of the header, and the interrupt is the whole last word of it. The interface is the byte of the
  -- revision, and the class the byte of the subclass: a read shifts by whole halves of a word only.
  -- Reading changes no register.
  pub get_device_descriptor-Described :
      (unset : BarType) (p : P) (f : Function)
      → Described p f (get_device_descriptor ports unset p f).0
        × (word (get_device_descriptor ports unset p f).1 ≡ word p)
  unfolding get_device_descriptor compute_id
  get_device_descriptor-Described unset p f =
      let q₁ = (read ports p f vendor_id_offset).1 in
      let q₂ = (read ports q₁ f device_id_offset).1 in
      let q₃ = (read ports q₂ f class_id_offset).1 in
      let q₄ = (read ports q₃ f subclass_id_offset).1 in
      let q₅ = (read ports q₄ f interface_id_offset).1 in
      let q₆ = (read ports q₅ f status_offset).1 in
      let q₇ = (read ports q₆ f command_offset).1 in
      let q₈ = (read ports q₇ f revision_offset).1 in
      let r₁ = read_lem p f vendor_id_offset in
      let r₂ = read_same p q₁ f device_id_offset r₁.1 in
      let r₃ = read_same p q₂ f class_id_offset r₂.1 in
      let r₄ = read_same p q₃ f subclass_id_offset r₃.1 in
      let r₅ = read_same p q₄ f interface_id_offset r₄.1 in
      let r₆ = read_same p q₅ f status_offset r₅.1 in
      let r₇ = read_same p q₆ f command_offset r₆.1 in
      let r₈ = read_same p q₇ f revision_offset r₇.1 in
      let r₉ = read_same p q₈ f interrupt_offset r₈.1 in
      (
        record {
          vendor_id = ap (λ (v : ℕ). v % 2 ^ 16) r₁.0 ∙ omega arith;
          device_id = ap (λ (v : ℕ). v % 2 ^ 16) r₂.0;
          command = ap (λ (v : ℕ). v % 2 ^ 16) r₇.0 ∙ omega arith;
          status = ap (λ (v : ℕ). v % 2 ^ 16) r₆.0;
          revision = ap (λ (v : ℕ). v % 2 ^ 8) r₈.0 ∙ omega arith;
          interface_id = ap (λ (v : ℕ). v % 2 ^ 8) r₅.0 ∙ omega arith;
          subclass_id = ap (λ (v : ℕ). v % 2 ^ 8) r₄.0;
          class_id = ap (λ (v : ℕ). v % 2 ^ 8) r₃.0;
          interrupt = r₉.0 ∙ omega arith;
          place = refl;
        },
        r₉.1,
      )
