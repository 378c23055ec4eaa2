-- ===== src/Drivers/Intel82540em.antt =====
-- `Intel_82540EM` of src/drivers/intel_82540em.cpp: the registers and the rings of descriptors.
pub mod Control
pub mod Setup
pub mod Receiving
pub mod Missing
mod Examples
use Prim.Native.Nat.{bit_and, bit_or}
use pingu_os.Common.{
  ℕ, zero, suc, ◌+◌, ◌-◌, ◌*◌, ◌%◌, ◌^◌, Bool, true, false, not, Option, none, some, [], ◌∷◌, ◌++◌,
  ◌==◌, if◌then◌else◌, get_or, length, shr,
}
use pingu_os.Common.Bytes.{Bytes, codes, c_string}
use pingu_os.Port.{Ports}
use pingu_os.MemoryManagement.{LinearAllocator}

pub record RxDescriptor : Type 0 where
  pub buf_addr_lo : ℕ
  pub buf_addr_hi : ℕ
  pub len : ℕ
  pub checksum : ℕ
  pub status : ℕ
  pub err : ℕ
  pub special : ℕ

pub record TxDescriptor : Type 0 where
  pub buf_addr_lo : ℕ
  pub buf_addr_hi : ℕ
  pub len : ℕ
  pub cso : ℕ
  pub cmd : ℕ
  pub status : ℕ
  pub checksum : ℕ
  pub special : ℕ

abbrev pub descriptor_size : ℕ
descriptor_size = 16

abbrev pub rx_ring_size : ℕ
rx_ring_size = 256

abbrev pub tx_ring_size : ℕ
tx_ring_size = 256

-- The driver with what it reaches: the registers, the descriptors behind `m_rx_ring` and
-- `m_tx_ring`, the bytes of the buffers, the heap, and what has been printed.
pub record Nic (P : Type 0) : Type 0 where
  pub ports : P
  pub m_reg_base : ℕ
  pub m_mac_addr : Bytes
  pub m_rx_ring : ℕ
  pub m_tx_ring : ℕ
  pub rx : ℕ → RxDescriptor
  pub tx : ℕ → TxDescriptor
  pub memory : ℕ → ℕ
  pub heap : LinearAllocator
  pub printed : Bytes

abbrev pub rdt_offset : ℕ
rdt_offset = 0x2818

abbrev pub tdt_offset : ℕ
tdt_offset = 0x3818

abbrev pub icr_offset : ℕ
icr_offset = 0xC0

abbrev pub ims_offset : ℕ
ims_offset = 0xD0

abbrev pub line : Bytes → Bytes
line text = text ++ 0x0A ∷ []

abbrev pub is_set : ℕ → ℕ → Bool
is_set value bits = not (bit_and value bits == 0)

-- The bytes are copied one by one, from `at` on.
unfoldable pub copy : (ℕ → ℕ) → ℕ → Bytes → ℕ → ℕ
copy memory at [] = memory
copy memory at (b ∷ bytes) = copy (λ a. if a == at then b else memory a) (at + 1) bytes

-- The bytes at an address.
unfoldable pub bytes_at : (ℕ → ℕ) → ℕ → ℕ → Bytes
bytes_at memory at zero = []
bytes_at memory at (suc n) = memory at ∷ bytes_at memory (at + 1) n

-- A packet that has been received: a null is put behind it, and it is printed as a C string.
unfoldable pub print_packet : (ℕ → ℕ) → RxDescriptor → Bytes × (ℕ → ℕ)
unfolding bytes_at c_string
print_packet memory desc =
    let memory' : ℕ → ℕ = λ a. if a == desc.buf_addr_lo + desc.len then 0 else memory a in
    (c_string (bytes_at memory' desc.buf_addr_lo (desc.len + 1)), memory')

abbrev pub clear_status : (ℕ → RxDescriptor) → ℕ → ℕ → RxDescriptor
clear_status rx at i = if i == at then record (rx i) { status = 0 } else rx i

module _ {P : Type 0} (io : Ports P) where
  -- `READ_REG` and `WRITE_REG` of a register of the device.
  abbrev pub read_reg : Nic P → ℕ → ℕ × Nic P
  read_reg s offset =
      let (value, p) = io.read s.ports (s.m_reg_base + offset) in (value, record s { ports = p })

  abbrev pub write_reg : Nic P → ℕ → ℕ → Nic P
  write_reg s offset value = record s { ports = io.write s.ports (s.m_reg_base + offset) value }

  -- The loop of `handle_rx`; `none` if it goes on after `fuel` rounds.
  unfoldable pub rx_loop : ℕ → Nic P → ℕ → Option (ℕ × Nic P)
  rx_loop zero s next_rdt = none
  rx_loop (suc fuel) s next_rdt =
      let desc = s.rx next_rdt in
      let (text, memory) = print_packet s.memory desc in
      let s' : Nic P = record s {
        memory = memory;
        rx = clear_status s.rx next_rdt;
        printed = s.printed ++ text;
      } in
      let rest = rx_loop fuel s' ((next_rdt + 1) % rx_ring_size) in
      if is_set desc.status 1 then rest else some (next_rdt, s)

  -- The new tail is written.
  unfoldable pub finish_rx : Option (ℕ × Nic P) → Option (Nic P)
  finish_rx none = none
  finish_rx (some (next_rdt, s)) = some (write_reg s rdt_offset next_rdt)

  unfoldable pub handle_rx : ℕ → Nic P → Option (Nic P)
  unfolding finish_rx
  handle_rx fuel s =
      let (rdt, s₁) = read_reg s rdt_offset in
      finish_rx (rx_loop fuel s₁ ((rdt + 1) % rx_ring_size))

  -- `device` is what the device has made of the ring when it is looked at after the tail is written.
  unfoldable pub send_packet : ((ℕ → TxDescriptor) → ℕ → TxDescriptor) → Nic P → Bytes → Nic P
  send_packet device s bytes =
      let (tdt, s₁) = read_reg s tdt_offset in
      let desc = s₁.tx tdt in
      let sent : TxDescriptor = record desc { len = length bytes; cmd = 0xB; status = 0 } in
      let s₂ : Nic P = record s₁ {
        memory = copy s₁.memory desc.buf_addr_lo bytes;
        tx = λ i. if i == tdt then sent else s₁.tx i;
      } in
      let s₃ = write_reg s₂ tdt_offset ((tdt + 1) % tx_ring_size) in
      let ring = device s₃.tx in
      if not (is_set desc.status 0x1)
      then record s₁ { printed = s₁.printed ++ line (codes "TX ring full!") }
      else record s₃ {
        tx = ring;
        printed =
            s₃.printed
            ++ (if is_set (ring tdt).status 0x1 then line (codes "Descriptor done") else []);
      }

  unfoldable pub enable_interrupts : Nic P → Nic P
  enable_interrupts s = write_reg (write_reg s icr_offset 0xFFFFFFFF) ims_offset 0x8087

  abbrev pub say : Nic P → Bytes → Nic P
  say s text = record s { printed = s.printed ++ text }

  abbrev pub say_if : Bool → Nic P → Bytes → Nic P
  say_if test s text = if test then say s text else s

  unfoldable pub end_interrupt : ℕ → Nic P → Nic P
  end_interrupt interrupts s =
      let s₁ = say_if (is_set interrupts 0x4) s (codes "Link status interrupt ") in
      let s₂ = say_if (is_set interrupts 0x1) s₁ (codes "Transmission Complete ") in
      say s₂ (0x0A ∷ [])

  -- The stack pointer is returned as it is.
  unfoldable pub handle_interrupt : ℕ → Nic P → Option (Nic P)
  unfolding end_interrupt
  handle_interrupt fuel s =
      let (icr, s₁) = read_reg s icr_offset in
      let interrupts = bit_and icr 0xFFFF in
      let s₂ = say s₁ (0x0A ∷ codes "Some interrupt ") in
      let s₃ = say_if (is_set interrupts 0x8000) s₂ (codes "Tx ") in
      let s₄ = say_if (is_set interrupts 0x2) s₃ (codes "TX empty ") in
      if is_set interrupts 0x80
      then elim (handle_rx fuel (say s₄ (codes "RX Interrupt "))) [
        | none ↦ none
        | some s₅ ↦ some (end_interrupt interrupts s₅)
      ]
      else some (end_interrupt interrupts s₄)
