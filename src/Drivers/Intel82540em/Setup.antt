-- ===== src/Drivers/Intel82540em/Setup.antt =====
-- The constructor of `Intel_82540EM` in src/drivers/intel_82540em.cpp, and what it calls.
use Prim.Native.Nat.{bit_or}
use pingu_os.Common.{
  ℕ, zero, suc, ◌+◌, ◌-◌, ◌*◌, Bool, true, false, not, Option, none, some, ◌>>=◌, ◌==◌,
  if◌then◌else◌,
}
use pingu_os.Common.Bytes.{codes}
use pingu_os.Port.{Ports}
use pingu_os.MemoryManagement.{malloc}
use pingu_os.Pci.{Function}
use pingu_os.Drivers.Intel82540em.{
  RxDescriptor, TxDescriptor, Nic, descriptor_size, rx_ring_size, tx_ring_size, line, write_reg,
  say, say_if, rdt_offset, tdt_offset,
}
use pingu_os.Drivers.Intel82540em.Control.{
  rctl_offset, tctl_offset, tipg_offset, rdbal_offset, rdbah_offset, rdlen_offset, rdh_offset,
  tdh_offset, tbal_offset, tbah_offset, tlen_offset, set_reg, mask_reg, enable_bus_mastering,
  get_mac_addr, reset, init,
}

module _ {P : Type 0} (io : Ports P) where
  -- Memory for something; `none` where the search of the heap does not end.
  unfoldable pub allocate : ℕ → Nic P → ℕ → ℕ → Option (ℕ × Nic P)
  allocate fuel s size alignment = do
    (ptr, heap) ← malloc fuel s.heap size alignment
    some (ptr, record s { heap = heap })

  abbrev pub empty_rx : ℕ → RxDescriptor → RxDescriptor
  empty_rx buffer desc = record {
    buf_addr_lo = buffer;
    buf_addr_hi = 0;
    len = 0;
    checksum = 0;
    status = 0;
    err = 0;
    special = 0;
  }

  abbrev pub empty_tx : ℕ → TxDescriptor → TxDescriptor
  empty_tx buffer desc = record {
    buf_addr_lo = buffer;
    buf_addr_hi = 0;
    len = 0;
    cso = 0;
    cmd = 0;
    status = 1;
    checksum = 0;
    special = 0;
  }

  -- The loops over the descriptors, from `i` on; false where there is no memory for a buffer.
  unfoldable pub fill_rx : ℕ → ℕ → ℕ → Nic P → Option (Bool × Nic P)
  fill_rx fuel zero i s = some (true, s)
  fill_rx fuel (suc rounds) i s = elim (allocate fuel s 2048 0) [
    | none ↦ none
    | some (buffer, s₁) ↦ elim (buffer == 0) [
      | true ↦ some (false, say io s₁ (line (codes "RX Buffer alloc failed")))
      | false ↦
          fill_rx fuel rounds (i + 1)
            (record s₁ { rx = λ j. if j == i then empty_rx buffer (s₁.rx i) else s₁.rx j })
    ]
  ]

  unfoldable pub fill_tx : ℕ → ℕ → ℕ → Nic P → Option (Bool × Nic P)
  fill_tx fuel zero i s = some (true, s)
  fill_tx fuel (suc rounds) i s = elim (allocate fuel s 2048 0) [
    | none ↦ none
    | some (buffer, s₁) ↦ elim (buffer == 0) [
      | true ↦ some (false, say io s₁ (line (codes "TX Buffer alloc failed")))
      | false ↦
          fill_tx fuel rounds (i + 1)
            (record s₁ { tx = λ j. if j == i then empty_tx buffer (s₁.tx i) else s₁.tx j })
    ]
  ]

  -- `RESET_REG` has no parentheses round its value, so its mask is `~(1<<5) | (2<<6) | (2<<16)`.
  unfoldable pub start_rx : Nic P → Nic P
  start_rx s =
      let s₁ = write_reg io (write_reg io s rdbal_offset s.m_rx_ring) rdbah_offset 0 in
      let s₂ = write_reg io s₁ rdlen_offset (rx_ring_size * descriptor_size) in
      let s₃ = write_reg io (write_reg io s₂ rdh_offset 0) rdt_offset (rx_ring_size - 1) in
      let s₄ = mask_reg io s₃ rctl_offset (bit_or (bit_or 0xFFFFFFDF 0x80) 0x20000) in
      say io (set_reg io s₄ rctl_offset 0x8002) (codes " RX Setup Complete ")

  unfoldable pub rx_setup : ℕ → Nic P → Option (Nic P)
  rx_setup fuel s = do
    (ring, s₁) ← allocate fuel s (rx_ring_size * descriptor_size) 16
    let s₂ : Nic P = record s₁ { m_rx_ring = ring }
    let failed = say io s₂ (line (codes "RX ring alloc failed"))
    elim (ring == 0) [
      | true ↦ some failed
      | false ↦ elim (fill_rx fuel rx_ring_size 0 s₂) [
        | none ↦ none
        | some (done, s₃) ↦ some (if done then start_rx s₃ else s₃)
      ]
    ]

  unfoldable pub start_tx : Nic P → Nic P
  start_tx s =
      let s₁ = write_reg io (write_reg io s tbal_offset s.m_tx_ring) tbah_offset 0 in
      let s₂ = write_reg io s₁ tlen_offset (tx_ring_size * descriptor_size) in
      let s₃ = write_reg io (write_reg io s₂ tdh_offset 0) tdt_offset 0 in
      let s₄ = set_reg io s₃ tctl_offset 0x4010A in
      say io (set_reg io s₄ tipg_offset 0x0060FFFF) (codes " TX Setup Complete ")

  unfoldable pub tx_setup : ℕ → Nic P → Option (Nic P)
  tx_setup fuel s = do
    (ring, s₁) ← allocate fuel s (tx_ring_size * descriptor_size) 16
    let s₂ : Nic P = record s₁ { m_tx_ring = ring }
    let failed = say io s₂ (line (codes "TX ring alloc failed"))
    elim (ring == 0) [
      | true ↦ some failed
      | false ↦ elim (fill_tx fuel tx_ring_size 0 s₂) [
        | none ↦ none
        | some (done, s₃) ↦ some (if done then start_tx s₃ else s₃)
      ]
    ]

  -- The body of the constructor, where `m_reg_base` has been set.
  unfoldable pub construct : ℕ → Nic P → Function → Option (Nic P)
  construct fuel s dev = do
    let s₁ = get_mac_addr io (enable_bus_mastering io s dev).1
    let done = reset io s₁
    let s₂ = say_if io (not done.0) done.1 (line (codes "Reset bit timeout"))
    s₃ ← rx_setup fuel (init io s₂).1
    tx_setup fuel s₃
