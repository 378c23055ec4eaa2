-- ===== src/Drivers/Intel82540em/Examples.antt =====
-- Tests: a card with one packet in its ring.
use pingu_os.Common.{ℕ, ◌+◌, ◌≡◌, refl, ap, false, some, [], ◌==◌, ==-refl, if◌then◌else◌, arith}
use pingu_os.Port.{Ports}
use pingu_os.Drivers.Intel82540em.{
  RxDescriptor, TxDescriptor, Nic, rx_ring_size, rdt_offset, write_reg, handle_rx,
}
use pingu_os.Drivers.Intel82540em.Missing.{handle_rx-misses}
use pingu_os.Drivers.Intel82540em.Receiving.{
  is_done, behind, filled, received_all, Run, handle_rx-Run,
}

abbrev registers : Ports (ℕ → ℕ)
registers = record {
  read = λ p port. (p port, p);
  write = λ p port v. λ i. if i == port then v else p i;
}

reads_back :
    (p : ℕ → ℕ) (base v : ℕ)
    → (if base + rdt_offset == base + rdt_offset then v else p (base + rdt_offset)) ≡ v
reads_back p base v = ap (λ b. if b then v else p (base + rdt_offset)) (==-refl (base + rdt_offset))

abbrev empty : RxDescriptor
empty = record {
  buf_addr_lo = 0x10000;
  buf_addr_hi = 0;
  len = 0;
  checksum = 0;
  status = 0;
  err = 0;
  special = 0;
}

abbrev packet : RxDescriptor
packet = record empty { len = 3; status = 3 }

abbrev done : TxDescriptor
done = record {
  buf_addr_lo = 0;
  buf_addr_hi = 0;
  len = 0;
  cso = 0;
  cmd = 0;
  status = 1;
  checksum = 0;
  special = 0;
}

-- The tail is 255, and descriptor 0 is done.
abbrev card : Nic (ℕ → ℕ)
card = record {
  ports = λ port. if port == 0x2818 then 255 else 0;
  m_reg_base = 0;
  m_mac_addr = [];
  m_rx_ring = 0x8000;
  m_tx_ring = 0x9000;
  rx = λ i. if i == 0 then packet else empty;
  tx = λ i. done;
  memory = λ a. b'a';
  heap = record {
    m_first = 0;
    mem = λ a. record { next = 0; prev = 0; allocated = false; size = 0; offset = 0 };
  };
  printed = [];
}

card-Run : Run registers card 0 1 rx_ring_size
card-Run = record {
  short = omega arith;
  done = λ i h. let first : behind 0 i ≡ 0 = omega (arith, h) in ap (is_done card.rx) first;
  ends = λ h. refl;
}

handle_rx-Run_example :
    (n : ℕ) × Run registers card 0 n rx_ring_size
    × (handle_rx registers 300 card
        ≡ some (write_reg registers (received_all registers n card 0) rdt_offset (behind 0 n)))
handle_rx-Run_example = handle_rx-Run registers 300 card (omega arith)

handle_rx-misses_example :
    (s' s'' : Nic (ℕ → ℕ)) × (handle_rx registers 300 card ≡ some s')
    × (handle_rx registers 300 (filled registers s' 1 packet) ≡ some s'')
    × (s''.printed ≡ s'.printed)
handle_rx-misses_example =
    handle_rx-misses registers 300 1 card packet reads_back (omega arith) card-Run (omega arith)
      refl
