-- ===== src/Drivers/Intel82540em/Missing.antt =====
-- Packets that `handle_rx` of src/drivers/intel_82540em.cpp does not look at.
use pingu_os.Common.{
  ℕ, zero, suc, ◌+◌, ◌<◌, ◌≡◌, refl, sym, ap, ◌∙◌, arith, false, Bool-cases, inl, inr, some, ◌==◌,
  ltb, ltb→lt, if◌then◌else◌,
}
use pingu_os.Port.{Ports}
use pingu_os.Drivers.Intel82540em.{
  RxDescriptor, Nic, is_set, rx_ring_size, rdt_offset, read_reg, write_reg, rx_loop, finish_rx,
  handle_rx,
}
use pingu_os.Drivers.Intel82540em.Receiving.{
  is_done, behind, cleared_done, both, false_ne_true, tail_of, first_behind, filled, received,
  received_all, Run, handle_rx-Run,
}

module _ {P : Type 0} (io : Ports P) where
  -- A run is as long as it is.
  Run-unique :
      (s : Nic P) (at n m : ℕ)
      → Run io s at n rx_ring_size
      → Run io s at m rx_ring_size
      → n < rx_ring_size
      → n ≡ m
  Run-unique s at n m a b short = elim (Bool-cases (ltb n m)) [
    | inl less ↦
        let twice = sym (a.ends short) ∙ b.done n (ltb→lt n m less) in absurd (false_ne_true twice)
    | inr more ↦ elim (Bool-cases (ltb m n)) [
      | inl less ↦
          let lt = ltb→lt m n less in
          let twice = sym (b.ends (omega (arith, lt, short))) ∙ a.done m lt in
          absurd (false_ne_true twice)
      | inr other ↦ ground (arith, more, other)
    ]
  ]

  -- Handling a packet fills no descriptor.
  received_all-not_done :
      (n : ℕ) (s : Nic P) (at i : ℕ)
      → is_done s.rx i ≡ false
      → is_done (received_all io n s at).rx i ≡ false
  unfolding received_all received
  received_all-not_done zero s at i h = h
  received_all-not_done (suc n) s at i h =
      received_all-not_done n (received io s at) (behind at 1) i
        (cleared_done s.rx at i ∙ ap (λ b. if i == at then false else b) h ∙ both (i == at))

  -- Nothing is done: only the tail goes on.
  handle_rx-idle :
      (fuel : ℕ) (s : Nic P)
      → 0 < fuel
      → is_done s.rx (first_behind io s) ≡ false
      → handle_rx io fuel s
        ≡ some (write_reg io (read_reg io s rdt_offset).1 rdt_offset (first_behind io s))
  unfolding handle_rx rx_loop finish_rx
  handle_rx-idle zero s enough idle = absurd (omega arith)
  handle_rx-idle (suc fuel) s enough idle = rw idle refl

  -- The tail register reads back what is written to it. Behind it stands a run of `n` packets, and
  -- the descriptor after the first one that is not done is not done either. When the first one is
  -- then filled with the next packet, the next call of `handle_rx` does not print that packet: it
  -- looks behind the tail, where the first call has left it.
  pub handle_rx-misses :
      (fuel n : ℕ) (s : Nic P) (packet : RxDescriptor)
      → ((p : P) (base v : ℕ)
          → (io.read (io.write p (base + rdt_offset) v) (base + rdt_offset)).0 ≡ v)
      → rx_ring_size < fuel
      → Run io (read_reg io s rdt_offset).1 (first_behind io s) n rx_ring_size
      → n < rx_ring_size
      → is_done s.rx (behind (first_behind io s) (n + 1)) ≡ false
      → (s' s'' : Nic P) × (handle_rx io fuel s ≡ some s')
        × (handle_rx io fuel (filled io s' (behind (first_behind io s) n) packet) ≡ some s'')
        × (s''.printed ≡ s'.printed)
  handle_rx-misses fuel n s packet keeps enough run short free =
      let s₁ = (read_reg io s rdt_offset).1 in
      let start = first_behind io s in
      let next = behind start n in
      let l = handle_rx-Run io fuel s enough in
      let state =
        λ (m : ℕ). write_reg io (received_all io m s₁ start) rdt_offset (behind start m) in
      let s' = state n in
      let m≡n = sym (Run-unique s₁ start n l.0 run l.1 short) in
      let t = filled io s' next packet in
      let tail : tail_of io t ≡ next =
        keeps (received_all io n s₁ start).ports (received_all io n s₁ start).m_reg_base next in
      let place : first_behind io t ≡ behind start (n + 1) =
        ap (λ (a : ℕ). behind a 1) tail ∙ omega arith in
      let other : (behind start (n + 1) == next) ≡ false = ground arith in
      let idle : is_done t.rx (first_behind io t) ≡ false =
        ap (is_done t.rx) place
        ∙ ap (λ b. is_set (if b then packet else s'.rx (behind start (n + 1))).status 1) other
        ∙ received_all-not_done n s₁ start (behind start (n + 1)) free in
      (
        s',
        write_reg io (read_reg io t rdt_offset).1 rdt_offset (first_behind io t),
        l.2 ∙ ap (λ m. some (state m)) m≡n,
        handle_rx-idle fuel t (omega (arith, enough)) idle,
        refl,
      )
