-- ===== src/Drivers/Intel82540em/Receiving.antt =====
-- `handle_rx` of src/drivers/intel_82540em.cpp: which descriptors it handles.
use pingu_os.Common.{
  ℕ, zero, suc, ◌+◌, ◌-◌, ◌%◌, ◌≤◌, ◌<◌, ◌≡◌, ◌≢◌, refl, sym, ap, ◌∙◌, arith, Bool, true, false,
  Bool-cases, inl, inr, some, ◌++◌, ◌==◌, if◌then◌else◌,
}
use pingu_os.Port.{Ports}
use pingu_os.Drivers.Intel82540em.{
  RxDescriptor, Nic, is_set, print_packet, clear_status, rx_ring_size, rdt_offset, read_reg,
  write_reg, rx_loop, finish_rx, handle_rx,
}

-- The device has filled the descriptor.
abbrev pub is_done : (ℕ → RxDescriptor) → ℕ → Bool
is_done rx i = is_set (rx i).status 1

-- The place `n` behind another one in the ring.
abbrev pub behind : ℕ → ℕ → ℕ
behind at n = (at + n) % rx_ring_size

pub cleared_done :
    (rx : ℕ → RxDescriptor) (at i : ℕ)
    → is_done (clear_status rx at) i ≡ (if i == at then false else is_done rx i)
cleared_done rx at i = elim (Bool-cases (i == at)) [
  | inl here ↦ rw here refl
  | inr there ↦ rw there refl
]

pub both : (b : Bool) → (if b then false else false) ≡ false
both true = refl
both false = refl

pub false_ne_true : ◌≢◌ {A = Bool} false true
false_ne_true e = cc

still_true : (b c : Bool) → (if b then false else c) ≡ true → c ≡ true
still_true true c h = cc
still_true false c h = h

clear_next :
    (rx : ℕ → RxDescriptor) (at j start : ℕ)
    → at ≡ behind start j
    → ((i : ℕ) → i < j → is_done rx (behind start i) ≡ false)
    → (i : ℕ) → i < suc j
    → is_done (clear_status rx at) (behind start i) ≡ false
clear_next rx at j start place clear i h =
    let x = behind start i in
    elim (Bool-cases (x == at)) [
      | inl here ↦ cleared_done rx at x ∙ ap (λ b. if b then false else is_done rx x) here
      | inr there ↦ elim (Bool-cases (i == j)) [
        | inl last ↦ absurd (ground (arith, there, last, place))
        | inr earlier ↦
            let less : i < j = ground (arith, earlier, h) in
            cleared_done rx at x ∙ ap (λ b. if b then false else is_done rx x) there ∙ clear i less
      ]
    ]

module _ {P : Type 0} (io : Ports P) where
  abbrev pub tail_of : Nic P → ℕ
  tail_of s = (read_reg io s rdt_offset).0

  abbrev pub first_behind : Nic P → ℕ
  first_behind s = behind (tail_of s) 1

  -- The device fills a descriptor.
  abbrev pub filled : Nic P → ℕ → RxDescriptor → Nic P
  filled s at packet = record s { rx = λ i. if i == at then packet else s.rx i }

  -- The packet at a place is printed, and its descriptor given back.
  unfoldable pub received : Nic P → ℕ → Nic P
  received s at =
      let (text, memory) = print_packet s.memory (s.rx at) in
      record s { memory = memory; rx = clear_status s.rx at; printed = s.printed ++ text }

  -- The packets at `n` places, one after the other.
  unfoldable pub received_all : ℕ → Nic P → ℕ → Nic P
  received_all zero s at = s
  received_all (suc n) s at = received_all n (received s at) (behind at 1)

  -- `n` descriptors from `at` on are done, and the next one is not, if there are places left.
  pub record Run (s : Nic P) (at n most : ℕ) : Type 0 where
    pub short : n ≤ most
    pub done : (i : ℕ) → i < n → is_done s.rx (behind at i) ≡ true
    pub ends : n < most → is_done s.rx (behind at n) ≡ false

  next-Run :
      (s : Nic P) (at n most : ℕ)
      → most < rx_ring_size
      → at < rx_ring_size
      → is_done s.rx at ≡ true
      → Run (received s at) (behind at 1) n most
      → Run s at (suc n) (suc most)
  unfolding received
  next-Run s at n most few place first r = record {
    short = omega (arith, r.short);
    done = λ i h. elim (Bool-cases (i == 0)) [
      | inl e ↦
          let here : behind at i ≡ at = ground (arith, e, place) in ap (is_done s.rx) here ∙ first
      | inr ne ↦
          let i' = i - 1 in
          let later : behind at i ≡ behind (behind at 1) i' = ground (arith, ne) in
          let x = behind (behind at 1) i' in
          let was = sym (cleared_done s.rx at x) ∙ r.done i' (ground (arith, ne, h)) in
          ap (is_done s.rx) later ∙ still_true (x == at) (is_done s.rx x) was
    ];
    ends = λ h.
        let x = behind (behind at 1) n in
        let shift : behind at (suc n) ≡ x = omega arith in
        let apart : x ≢ at = λ e. absurd (omega (arith, e, few, h, place)) in
        let other : (x == at) ≡ false = ground (arith, apart) in
        let was = sym (cleared_done s.rx at x) ∙ r.ends (omega (arith, h)) in
        ap (is_done s.rx) shift ∙ ap (λ b. if b then false else is_done s.rx x) (sym other) ∙ was;
  }

  -- The loop runs through the run, and ends.
  rx_loop_lem :
      (most fuel j start : ℕ) (s : Nic P) (at : ℕ)
      → most + j ≡ rx_ring_size
      → start < rx_ring_size
      → at ≡ behind start j
      → ((i : ℕ) → i < j → is_done s.rx (behind start i) ≡ false)
      → most < fuel
      → (n : ℕ) × Run s at n most × (rx_loop io fuel s at ≡ some (behind at n, received_all n s at))
  unfolding rx_loop received received_all
  rx_loop_lem most zero j start s at total low place clear enough = absurd (omega arith)
  rx_loop_lem zero (suc fuel) j start s at total low place clear enough =
      let home : at ≡ behind start 0 = omega (arith, place, total, low) in
      let stop : is_done s.rx at ≡ false =
        ap (is_done s.rx) home ∙ clear 0 (omega (arith, total)) in
      let same : behind at 0 ≡ at = omega (arith, home) in
      (
        0,
        record {
          short = omega arith;
          done = λ i h. absurd (omega (arith, h));
          ends = λ h. absurd (omega (arith, h));
        },
        rw stop (ap (λ (a : ℕ). some (a, s)) (sym same)),
      )
  rx_loop_lem (suc most) (suc fuel) j start s at total low place clear enough =
      elim (Bool-cases (is_done s.rx at)) [
        | inr stop ↦
            let same : behind at 0 ≡ at = omega (arith, place) in
            (
              0,
              record {
                short = omega arith;
                done = λ i h. absurd (omega (arith, h));
                ends = λ h. ap (is_done s.rx) same ∙ stop;
              },
              rw stop (ap (λ (a : ℕ). some (a, s)) (sym same)),
            )
        | inl more ↦
            let r =
              rx_loop_lem most fuel (suc j) start (received s at) (behind at 1)
                (omega (arith, total)) low (omega (arith, place))
                (clear_next s.rx at j start place clear) (omega (arith, enough)) in
            let n = r.0 in
            let shift : behind (behind at 1) n ≡ behind at (suc n) = omega arith in
            (
              suc n,
              next-Run s at n most (omega (arith, total)) (omega (arith, place)) more r.1,
              rw more (
                  r.2
                  ∙ ap (λ (a : ℕ). some (a, received_all n (received s at) (behind at 1))) shift),
            )
      ]

  -- Whatever the descriptors hold, `handle_rx` ends within 257 rounds: it prints the packets of the
  -- run of done descriptors behind the tail, in their order, gives these descriptors back, and writes
  -- as the tail the place of the first descriptor that was not done.
  pub handle_rx-Run :
      (fuel : ℕ) (s : Nic P)
      → rx_ring_size < fuel
      → let r = read_reg io s rdt_offset in
        let start = behind r.0 1 in
        (n : ℕ) × Run r.1 start n rx_ring_size
        × (handle_rx io fuel s
            ≡ some (write_reg io (received_all n r.1 start) rdt_offset (behind start n)))
  unfolding handle_rx finish_rx
  handle_rx-Run fuel s enough =
      let r = read_reg io s rdt_offset in
      let start = behind r.0 1 in
      let l =
        rx_loop_lem rx_ring_size fuel 0 start r.1 start refl (omega arith) (omega arith)
          (λ i h. absurd (omega (arith, h))) enough in
      (l.0, l.1, ap (finish_rx io) l.2)
