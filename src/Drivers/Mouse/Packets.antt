-- ===== src/Drivers/Mouse/Packets.antt =====
-- What the calls of src/drivers/mouse.cpp tell a handler agrees with what the mouse has sent.
use Prim.Native.Nat.{bit_and}
use pingu_os.Common.{
  ℕ, zero, suc, ◌+◌, ◌%◌, ◌^◌, ◌<◌, ◌≡◌, ◌≢◌, ◌⊎◌, ◌/◌, refl, sym, ap, subst, ◌∙◌, arith, Bool,
  true, false, not, ◌||◌, Bool-cases, inl, inr, List, [], ◌∷◌, ◌++◌, ◌==◌, ==-refl, if◌then◌else◌,
}
use pingu_os.Common.Bits.{bit_and-field}
use pingu_os.Drivers.Mouse.{
  MouseEvent, on_move, on_up, on_down, move_events, button_event, packet_events,
}

-- A handler that keeps which buttons are down, and where it has been moved to, modulo 256.
pub record Tracker : Type 0 where
  pub held : ℕ → Bool
  pub x : ℕ
  pub y : ℕ

abbrev pub track : Tracker → MouseEvent → Tracker
track t (on_move dx dy) = record t { x = (t.x + dx) % 2 ^ 8; y = (t.y + dy) % 2 ^ 8 }
track t (on_up button) = record t { held = λ b. if b == button then false else t.held b }
track t (on_down button) = record t { held = λ b. if b == button then true else t.held b }

abbrev pub track_all : Tracker → List MouseEvent → Tracker
track_all t [] = t
track_all t (e ∷ events) = track_all (track t e) events

-- A packet as the mouse sends it: buttons and distances, `dy` upwards.
pub record Packet : Type 0 where
  pub buttons : ℕ
  pub dx : ℕ
  pub dy : ℕ

abbrev pub is_down : ℕ → ℕ → Bool
is_down buttons bit = not (bit_and buttons bit == 0)

-- The handler knows the buttons, and has gone the distances.
pub record Tracks (t : Tracker) (buttons x y : ℕ) : Type 0 where
  pub left : t.held 1 ≡ is_down buttons 0x1
  pub right : t.held 2 ≡ is_down buttons 0x2
  pub middle : t.held 3 ≡ is_down buttons 0x4
  pub across : t.x ≡ x % 2 ^ 8
  pub downwards : (t.y + y) % 2 ^ 8 ≡ 0

pub track_all-append :
    (t : Tracker) (es fs : List MouseEvent) → track_all t (es ++ fs) ≡ track_all (track_all t es) fs
track_all-append t [] fs = refl
track_all-append t (e ∷ es) fs = track_all-append (track t e) es fs

-- One bit of a number is 0 or set.
abbrev OneBit : ℕ → ℕ → Type 0
OneBit a bit = (bit_and a bit ≡ 0) ⊎ (bit_and a bit ≡ bit)

zero_or_one : (b : ℕ) → b < 2 → (b ≡ 0) ⊎ (b ≡ 1)
zero_or_one zero h = inl refl
zero_or_one (suc zero) h = inr refl
zero_or_one (suc (suc b)) h = absurd (omega (arith, h))

left_bit : (a : ℕ) → OneBit a 0x1
left_bit a = elim (zero_or_one (a % 2) (omega arith)) [
  | inl e ↦ inl (omega (arith, e, bit_and-field 0 1 a))
  | inr e ↦ inr (omega (arith, e, bit_and-field 0 1 a))
]

right_bit : (a : ℕ) → OneBit a 0x2
right_bit a = elim (zero_or_one (a / 2 % 2) (omega arith)) [
  | inl e ↦ inl (omega (arith, e, bit_and-field 1 1 a))
  | inr e ↦ inr (omega (arith, e, bit_and-field 1 1 a))
]

middle_bit : (a : ℕ) → OneBit a 0x4
middle_bit a = elim (zero_or_one (a / 2 / 2 % 2) (omega arith)) [
  | inl e ↦ inl (omega (arith, e, bit_and-field 2 1 a))
  | inr e ↦ inr (omega (arith, e, bit_and-field 2 1 a))
]

-- The call for a button, if there is one, tells the handler what the button does, and nothing else.
record Told (t t' : Tracker) (i : ℕ) (down : Bool) : Type 0 where
  told : t'.held i ≡ down
  others : (j : ℕ) → j ≢ i → t'.held j ≡ t.held j
  same_x : t'.x ≡ t.x
  same_y : t'.y ≡ t.y

button_event-Told :
    (t : Tracker) (i bit now before : ℕ)
    → 0 < bit
    → OneBit now bit
    → OneBit before bit
    → t.held i ≡ is_down before bit
    → Told t (track_all t (button_event i bit now before)) i (is_down now bit)
unfolding button_event
button_event-Told t i bit now before some (inl a) (inl b) known =
    rw (a, b)
      (record { told = known ∙ rw b refl; others = λ j ne. refl; same_x = refl; same_y = refl })
button_event-Told t i bit now before some (inl a) (inr b) known =
    let changed : (0 == bit) ≡ false = ground arith in
    let was : (bit == 0) ≡ false = ground arith in
    rw (a, b, changed, was)
      (record {
        told = rw (==-refl i) refl;
        others = λ j ne. let other : (j == i) ≡ false = ground arith in rw other refl;
        same_x = refl;
        same_y = refl;
      })
button_event-Told t i bit now before some (inr a) (inl b) known =
    let changed : (bit == 0) ≡ false = ground arith in
    rw (a, b, changed)
      (record {
        told = rw (==-refl i) refl;
        others = λ j ne. let other : (j == i) ≡ false = ground arith in rw other refl;
        same_x = refl;
        same_y = refl;
      })
button_event-Told t i bit now before some (inr a) (inr b) known =
    rw (a, b, ==-refl bit)
      (record { told = known ∙ rw b refl; others = λ j ne. refl; same_x = refl; same_y = refl })

move_events-moves :
    (t : Tracker) (dx dy x y : ℕ)
    → dx < 2 ^ 8
    → dy < 2 ^ 8
    → t.x ≡ x % 2 ^ 8
    → (t.y + y) % 2 ^ 8 ≡ 0
    → let t' = track_all t (move_events dx dy) in
      (t'.x ≡ (x + dx) % 2 ^ 8) × ((t'.y + (y + dy)) % 2 ^ 8 ≡ 0) × (t'.held ≡ t.held)
unfolding move_events
move_events-moves t dx dy x y small small' across down =
    elim (Bool-cases (not (dx == 0) || not (dy == 0))) [
      | inl moves ↦ rw moves (omega (arith, across), omega (arith, down, small'), refl)
      | inr stays ↦
          let none : (dx ≡ 0) × (dy ≡ 0) = ground (arith, stays) in
          rw stays (omega (arith, none, across), omega (arith, none, down), refl)
    ]

pub packet_events-Tracks :
    (t : Tracker) (now dx dy before x y : ℕ)
    → dx < 2 ^ 8
    → dy < 2 ^ 8
    → Tracks t before x y
    → Tracks (track_all t (packet_events (now ∷ dx ∷ dy ∷ []) before)) now (x + dx) (y + dy)
unfolding packet_events
packet_events-Tracks t now dx dy before x y small small' k =
    let m = move_events-moves t dx dy x y small small' k.across k.downwards in
    let e₁ = button_event 1 0x1 now before in
    let e₂ = button_event 2 0x2 now before in
    let e₃ = button_event 3 0x4 now before in
    let t₀ = track_all t (move_events dx dy) in
    let t₁ = track_all t₀ e₁ in
    let t₂ = track_all t₁ e₂ in
    let t₃ = track_all t₂ e₃ in
    let b₁ =
      button_event-Told t₀ 1 0x1 now before (omega arith) (left_bit now) (left_bit before)
        (ap (λ (f : ℕ → Bool). f 1) m.2 ∙ k.left) in
    let b₂ =
      button_event-Told t₁ 2 0x2 now before (omega arith) (right_bit now) (right_bit before)
        (b₁.others 2 (omega arith) ∙ ap (λ (f : ℕ → Bool). f 2) m.2 ∙ k.right) in
    let b₃ =
      button_event-Told t₂ 3 0x4 now before (omega arith) (middle_bit now) (middle_bit before) (
        b₂.others 3 (omega arith)
        ∙ b₁.others 3 (omega arith)
        ∙ ap (λ (f : ℕ → Bool). f 3) m.2
        ∙ k.middle) in
    let whole : track_all t (move_events dx dy ++ (e₁ ++ (e₂ ++ e₃))) ≡ t₃ =
      track_all-append t (move_events dx dy) (e₁ ++ (e₂ ++ e₃))
      ∙ track_all-append t₀ e₁ (e₂ ++ e₃)
      ∙ track_all-append t₁ e₂ e₃ in
    subst (λ u. Tracks u now (x + dx) (y + dy)) (sym whole)
      (record {
        left = b₃.others 1 (omega arith) ∙ b₂.others 1 (omega arith) ∙ b₁.told;
        right = b₃.others 2 (omega arith) ∙ b₂.told;
        middle = b₃.told;
        across = b₃.same_x ∙ b₂.same_x ∙ b₁.same_x ∙ m.0;
        downwards =
            ap (λ (v : ℕ). (v + (y + dy)) % 2 ^ 8) (b₃.same_y ∙ b₂.same_y ∙ b₁.same_y) ∙ m.1;
      })
