-- ===== src/Drivers/Mouse/Stream.antt =====
-- A stream of packets through the interrupts of src/drivers/mouse.cpp.
use Prim.Native.Nat.{bit_and}
use pingu_os.Common.{
  ℕ, zero, suc, ◌+◌, ◌^◌, ◌<◌, ◌≡◌, refl, sym, ap, subst, ◌∙◌, true, false, List, [], ◌∷◌, ◌++◌,
  ◌==◌,
}
use pingu_os.Common.Bytes.{Bytes}
use pingu_os.Port.{Ports}
use pingu_os.Drivers.Mouse.{MouseEvent, MouseDriver, packet_events, receive, handle_interrupt}
use pingu_os.Drivers.Mouse.Packets.{
  Packet, Tracker, Tracks, track_all, track_all-append, packet_events-Tracks,
}

-- The controller has a byte of the mouse.
pub record Arrives {P : Type 0} (io : Ports P) (p : P) (byte : ℕ) (q : P) : Type 0 where
  pub status : ℕ
  pub next : P
  pub said : io.read p 0x64 ≡ (status, next)
  pub mouse_data : (bit_and status 0x20 == 0) ≡ false
  pub given : io.read next 0x60 ≡ (byte, q)

-- The bytes of the packets arrive one by one.
pub data Delivers {P : Type 0} (io : Ports P) : P → List Packet → P → Type 0 where
  quiet : {p : P} → Delivers io p [] p
  packet_at :
      {p r : P} {packets : List Packet} (k : Packet) (q₁ q₂ q₃ : P)
      → Arrives io p k.buttons q₁
      → Arrives io q₁ k.dx q₂
      → Arrives io q₂ k.dy q₃
      → Delivers io q₃ packets r
      → Delivers io p (k ∷ packets) r

-- Distances that fit in a byte.
abbrev pub AllSmall : List Packet → Type 0
AllSmall [] = Unit {0}
AllSmall (k ∷ packets) = (k.dx < 2 ^ 8) × (k.dy < 2 ^ 8) × AllSmall packets

abbrev pub last_buttons : ℕ → List Packet → ℕ
last_buttons buttons [] = buttons
last_buttons buttons (k ∷ packets) = last_buttons k.buttons packets

abbrev pub gone_x : ℕ → List Packet → ℕ
gone_x x [] = x
gone_x x (k ∷ packets) = gone_x (x + k.dx) packets

abbrev pub gone_y : ℕ → List Packet → ℕ
gone_y y [] = y
gone_y y (k ∷ packets) = gone_y (y + k.dy) packets

-- Three interrupts for each packet.
abbrev pub bytes_in : List Packet → ℕ
bytes_in [] = 0
bytes_in (k ∷ packets) = suc (suc (suc (bytes_in packets)))

-- A driver between two packets.
abbrev pub between : ℕ → ℕ → ℕ → ℕ → MouseDriver
between a b c buttons = record {
  m_handler = true;
  m_buf = a ∷ b ∷ c ∷ [];
  m_offset = 0;
  m_buttons = buttons;
}

module _ {P : Type 0} (io : Ports P) where
  -- `n` interrupts, with all the calls.
  pub interrupts : ℕ → P × MouseDriver → (P × MouseDriver) × List MouseEvent
  interrupts zero s = (s, [])
  interrupts (suc n) s =
      let first = handle_interrupt io s in
      let rest = interrupts n first.0 in (rest.0, first.1 ++ rest.1)

  -- A driver with a handler.
  abbrev with_handler : Bytes → ℕ → ℕ → MouseDriver
  with_handler buf offset buttons = record {
    m_handler = true;
    m_buf = buf;
    m_offset = offset;
    m_buttons = buttons;
  }

  one_byte :
      (p q : P) (buf : Bytes) (offset buttons byte : ℕ)
      → Arrives io p byte q
      → let m = with_handler buf offset buttons in
        handle_interrupt io (p, m) ≡ ((q, (receive m byte).0), (receive m byte).1)
  unfolding handle_interrupt
  one_byte p q buf offset buttons byte a = rw (a.said, a.mouse_data, a.given) refl

  one_packet :
      (n : ℕ) (p q₁ q₂ q₃ : P) (k : Packet) (a b c buttons : ℕ)
      → Arrives io p k.buttons q₁
      → Arrives io q₁ k.dx q₂
      → Arrives io q₂ k.dy q₃
      → let rest = interrupts n (q₃, between k.buttons k.dx k.dy k.buttons) in
        interrupts (suc (suc (suc n))) (p, between a b c buttons)
        ≡ (rest.0, packet_events (k.buttons ∷ k.dx ∷ k.dy ∷ []) buttons ++ rest.1)
  unfolding interrupts receive
  one_packet n p q₁ q₂ q₃ k a b c buttons x y z =
      let m₁ = one_byte p q₁ (a ∷ b ∷ c ∷ []) 0 buttons k.buttons x in
      let m₂ = one_byte q₁ q₂ (k.buttons ∷ b ∷ c ∷ []) 1 buttons k.dx y in
      let m₃ = one_byte q₂ q₃ (k.buttons ∷ k.dx ∷ c ∷ []) 2 buttons k.dy z in rw (m₁, m₂, m₃) refl

  -- Between two packets, a handler that knows the buttons and the way gone so far. Where the
  -- controller delivers packets, three interrupts for each leave the driver between two packets, with
  -- the buttons of the last one, and after the calls that it has made the handler knows these
  -- buttons, and the way gone by the sums of all the distances, modulo 256.
  pub interrupts-Tracks :
      {p q : P} (packets : List Packet) (t : Tracker) (a b c buttons x y : ℕ)
      → Tracks t buttons x y
      → AllSmall packets
      → Delivers io p packets q
      → let r = interrupts (bytes_in packets) (p, between a b c buttons) in
        (r.0.0 ≡ q)
        × (r.0.1.m_offset ≡ 0)
        × (r.0.1.m_buttons ≡ last_buttons buttons packets)
        × Tracks
            (track_all t r.1)
            (last_buttons buttons packets)
            (gone_x x packets)
            (gone_y y packets)
  interrupts-Tracks _ t a b c buttons x y known small quiet =
      unfold interrupts in (refl, refl, refl, known)
  interrupts-Tracks {q} _ t a b c buttons x y known small
        (packet_at {p} {packets} k q₁ q₂ q₃ a₁ a₂ a₃ rest) =
      let events = packet_events (k.buttons ∷ k.dx ∷ k.dy ∷ []) buttons in
      let now = packet_events-Tracks t k.buttons k.dx k.dy buttons x y small.0 small.1 known in
      let ih =
        interrupts-Tracks packets (track_all t events) k.buttons k.dx k.dy k.buttons (x + k.dx)
          (y + k.dy) now small.2 rest in
      let e = one_packet (bytes_in packets) p q₁ q₂ q₃ k a b c buttons a₁ a₂ a₃ in
      let r = interrupts (bytes_in packets) (q₃, between k.buttons k.dx k.dy k.buttons) in
      (
        ap (λ s. s.0.0) e ∙ ih.0,
        ap (λ s. s.0.1.m_offset) e ∙ ih.1,
        ap (λ s. s.0.1.m_buttons) e ∙ ih.2,
        subst
            (λ l.
              Tracks (track_all t l) (last_buttons k.buttons packets) (gone_x (x + k.dx) packets)
                (gone_y (y + k.dy) packets))
            (sym (ap (λ s. s.1) e))
            (subst
              (λ u.
                Tracks u (last_buttons k.buttons packets) (gone_x (x + k.dx) packets)
                  (gone_y (y + k.dy) packets))
              (sym (track_all-append t events r.1)) ih.3),
      )
