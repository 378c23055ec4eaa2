-- ===== src/Drivers/Mouse/Examples.antt =====
-- Tests: a button goes down while the mouse moves, and goes up.
use pingu_os.Common.{
  ℕ, ◌-◌, ◌^◌, ◌≡◌, refl, inl, inr, some, arith, false, List, [], ◌∷◌, ◌==◌, if◌then◌else◌,
}
use pingu_os.Common.Bytes.{Bytes}
use pingu_os.Port.{Ports}
use pingu_os.Drivers.Mouse.Textual.{TextualMouseHandler, moves}
use pingu_os.Drivers.Mouse.Textual.Inside.{IsInside, moves-IsInside}
use pingu_os.Drivers.Mouse.Packets.{Packet, Tracker, Tracks, track_all}
use pingu_os.Drivers.Mouse.Stream.{
  Arrives, Delivers, quiet, packet_at, bytes_in, between, last_buttons, gone_x, gone_y, interrupts,
  interrupts-Tracks,
}

-- A controller that has the bytes of the mouse.
abbrev next_byte : Bytes → ℕ × Bytes
next_byte [] = (0, [])
next_byte (c ∷ p) = (c, p)

abbrev mouse_port : Ports Bytes
mouse_port = record {
  read = λ p port. if port == 0x64 then (0x21, p) else next_byte p;
  write = λ p port value. p;
}

arrives : (byte : ℕ) (p : Bytes) → Arrives mouse_port (byte ∷ p) byte p
arrives byte p = record {
  status = 0x21;
  next = byte ∷ p;
  said = refl;
  mouse_data = refl;
  given = refl;
}

abbrev sent : List Packet → Bytes
sent [] = []
sent (k ∷ packets) = k.buttons ∷ k.dx ∷ k.dy ∷ sent packets

delivers : (packets : List Packet) → Delivers mouse_port (sent packets) packets []
delivers [] = quiet
delivers (k ∷ packets) =
    packet_at k (k.dx ∷ k.dy ∷ sent packets) (k.dy ∷ sent packets) (sent packets)
      (arrives k.buttons (k.dx ∷ k.dy ∷ sent packets)) (arrives k.dx (k.dy ∷ sent packets))
      (arrives k.dy (sent packets)) (delivers packets)

abbrev packets : List Packet
packets =
    record { buttons = 1; dx = 5; dy = 250 }
    ∷ record { buttons = 1; dx = 255; dy = 0 }
    ∷ record { buttons = 4; dx = 0; dy = 0 }
    ∷ []

abbrev start : Tracker
start = record { held = λ b. false; x = 0; y = 0 }

start-Tracks : Tracks start 0 0 0
start-Tracks = record { left = refl; right = refl; middle = refl; across = refl; downwards = refl }

interrupts-Tracks_example :
    let r = interrupts mouse_port (bytes_in packets) (sent packets, between 0 0 0 0) in
    (r.0.0 ≡ [])
    × (r.0.1.m_offset ≡ 0)
    × (r.0.1.m_buttons ≡ last_buttons 0 packets)
    × Tracks (track_all start r.1) (last_buttons 0 packets) (gone_x 0 packets) (gone_y 0 packets)
interrupts-Tracks_example =
    interrupts-Tracks mouse_port packets start 0 0 0 0 0 0 start-Tracks (omega arith)
      (delivers packets)

-- The cursor in the middle of the screen, with 3 points to a column.
abbrev middle : TextualMouseHandler
middle = record {
  m_vga_buf = λ i. 0x0F20;
  m_sens = 3;
  m_x = 40;
  m_y = 12;
  m_accum_x = 2;
  m_accum_y = 2 ^ 32 - 5;
  m_buttons = 0;
}

middle-IsInside : IsInside middle
middle-IsInside = record {
  steady = (omega arith, omega arith);
  on_screen = (omega arith, omega arith);
  rest_x = inl (omega arith);
  rest_y = inr (omega arith, omega arith);
}

moves-IsInside_example :
    (m' : TextualMouseHandler) × (moves 600 middle ((100, 156) ∷ (100, 3) ∷ []) ≡ some m')
    × IsInside m'
moves-IsInside_example =
    moves-IsInside 600 middle ((100, 156) ∷ (100, 3) ∷ []) (omega arith) middle-IsInside
