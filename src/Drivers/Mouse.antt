-- ===== src/Drivers/Mouse.antt =====
-- `MouseDriver` of src/drivers/mouse.cpp: packets of three bytes become events.
pub mod Packets
pub mod Stream
pub mod Textual
mod Examples
use Prim.Native.Nat.{bit_and, bit_or}
use pingu_os.Common.{
  ℕ, zero, suc, ◌+◌, ◌-◌, ◌*◌, ◌%◌, ◌^◌, Bool, true, false, not, ◌||◌, List, [], ◌∷◌, ◌++◌, ◌==◌,
  if◌then◌else◌, get_or, set,
}
use pingu_os.Common.Bytes.{Bytes}
use pingu_os.Port.{Ports}

-- The calls of the handler; distances are `int8_t`, as bytes.
pub data MouseEvent : Type 0 where
  on_move : ℕ → ℕ → MouseEvent
  on_up : ℕ → MouseEvent
  on_down : ℕ → MouseEvent

-- Whether there is a handler, the bytes of the packet, where the next one goes, the buttons.
pub record MouseDriver : Type 0 where
  pub m_handler : Bool
  pub m_buf : Bytes
  pub m_offset : ℕ
  pub m_buttons : ℕ

-- `-b` as an `int8_t`.
abbrev pub negated : ℕ → ℕ
negated b = (2 ^ 8 - b) % 2 ^ 8

unfoldable pub move_events : ℕ → ℕ → List MouseEvent
move_events x y = if not (x == 0) || not (y == 0) then on_move x (negated y) ∷ [] else []

-- One round of the loop over the buttons, for the bit of a button.
unfoldable pub button_event : ℕ → ℕ → ℕ → ℕ → List MouseEvent
button_event button bit now before =
    if bit_and now bit == bit_and before bit
    then []
    else (if bit_and before bit == 0 then on_down button ∷ [] else on_up button ∷ [])

-- What a whole packet gives.
unfoldable pub packet_events : Bytes → ℕ → List MouseEvent
packet_events buf buttons =
    let now = get_or buf 0 0 in
    move_events (get_or buf 1 0) (get_or buf 2 0)
    ++ (button_event 1 0x1 now buttons
        ++ (button_event 2 0x2 now buttons ++ button_event 3 0x4 now buttons))

-- A byte of the packet; behind the third one, the calls.
unfoldable pub receive : MouseDriver → ℕ → MouseDriver × List MouseEvent
receive m byte =
    let buf = set m.m_buf m.m_offset byte in
    let offset = (m.m_offset + 1) % 3 in
    let m' : MouseDriver = record m { m_buf = buf; m_offset = offset } in
    if offset == 0
    then (record m' { m_buttons = get_or buf 0 0 }, packet_events buf m.m_buttons)
    else (m', [])

module _ {P : Type 0} (io : Ports P) where
  -- `handle_interrupt`, with the calls that it makes.
  unfoldable pub handle_interrupt : P × MouseDriver → (P × MouseDriver) × List MouseEvent
  handle_interrupt (p, m) =
      let (status, p₁) = io.read p 0x64 in
      let (byte, p₂) = io.read p₁ 0x60 in
      let (m', events) = receive m byte in
      if bit_and status 0x20 == 0
      then ((p₁, m), [])
      else (if not m.m_handler then ((p₁, m), []) else ((p₂, m'), events))

  unfoldable pub activate : P × MouseDriver → P × MouseDriver
  activate (p, m) =
      let p₁ = io.write (io.write p 0x64 0xA8) 0x64 0x20 in
      let (state, p₂) = io.read p₁ 0x60 in
      let p₃ = io.write (io.write p₂ 0x64 0x60) 0x60 (bit_or state 2) in
      let p₄ = io.write (io.write p₃ 0x64 0xD4) 0x60 0xF4 in
      ((io.read p₄ 0x60).1, record m { m_offset = 0; m_buttons = 0 })
