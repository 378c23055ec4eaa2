-- ===== src/Drivers/Keyboard.antt =====
-- src/drivers/keyboard.cpp: the handler that prints what is typed, and the driver.
pub mod Keys
pub mod Cases
pub mod Typing
mod Examples
use Prim.Native.Nat.{bit_and, bit_or}
use pingu_os.Common.{
  ℕ, zero, suc, ◌+◌, ◌-◌, Bool, true, false, ◌||◌, Option, none, some, List, [], ◌∷◌, ◌++◌, ◌==◌,
  ltb, if◌then◌else◌, get_or, shr,
}
use pingu_os.Common.Bytes.{Bytes}
use pingu_os.Port.{Ports}
use pingu_os.Kernel.{Console, printf, hex}
use Keys.{key_lshift, key_rshift, key_lshift_release, key_rshift_release}
use Cases.{KeyCase, control_keys, number_row, top_row, home_row, bottom_row, keypad, silent_keys}

-- The case for a key, where one prints.
unfoldable pub find_case : ℕ → List KeyCase → Option (ℕ × ℕ)
find_case key [] = none
find_case key ((label, plain, shifted) ∷ cases) =
    if label == key then some (plain, shifted) else find_case key cases

unfoldable pub is_label : ℕ → List ℕ → Bool
is_label key [] = false
is_label key (label ∷ labels) = label == key || is_label key labels

abbrev pub printing_keys : List KeyCase
printing_keys = control_keys ++ (number_row ++ (top_row ++ (home_row ++ (bottom_row ++ keypad))))

-- ` KEYBOARD 0x00` with the digits of the key.
unfoldable pub unknown_key : ℕ → Bytes
unknown_key key =
    b' '
    ∷ b'K'
    ∷ b'E'
    ∷ b'Y'
    ∷ b'B'
    ∷ b'O'
    ∷ b'A'
    ∷ b'R'
    ∷ b'D'
    ∷ b' '
    ∷ b'0'
    ∷ b'x'
    ∷ get_or hex (bit_and (shr key 4) 0x0F) 0
    ∷ get_or hex (bit_and key 0x0F) 0
    ∷ []

unfoldable pub pressed : Bool → ℕ → Option (ℕ × ℕ) → Bool × Bytes
unfolding is_label unknown_key
pressed m_shift key (some (plain, shifted)) = (m_shift, (if m_shift then shifted else plain) ∷ [])
pressed m_shift key none =
    if key == key_lshift || key == key_rshift
    then (true, [])
    else (if key == key_lshift_release || key == key_rshift_release
        then (false, [])
        else (if is_label key silent_keys then (m_shift, []) else (m_shift, unknown_key key)))

-- The new `m_shift`, and what is given to `printf`.
unfoldable pub emit_event : Bool → ℕ → Bool × Bytes
unfolding pressed find_case
emit_event m_shift key =
    if ltb key 0x80
    then pressed m_shift key (find_case key printing_keys)
    else (let released = bit_or key 0x80 in
        if released == key_lshift_release || released == key_rshift_release
        then (false, [])
        else (m_shift, []))

-- The handler, and the screen that `printf` writes to.
pub record TextualKeyboardHandler : Type 0 where
  pub m_shift : Bool
  pub console : Console

unfoldable pub on_event : TextualKeyboardHandler → ℕ → TextualKeyboardHandler
on_event h key =
    let (m_shift, string) = emit_event h.m_shift key in
    record { m_shift = m_shift; console = printf h.console string }

unfoldable pub on_key_down : TextualKeyboardHandler → ℕ → TextualKeyboardHandler
on_key_down h key = record h { console = printf h.console (key ∷ []) }

unfoldable pub set_shift : TextualKeyboardHandler → Bool → TextualKeyboardHandler
set_shift h state = record h { m_shift = state }

-- The driver, over the ports; the handler is any object with an `emit_event`.
module _ {P : Type 0} (io : Ports P) where
  -- The loop that empties the controller; `none` if it is not empty after `fuel` bytes.
  unfoldable pub drain : ℕ → P → Option P
  drain zero p = none
  drain (suc fuel) p =
      let (status, p') = io.read p 0x64 in
      let rest = drain fuel (io.read p' 0x60).1 in if bit_and status 0x1 == 1 then rest else some p'

  unfoldable pub enable : P → P
  enable p =
      let p₁ = io.write (io.write p 0x64 0xAE) 0x64 0x20 in
      let (state, p₂) = io.read p₁ 0x60 in
      let status = bit_and (bit_or state 1) 0xEF in
      io.write (io.write (io.write p₂ 0x64 0x60) 0x60 status) 0x60 0xF4

  unfoldable pub activate : ℕ → P → Option P
  activate fuel p = elim (drain fuel p) [ none ↦ none | some p' ↦ some (enable p') ]

  unfoldable pub handle_interrupt : {H : Type 0} → (H → ℕ → H) → P × H → P × H
  handle_interrupt emit (p, h) = let (key, p') = io.read p 0x60 in (p', emit h key)
