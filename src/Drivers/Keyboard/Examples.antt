-- ===== src/Drivers/Keyboard/Examples.antt =====
-- Tests: a text is typed.
use pingu_os.Common.{ℕ, ◌+◌, ◌≡◌, refl, arith, false, [], ◌∷◌, length}
use pingu_os.Common.Bytes.{Bytes}
use pingu_os.Port.Queue.{queue}
use pingu_os.Kernel.Text.{offset, shown}
use pingu_os.Drivers.Keyboard.{TextualKeyboardHandler, emit_event}
use pingu_os.Drivers.Keyboard.Typing.{
  strokes_text, Delivers, quiet, code_at, interrupts, typing-shown,
}

-- A key that the switch has no case for.
unknown : emit_event false 0x29 ≡ (
  false,
  b' ' ∷ b'K' ∷ b'E' ∷ b'Y' ∷ b'B' ∷ b'O' ∷ b'A' ∷ b'R' ∷ b'D' ∷ b' ' ∷ b'0' ∷ b'x' ∷ b'2' ∷ b'9'
      ∷ [],
)
unfolding emit_event
unknown = refl

abbrev text : Bytes
text = b'H' ∷ b'i' ∷ b'?' ∷ []

abbrev handler : TextualKeyboardHandler
handler = record { m_shift = false; console = record { vga_buffer = λ i. 0x0700; x = 79; y = 3 } }

feeds : (codes : Bytes) → Delivers queue codes codes []
feeds [] = quiet
feeds (c ∷ codes) = code_at c codes refl (feeds codes)

typing-shown_example :
    let s' = interrupts queue (length (strokes_text text)) (strokes_text text, handler) in
    (s'.0 ≡ [])
    × (s'.1.m_shift ≡ false)
    × (offset s'.1.console ≡ offset handler.console + length text)
    × ((i : ℕ)
        → s'.1.console.vga_buffer i
          ≡ shown handler.console.vga_buffer (offset handler.console) text i)
typing-shown_example =
    typing-shown queue text handler refl (omega arith)
      ((omega arith, refl), ((omega arith, refl), ((omega arith, refl), tt))) (omega arith)
      (feeds (strokes_text text))
