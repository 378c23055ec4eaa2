-- ===== src/Kernel.antt =====
-- What src/kernel.cpp does itself: text on the screen in the text mode of the VGA.
pub mod Text
mod Examples
use Prim.Native.Nat.{bit_and, bit_or}
use pingu_os.Common.{
  ℕ, zero, suc, ◌+◌, ◌*◌, Bool, true, false, [], ◌∷◌, ◌++◌, ◌==◌, leb, ltb, if◌then◌else◌, get_or,
  shr,
}
use pingu_os.Common.Bytes.{Bytes}

-- The static variables of `printf`: the cells of 16 bits from 0xB8000 on, and the cursor.
pub record Console : Type 0 where
  pub vga_buffer : ℕ → ℕ
  pub x : ℕ
  pub y : ℕ

abbrev pub width : ℕ
width = 80

abbrev pub height : ℕ
height = 25

-- `(cell & 0xFF00) | c`, in the 16 bits of a cell; `c` is an `int8_t`, which is extended by its sign.
unfoldable pub with_char : ℕ → ℕ → ℕ
with_char cell c = bit_or (bit_and cell 0xFF00) (if ltb c 0x80 then c else 0xFF00 + c)

-- One cell is written.
unfoldable pub put_cell : (ℕ → ℕ) → ℕ → ℕ → ℕ → ℕ
put_cell buffer at c i = if i == at then with_char (buffer at) c else buffer i

-- The loop that writes spaces, with `rounds` cells to go.
unfoldable pub clear_cells : ℕ → (ℕ → ℕ) → ℕ → ℕ → ℕ
clear_cells zero buffer i = buffer
clear_cells (suc rounds) buffer i = clear_cells rounds (put_cell buffer i b' ') (i + 1)

unfoldable pub clear_screen : (ℕ → ℕ) → ℕ → ℕ
clear_screen buffer = clear_cells (width * height) buffer 0

-- Behind the last row the screen is cleared, and the cursor goes to its start.
unfoldable pub wrap_screen : Console → Console
wrap_screen s =
    if leb height s.y then record { vga_buffer = clear_screen s.vga_buffer; x = 0; y = 0 } else s

unfoldable pub wrap_line : Console → Console
wrap_line s = if leb width s.x then record s { x = 0; y = s.y + 1 } else s

unfoldable pub put_char : Console → ℕ → Console
unfolding wrap_screen wrap_line put_cell
put_char s c =
    if c == 0x0A
    then wrap_screen (record s { x = 0; y = s.y + 1 })
    else wrap_screen (
        wrap_line
          (record s { vga_buffer = put_cell s.vga_buffer (width * s.y + s.x) c; x = s.x + 1 }))

-- A C string is the list of its characters, without the null.
unfoldable pub printf : Console → Bytes → Console
printf s [] = s
printf s (c ∷ string) = printf (put_char s c) string

abbrev pub hex : Bytes
hex =
    b'0' ∷ b'1' ∷ b'2' ∷ b'3' ∷ b'4' ∷ b'5' ∷ b'6' ∷ b'7' ∷ b'8' ∷ b'9' ∷ b'A' ∷ b'B' ∷ b'C' ∷ b'D'
    ∷ b'E' ∷ b'F' ∷ []

-- The two digits of a byte.
unfoldable pub hex_digits : ℕ → Bytes
hex_digits value =
    get_or hex (bit_and (shr value 4) 0x0F) 0 ∷ get_or hex (bit_and value 0x0F) 0 ∷ []

unfoldable pub printf_hex : Console → ℕ → Console
unfolding hex_digits
printf_hex s value = printf s (hex_digits value)

unfoldable pub printf_hex16 : Console → ℕ → Console
printf_hex16 s value = printf_hex (printf_hex s (bit_and (shr value 8) 0xFF)) (bit_and value 0xFF)

unfoldable pub printf_hex32 : Console → ℕ → Console
printf_hex32 s value =
    let s₁ = printf_hex s (bit_and (shr value 24) 0xFF) in
    let s₂ = printf_hex s₁ (bit_and (shr value 16) 0xFF) in
    let s₃ = printf_hex s₂ (bit_and (shr value 8) 0xFF) in printf_hex s₃ (bit_and value 0xFF)
