-- ===== src/Kernel/Examples.antt =====
-- Tests: text on the screen.
use pingu_os.Common.{ℕ, ◌*◌, ◌≤◌, ◌≡◌, refl, arith, [], ◌∷◌}
use pingu_os.Common.Bytes.{Bytes}
use pingu_os.Kernel.{Console, width, height, with_char, hex_digits, printf}
use pingu_os.Kernel.Text.{OnScreen, printf-OnScreen}

-- `Noot` and a line feed.
abbrev greeting : Bytes
greeting = b'N' ∷ b'o' ∷ b'o' ∷ b't' ∷ 0x0A ∷ []

abbrev last_line : Console
last_line = record { vga_buffer = λ i. 0x0700; x = 78; y = 24 }

digits : hex_digits 0x3C ≡ b'3' ∷ b'C' ∷ []
unfolding hex_digits
digits = refl

-- A character from 0x80 on takes the colours away.
wide_char : with_char 0x0700 0x80 ≡ 0xFF80
unfolding with_char
wide_char = refl

printf-OnScreen_example :
    OnScreen (printf last_line greeting)
    × ((i : ℕ) → width * height ≤ i → (printf last_line greeting).vga_buffer i ≡ 0x0700)
printf-OnScreen_example =
    printf-OnScreen last_line greeting (record { column = omega arith; row = omega arith })
