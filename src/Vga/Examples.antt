-- ===== src/Vga/Examples.antt =====
-- Tests: pixels on ports that always answer 4, which names the frame buffer at 0xA0000.
use pingu_os.Common.{ℕ, ◌+◌, ◌≡◌, refl, arith, ◌&&◌, leb, ltb, if◌then◌else◌}
use pingu_os.Port.{Ports}
use pingu_os.Vga.{Screen, Rgb, get_color_index, get_frame_buffer_segment, fill_rectangle}
use pingu_os.Vga.Places.{Outside}
use pingu_os.Vga.Pixels.{pixel, Steady, fill_rectangle-pixel}

abbrev quiet : Ports (Unit {0})
quiet = record { read = λ p port. (4, p); write = λ p port value. p }

abbrev black : Screen (Unit {0})
black = record { ports = tt; memory = λ a. 0 }

abbrev blue : Rgb
blue = record { r = 0; g = 0; b = 0xA8 }

quiet-Steady : Steady quiet 0xA0000
unfolding get_frame_buffer_segment
quiet-Steady p = refl

fill_rectangle-pixel_example :
    let s = fill_rectangle quiet black 310 190 20 20 blue in
    (pixel quiet 0xA0000 s 315 195 ≡ (
      if leb 310 315 && ltb 315 (310 + 20) && leb 190 195 && ltb 195 (190 + 20)
      then get_color_index blue
      else pixel quiet 0xA0000 black 315 195))
    × ((a : ℕ) → Outside 0xA0000 a → s.memory a ≡ black.memory a)
fill_rectangle-pixel_example =
    fill_rectangle-pixel quiet 0xA0000 black 310 190 20 20 315 195 blue quiet-Steady (omega arith)
      (omega arith) (omega arith) (omega arith)
