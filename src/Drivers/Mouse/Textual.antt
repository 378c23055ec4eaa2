-- ===== src/Drivers/Mouse/Textual.antt =====
-- `TextualMouseHandler` of src/drivers/mouse.cpp: the cursor in the text mode.
pub mod Inside
use Prim.Native.Nat.{bit_and, bit_or}
use pingu_os.Common.{
  ℕ, zero, suc, ◌+◌, ◌-◌, ◌*◌, ◌/◌, ◌%◌, ◌^◌, ◌≤◌, ◌<◌, ◌≡◌, ◌⊎◌, inl, inr, refl, sym, ap, ◌∙◌,
  arith, Bool, true, false, Bool-cases, ltb, ltb→lt, not, Option, none, some, ◌>>=◌, List, [], ◌∷◌,
  ◌==◌, leb, if◌then◌else◌, add32, sub32, shr,
}
use pingu_os.Vga.{signed_lt, signed_le}

-- The fields; coordinates and accumulated distances are `int32_t`, as words.
pub record TextualMouseHandler : Type 0 where
  pub m_vga_buf : ℕ → ℕ
  pub m_sens : ℕ
  pub m_x : ℕ
  pub m_y : ℕ
  pub m_accum_x : ℕ
  pub m_accum_y : ℕ
  pub m_buttons : ℕ

-- The colours of a cell of 16 bits are exchanged.
unfoldable pub inverted : ℕ → ℕ
inverted cell =
    bit_or (bit_or (shr (bit_and cell 0xF000) 4) (2 ^ 4 * bit_and cell 0x0F00))
      (bit_and cell 0x00FF)

unfoldable pub invert : TextualMouseHandler → TextualMouseHandler
unfolding inverted
invert m =
    let at = 80 * m.m_y + m.m_x in
    record m { m_vga_buf = λ i. if i == at then inverted (m.m_vga_buf i) else m.m_vga_buf i }

unfoldable pub textual_mouse_handler : (ℕ → ℕ) → ℕ → ℕ → ℕ → ℕ → TextualMouseHandler
unfolding invert
textual_mouse_handler vga_buf buttons init_x init_y scalar = invert (record {
  m_vga_buf = vga_buf;
  m_sens = scalar;
  m_x = init_x;
  m_y = init_y;
  m_accum_x = 0;
  m_accum_y = 0;
  m_buttons = buttons;
})

-- The loops over an accumulated distance, which steps of `scalar` are taken from: what is left of
-- it, and the coordinate. `none` if a loop goes on after `fuel` rounds.
unfoldable pub step_up : ℕ → ℕ → ℕ → ℕ → Option (ℕ × ℕ)
step_up zero scalar accum place = none
step_up (suc fuel) scalar accum place =
    let rest = step_up fuel scalar (sub32 accum scalar) (add32 place 1) in
    if signed_le scalar accum then rest else some (accum, place)

unfoldable pub step_down : ℕ → ℕ → ℕ → ℕ → Option (ℕ × ℕ)
step_down zero scalar accum place = none
step_down (suc fuel) scalar accum place =
    let rest = step_down fuel scalar (add32 accum scalar) (sub32 place 1) in
    if signed_le accum (sub32 0 scalar) then rest else some (accum, place)

unfoldable pub steps : ℕ → ℕ → ℕ → ℕ → Option (ℕ × ℕ)
unfolding step_up step_down
steps fuel scalar accum place =
    step_up fuel scalar accum place >>= λ (accum', place'). step_down fuel scalar accum' place'

abbrev pub kept : ℕ → ℕ → ℕ
kept place size =
    let place' = if signed_lt place 0 then 0 else place in
    if signed_le size place' then size - 1 else place'

-- A byte, taken as an `int8_t`, as a word.
abbrev pub widened : ℕ → ℕ
widened byte = let b = byte % 2 ^ 8 in if ltb b 128 then b else b + (2 ^ 32 - 256)

abbrev pub placed : TextualMouseHandler → ℕ × ℕ → ℕ × ℕ → TextualMouseHandler
placed m (accum_x, x) (accum_y, y) = record m {
  m_x = kept x 80;
  m_y = kept y 25;
  m_accum_x = accum_x;
  m_accum_y = accum_y;
}

unfoldable pub move : ℕ → TextualMouseHandler → ℕ → ℕ → Option TextualMouseHandler
unfolding invert
move fuel m x y =
    let m₁ = invert m in
    let x_scalar = m.m_sens in
    let y_scalar = 2 * m.m_sens % 2 ^ 8 in
    steps fuel x_scalar (add32 m.m_accum_x (widened x)) m.m_x >>= λ at_x.
    steps fuel y_scalar (add32 m.m_accum_y (widened y)) m.m_y >>= λ at_y.
    some (invert (placed m₁ at_x at_y))

unfoldable pub moves : ℕ → TextualMouseHandler → List (ℕ × ℕ) → Option TextualMouseHandler
unfolding move
moves fuel m [] = some m
moves fuel m ((x, y) ∷ rest) = move fuel m x y >>= λ m'. moves fuel m' rest

-- `on_button`: the cell is inverted for each of the three buttons that has changed.
unfoldable pub change_buttons : ℕ → ℕ → TextualMouseHandler → ℕ → TextualMouseHandler
unfolding invert
change_buttons zero bit m buttons = m
change_buttons (suc rounds) bit m buttons =
    let same = bit_and buttons bit == bit_and m.m_buttons bit in
    change_buttons rounds (2 * bit) (if same then m else invert m) buttons

unfoldable pub on_button : TextualMouseHandler → ℕ → ℕ × TextualMouseHandler
unfolding change_buttons
on_button m buttons = (buttons, record (change_buttons 3 0x01 m buttons) { m_buttons = buttons })
