-- ===== src/Gui/Draw.antt =====
-- The drawing of the widgets of src/gui/.
use pingu_os.Common.{
  ℕ, zero, suc, ◌+◌, Option, none, some, ◌>>=◌, List, [], ◌∷◌, ◌==◌, if◌then◌else◌, add32, sub32,
}
use mathlib.Core.List.{reverse}
use pingu_os.Port.{Ports}
use pingu_os.Vga.{Rgb, Screen, put_pixel, fill_rectangle}
use pingu_os.Gui.{Class, widget, composite, window, desktop, Widget, Widgets, children}

unfoldable pub model_to_screen : ℕ → Widgets → ℕ → ℕ × ℕ → Option (ℕ × ℕ)
model_to_screen zero ui this place = none
model_to_screen (suc fuel) ui this place =
    let w = ui this in
    let up = model_to_screen fuel ui w.m_parent place in
    (if w.m_parent == 0 then some place else up) >>= λ (x, y). some (add32 x w.m_x, add32 y w.m_y)

abbrev pub white : Rgb
white = record { r = 0xFF; g = 0xFF; b = 0xFF }

module _ {P : Type 0} (io : Ports P) where
  unfoldable pub draw_widget : ℕ → Screen P → Widgets → ℕ → Option (Screen P)
  draw_widget fuel s ui this =
      let w = ui this in
      model_to_screen fuel ui this (0, 0) >>= λ (x, y).
      some (fill_rectangle io s x y w.m_w w.m_h w.m_color)

  -- The children in the order given.
  unfoldable pub draw_all :
      (Screen P → ℕ → Option (Screen P)) → Screen P → List ℕ → Option (Screen P)
  draw_all call s [] = some s
  draw_all call s (child ∷ rest) = call s child >>= λ s'. draw_all call s' rest

  -- The arms of the cursor, from `i` on.
  unfoldable pub draw_cursor : ℕ → ℕ → Screen P → ℕ → ℕ → Screen P
  draw_cursor zero i s x y = s
  draw_cursor (suc rounds) i s x y =
      let s₁ = put_pixel io s (sub32 x i) y white in
      let s₂ = put_pixel io s₁ (add32 x i) y white in
      let s₃ = put_pixel io s₂ x (sub32 y i) white in
      let s₄ = put_pixel io s₃ x (add32 y i) white in draw_cursor rounds (i + 1) s₄ x y

  abbrev pub finish : Class → Screen P → Widget → Screen P
  finish desktop s w = draw_cursor 4 0 s w.cursor_x w.cursor_y
  finish widget s w = s
  finish composite s w = s
  finish window s w = s

  -- A widget, then its children from the last one on, then the cursor of a desktop.
  unfoldable pub draw : ℕ → Screen P → Widgets → ℕ → Option (Screen P)
  draw zero s ui this = none
  draw (suc fuel) s ui this =
      let w = ui this in
      draw_widget (suc fuel) s ui this >>= λ s₁.
      draw_all (λ s' child. draw fuel s' ui child) s₁ (reverse (children w)) >>= λ s₂.
      some (finish w.class s₂ w)
