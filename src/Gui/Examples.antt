-- ===== src/Gui/Examples.antt =====
-- Tests: a desktop with a window, which has one plain widget.
use pingu_os.Common.{
  ℕ, zero, suc, ◌<◌, ◌≡◌, refl, arith, true, false, inl, inr, some, [], ◌∷◌, ◌==◌, if◌then◌else◌,
  get_or, map,
}
use pingu_os.Vga.{Rgb}
use pingu_os.Drivers.Mouse.{on_move, on_down, on_up}
use pingu_os.Gui.{widget, window, desktop, Widget, Widgets, on_events, on_mouse_down, on_key_down}
use pingu_os.Gui.Shape.{Nested, Rooted}
use pingu_os.Gui.Cursor.{OnScreen, on_events-OnScreen}
use pingu_os.Gui.Dragging.{AllPlain}
use pingu_os.Gui.Grip.{IsHeld, move_event, on_events-IsHeld}
use pingu_os.Gui.Focus.{Chain, on_mouse_down-focuses}

abbrev blue : Rgb
blue = record { r = 0; g = 0; b = 0xA8 }

abbrev bare : Widget
bare = record {
  class = widget;
  m_parent = 0;
  m_x = 0;
  m_y = 0;
  m_w = 0;
  m_h = 0;
  m_color = blue;
  m_focusable = true;
  m_children = [];
  m_focused_child = 0;
  m_dragged = false;
  cursor_x = 0;
  cursor_y = 0;
}

-- The desktop is at 1, its window at 2, the widget in it at 3; the cursor is on the window.
abbrev screen : Widget
screen = record bare {
  class = desktop;
  m_w = 320;
  m_h = 200;
  m_children = 2 ∷ [];
  cursor_x = 160;
  cursor_y = 100;
}

abbrev frame : Widget
frame = record bare {
  class = window;
  m_parent = 1;
  m_x = 150;
  m_y = 90;
  m_w = 30;
  m_h = 30;
  m_children = 3 ∷ [];
  m_dragged = true;
}

abbrev button : Widget
button = record bare { m_parent = 2; m_w = 10; m_h = 10 }

abbrev ui : Widgets
ui = λ a. if a == 1 then screen else (if a == 2 then frame else (if a == 3 then button else bare))

only_first : (P : ℕ → Type 0) (child : ℕ) → P child → (i : ℕ) → i < 1 → P (get_or (child ∷ []) i 0)
only_first P child h zero lt = h
only_first P child h (suc i) lt = absurd (omega (arith, lt))

ui-Nested : Nested ui 3 1
unfolding Nested
ui-Nested =
    only_first (λ a. Nested ui 2 a) 2
      (only_first (λ a. Nested ui 1 a) 3 (λ i lt. absurd (omega (arith, lt))))

ui-Rooted : (a : ℕ) → Rooted ui 3 a
unfolding Rooted
ui-Rooted zero = inl refl
ui-Rooted (suc zero) = inl refl
ui-Rooted (suc (suc zero)) = inr (inl refl)
ui-Rooted (suc (suc (suc zero))) = inr (inr (inl refl))
ui-Rooted (suc (suc (suc (suc a)))) = inl (
    let first : (suc (suc (suc (suc a))) == 1) ≡ false = ground arith in
    let second : (suc (suc (suc (suc a))) == 2) ≡ false = ground arith in
    let third : (suc (suc (suc (suc a))) == 3) ≡ false = ground arith in
    rw (first, second, third) refl)

ui-OnScreen : OnScreen (ui 1)
ui-OnScreen = (omega arith, omega arith, omega arith, omega arith, omega arith, omega arith)

on_events-OnScreen_example :
    (ui' : Widgets) × (on_events 3 ui 1 (on_down 1 ∷ on_move 100 0 ∷ on_move 100 0 ∷ on_up 1 ∷ [])
      ≡ some ui')
    × OnScreen (ui' 1)
on_events-OnScreen_example =
    on_events-OnScreen 3 ui 1 (on_down 1 ∷ on_move 100 0 ∷ on_move 100 0 ∷ on_up 1 ∷ []) ui-Rooted
      ui-Nested ui-OnScreen

frame-IsHeld : IsHeld (ui 1) (ui 2) 2 [] 10 10
frame-IsHeld = record {
  at_desktop = refl;
  front = refl;
  origin = (refl, refl);
  some_screen = (omega arith, omega arith);
  small_screen = (omega arith, omega arith);
  on_screen = (omega arith, omega arith);
  at_window = refl;
  held = refl;
  small_window = (omega arith, omega arith);
  words = (omega arith, omega arith);
  grips = (refl, refl);
  inside = (omega arith, omega arith);
}

frame-AllPlain : AllPlain ui 2
unfolding AllPlain
frame-AllPlain = only_first (λ a. (ui a).class ≡ widget) 3 refl

on_events-IsHeld_example :
    (ui' : Widgets) × (on_events 3 ui 1 (map move_event ((100, 246) ∷ (120, 5) ∷ [])) ≡ some ui')
    × IsHeld (ui' 1) (ui' 2) 2 [] 10 10
on_events-IsHeld_example =
    on_events-IsHeld 0 ui 1 2 [] 10 10 ((100, 246) ∷ (120, 5) ∷ []) refl frame-AllPlain frame-IsHeld

button-Chain : Chain ui 3 (2 ∷ 1 ∷ [])
unfolding Chain
button-Chain = (refl, refl, refl, (refl, refl, refl, refl))

on_mouse_down-focuses_example :
    (ui' : Widgets) × (on_mouse_down 3 1 ui 3 5 5 1 ≡ some ui')
    × ((i : ℕ) → i < 2 → on_key_down 2 ui' (get_or (2 ∷ 1 ∷ []) i 0) ≡ some 3)
on_mouse_down-focuses_example =
    on_mouse_down-focuses 3 0 ui 3 5 5 1 (2 ∷ 1 ∷ []) refl refl refl button-Chain (omega arith)
