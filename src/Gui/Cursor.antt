-- ===== src/Gui/Cursor.antt =====
-- The cursor of the desktop of src/gui/desktop.cpp.
use pingu_os.Common.{
  ℕ, ◌^◌, ◌≤◌, ◌<◌, ◌≡◌, refl, sym, ap, ◌∙◌, subst, arith, Option, some, ◌>>=◌, List, [], ◌∷◌,
  ==-refl, if◌then◌else◌,
}
use pingu_os.Drivers.Mouse.{MouseEvent, on_move, on_down, on_up}
use pingu_os.Gui.{Widget, Widgets, keep_inside, put_cursor, move_cursor, on_event, on_events}
use pingu_os.Gui.Shape.{
  links_of, SameLinks, put_same, links_same, Nested, Rooted, Nested-same, Rooted-same,
}
use pingu_os.Gui.Ends.{Ends, on_mouse_move-Ends, on_mouse_down-Ends, on_mouse_up-Ends}

-- The cursor is at most as far as the width and the height, which are not 0.
abbrev pub OnScreen : Widget → Type 0
OnScreen d =
    (0 < d.m_w)
    × (d.m_w < 2 ^ 31)
    × (0 < d.m_h)
    × (d.m_h < 2 ^ 31)
    × (d.cursor_x ≤ d.m_w)
    × (d.cursor_y ≤ d.m_h)

pub keep_inside-bounded :
    (place distance size : ℕ) → 0 < size → size < 2 ^ 31 → keep_inside place distance size ≤ size
unfolding keep_inside
keep_inside-bounded place distance size some_size small = ground arith

-- A call that ends, with the same links and the cursor on the screen.
abbrev Keeps : Widgets → ℕ → Option Widgets → Type 0
Keeps ui this r = (ui' : Widgets) × (r ≡ some ui') × SameLinks ui ui' × OnScreen (ui' this)

from_shape :
    (ui : Widgets) (this : ℕ) (r : Option Widgets)
    → OnScreen (ui this)
    → Ends ui r
    → Keeps ui this r
unfolding Ends
from_shape ui this r on (ui', e, same) =
    (ui', e, links_same ui ui' same, subst OnScreen (sym (same this)) on)

put_cursor-OnScreen :
    (ui : Widgets) (this x y : ℕ)
    → OnScreen (record (ui this) { cursor_x = x; cursor_y = y })
    → OnScreen (put_cursor ui this x y this)
put_cursor-OnScreen ui this x y on =
    let w : Widget = record (ui this) { cursor_x = x; cursor_y = y } in
    subst OnScreen (sym (ap (λ b. if b then w else ui this) (==-refl this))) on

on_event-Keeps :
    (fuel : ℕ) (ui : Widgets) (this : ℕ) (event : MouseEvent)
    → ((a : ℕ) → Rooted ui fuel a)
    → Nested ui fuel this
    → OnScreen (ui this)
    → Keeps ui this (on_event fuel ui this event)
unfolding on_event move_cursor Ends
on_event-Keeps fuel ui this (on_down button) rooted nested on = from_shape ui this _ on (
    on_mouse_down-Ends fuel fuel ui this (ui this).cursor_x (ui this).cursor_y button rooted nested)
on_event-Keeps fuel ui this (on_up button) rooted nested on =
    from_shape ui this _ on
      (on_mouse_up-Ends fuel ui this (ui this).cursor_x (ui this).cursor_y button nested)
on_event-Keeps fuel ui this (on_move x y) rooted nested on =
    let d = ui this in
    let new_x = keep_inside d.cursor_x x d.m_w in
    let new_y = keep_inside d.cursor_y y d.m_h in
    let (ui₁, e, same) = on_mouse_move-Ends fuel ui this d.cursor_x d.cursor_y new_x new_y nested in
    let w : (ui₁ this).m_w ≡ d.m_w = ap (λ (w : Widget). w.m_w) (same this) in
    let h : (ui₁ this).m_h ≡ d.m_h = ap (λ (w : Widget). w.m_h) (same this) in
    let (some_w, small_w, some_h, small_h, in_x, in_y) = on in
    let x' = keep_inside-bounded d.cursor_x x d.m_w some_w small_w in
    let y' = keep_inside-bounded d.cursor_y y d.m_h some_h small_h in
    (
      put_cursor ui₁ this new_x new_y,
      ap (λ (r : Option Widgets). r >>= λ ui'. some (put_cursor ui' this new_x new_y)) e,
      λ a.
          put_same links_of ui₁ this (record (ui₁ this) { cursor_x = new_x; cursor_y = new_y }) refl
            a
          ∙ links_same ui ui₁ same a,
      put_cursor-OnScreen ui₁ this new_x new_y (
        omega (arith, w, some_w),
        omega (arith, w, small_w),
        omega (arith, h, some_h),
        omega (arith, h, small_h),
        omega (arith, w, x'),
        omega (arith, h, y'),
      ),
    )

-- Where below the desktop are at most `fuel` levels of widgets, and each widget is at most `fuel`
-- steps from one without a parent, any sequence of mouse events is handled to its end, and leaves
-- the cursor between 0 and the width, and between 0 and the height: it can be one column or row
-- behind the last one.
pub on_events-OnScreen :
    (fuel : ℕ) (ui : Widgets) (this : ℕ) (events : List MouseEvent)
    → ((a : ℕ) → Rooted ui fuel a)
    → Nested ui fuel this
    → OnScreen (ui this)
    → (ui' : Widgets) × (on_events fuel ui this events ≡ some ui') × OnScreen (ui' this)
unfolding on_events
on_events-OnScreen fuel ui this [] rooted nested on = (ui, refl, on)
on_events-OnScreen fuel ui this (event ∷ events) rooted nested on =
    let (ui₁, e, same, on₁) = on_event-Keeps fuel ui this event rooted nested on in
    let (ui₂, e', on₂) =
      on_events-OnScreen fuel ui₁ this events (λ a. Rooted-same fuel ui ui₁ a same (rooted a))
        (Nested-same fuel ui ui₁ this same nested) on₁ in
    (ui₂, ap (λ (r : Option Widgets). r >>= λ ui'. on_events fuel ui' this events) e ∙ e', on₂)
