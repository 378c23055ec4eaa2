-- ===== src/Gui/Dragging.antt =====
-- A window of src/gui/window.cpp that is dragged.
use pingu_os.Common.{
  ℕ, suc, ◌+◌, ◌^◌, ◌<◌, ◌≡◌, refl, ap, ◌∙◌, subst, arith, true, Option, none, some, ◌>>=◌, List,
  ◌∷◌, if◌then◌else◌, get_or, length, add32, sub32,
}
use mathlib.Core.Path.{fun_ext}
use pingu_os.Vga.{signed_lt, signed_le}
use pingu_os.Gui.{
  Class, widget, window, Widget, Widgets, put, children, children_of, contains_coordinate,
  find_child, dragged, move_child, move_below, other_child, child_at, on_mouse_move,
}
use pingu_os.Gui.Shape.{links_of, SameLinks, put_same}
use pingu_os.Gui.Ends.{Inside, found_child-Inside, other_child-Inside}

pub put_self : (ui : Widgets) (this : ℕ) (w : Widget) → w ≡ ui this → put ui this w ≡ ui
put_self ui this w same = fun_ext (put_same (λ (w : Widget). w) ui this w same)

-- Where no call at a child changes anything, neither of the loops does.
quiet_below :
    (call : Widgets → ℕ → ℕ → ℕ → ℕ → ℕ → Option Widgets) (ui : Widgets)
    (this old_x old_y new_x new_y : ℕ)
    → ((found : Option ℕ)
        → Inside found (length (children (ui this)))
        → move_child call ui this old_x old_y new_x new_y found ≡ some ui)
    → move_below call ui this old_x old_y new_x new_y ≡ some ui
unfolding move_below
quiet_below call ui this old_x old_y new_x new_y quiet =
    let w = ui this in
    let first = child_at ui this old_x old_y in
    let second = child_at ui this new_x new_y in
    let inside = λ (x y : ℕ). found_child-Inside ui (children w) (sub32 x w.m_x) (sub32 y w.m_y) in
    let then_second = λ (ui' : Widgets).
      move_child call ui' this old_x old_y new_x new_y
        (other_child first (child_at ui' this new_x new_y)) in
    ap (λ (r : Option Widgets). r >>= then_second) (quiet first (inside old_x old_y))
    ∙ quiet (other_child first second)
        (other_child-Inside first second (length (children w)) (inside new_x new_y))

no_child :
    (call : Widgets → ℕ → ℕ → ℕ → ℕ → ℕ → Option Widgets) (ui : Widgets)
    (this old_x old_y new_x new_y n : ℕ)
    → n ≡ 0
    → (found : Option ℕ) → Inside found n
    → move_child call ui this old_x old_y new_x new_y found ≡ some ui
unfolding move_child
no_child call ui this old_x old_y new_x new_y n e none inside = refl
no_child call ui this old_x old_y new_x new_y n e (some i) inside =
    absurd (omega (arith, e, inside i refl))

-- A plain widget does nothing.
plain_move :
    (fuel : ℕ) (ui : Widgets) (this old_x old_y new_x new_y : ℕ)
    → (ui this).class ≡ widget
    → on_mouse_move (suc fuel) ui this old_x old_y new_x new_y ≡ some ui
unfolding on_mouse_move
plain_move fuel ui this old_x old_y new_x new_y plain =
    let w = ui this in
    let dx = sub32 new_x old_x in
    let dy = sub32 new_y old_y in
    let same =
      put_self ui this (dragged w.class w dx dy) (ap (λ (c : Class). dragged c w dx dy) plain) in
    let childless : length (children w) ≡ 0 =
      ap (λ (c : Class). length (children_of c w.m_children)) plain in
    ap (λ (u : Widgets). move_below (on_mouse_move fuel) u this old_x old_y new_x new_y) same
    ∙ quiet_below (on_mouse_move fuel) ui this old_x old_y new_x new_y (
        no_child (on_mouse_move fuel) ui this old_x old_y new_x new_y (length (children w))
          childless)

unfoldable pub AllPlain : Widgets → ℕ → Type 0
AllPlain ui this =
    (i : ℕ)
    → i < length (children (ui this))
    → (ui (get_or (children (ui this)) i 0)).class ≡ widget

pub AllPlain-same :
    (ui ui' : Widgets) (this : ℕ) → SameLinks ui ui' → AllPlain ui this → AllPlain ui' this
unfolding AllPlain
AllPlain-same ui ui' this same plain = λ i lt.
    let kids : children (ui' this) ≡ children (ui this) = ap children (same this) in
    let lt' = subst (λ (l : List ℕ). i < length l) kids lt in
    let child = get_or (children (ui this)) i 0 in
    ap (λ (l : List ℕ). (ui' (get_or l i 0)).class) kids
    ∙ ap (λ (w : Widget). w.class) (same child)
    ∙ plain i lt'

plain_child :
    (fuel : ℕ) (ui : Widgets) (this old_x old_y new_x new_y : ℕ) (found : Option ℕ)
    → AllPlain ui this
    → Inside found (length (children (ui this)))
    → move_child (on_mouse_move (suc fuel)) ui this old_x old_y new_x new_y found ≡ some ui
unfolding move_child AllPlain
plain_child fuel ui this old_x old_y new_x new_y none plain inside = refl
plain_child fuel ui this old_x old_y new_x new_y (some i) plain inside =
    let w = ui this in
    plain_move fuel ui (get_or (children w) i 0) (sub32 old_x w.m_x) (sub32 old_y w.m_y)
      (sub32 new_x w.m_x) (sub32 new_y w.m_y) (plain i (inside i refl))

-- A window over plain widgets that is dragged only moves.
pub window_move :
    (fuel : ℕ) (ui : Widgets) (this old_x old_y new_x new_y : ℕ)
    → (ui this).class ≡ window
    → (ui this).m_dragged ≡ true
    → AllPlain ui this
    → let w = ui this in
      on_mouse_move (suc (suc fuel)) ui this old_x old_y new_x new_y
      ≡ some (
          put ui this (record w {
            m_x = add32 w.m_x (sub32 new_x old_x);
            m_y = add32 w.m_y (sub32 new_y old_y);
          }))
unfolding on_mouse_move
window_move fuel ui this old_x old_y new_x new_y is_window held plain =
    let w = ui this in
    let dx = sub32 new_x old_x in
    let dy = sub32 new_y old_y in
    let w' : Widget = record w { m_x = add32 w.m_x dx; m_y = add32 w.m_y dy } in
    let now : dragged w.class w dx dy ≡ w' =
      ap (λ (c : Class). dragged c w dx dy) is_window ∙ ap (λ b. if b then w' else w) held in
    let ui' = put ui this w' in
    let call = on_mouse_move (suc fuel) in
    let same = put_same links_of ui this w' refl in
    ap (λ (w : Widget). move_below call (put ui this w) this old_x old_y new_x new_y) now
    ∙ quiet_below call ui' this old_x old_y new_x new_y (λ found inside.
      plain_child fuel ui' this old_x old_y new_x new_y found (AllPlain-same ui ui' this same plain)
        inside)

-- The window in front is found at a place that it contains.
pub front_found :
    (ui : Widgets) (d w x y : ℕ) (rest : List ℕ)
    → children (ui d) ≡ w ∷ rest
    → contains_coordinate (ui w) (sub32 x (ui d).m_x) (sub32 y (ui d).m_y) ≡ true
    → child_at ui d x y ≡ some 0
unfolding find_child
front_found ui d w x y rest kids inside =
    let x' = sub32 x (ui d).m_x in
    let y' = sub32 y (ui d).m_y in
    ap (λ (l : List ℕ). find_child ui l x' y' 0) kids
    ∙ ap (λ b. if b then some 0 else find_child ui rest x' y' (0 + 1)) inside

-- Two moves in one: the first call is at the window, and there is no second one.
pub front_move :
    (call : Widgets → ℕ → ℕ → ℕ → ℕ → ℕ → Option Widgets) (ui ui' : Widgets)
    (d w old_x old_y new_x new_y : ℕ) (rest : List ℕ)
    → children (ui d) ≡ w ∷ rest
    → child_at ui d old_x old_y ≡ some 0
    → child_at ui' d new_x new_y ≡ some 0
    → let o = ui d in
      call ui w (sub32 old_x o.m_x) (sub32 old_y o.m_y) (sub32 new_x o.m_x) (sub32 new_y o.m_y)
        ≡ some ui'
      → move_below call ui d old_x old_y new_x new_y ≡ some ui'
unfolding move_below move_child
front_move call ui ui' d w old_x old_y new_x new_y rest kids first second answer =
    let o = ui d in
    let step = λ (found : Option ℕ) (u : Widgets).
      move_child call u d old_x old_y new_x new_y (other_child found (child_at u d new_x new_y)) in
    let now =
      ap
        (λ (l : List ℕ).
          call ui (get_or l 0 0) (sub32 old_x o.m_x) (sub32 old_y o.m_y) (sub32 new_x o.m_x)
            (sub32 new_y o.m_y))
        kids
      ∙ answer in
    ap (λ (found : Option ℕ). move_child call ui d old_x old_y new_x new_y found >>= step found)
      first
    ∙ ap (λ (r : Option Widgets). r >>= step (some 0)) now
    ∙ ap
        (λ (found : Option ℕ).
          move_child call ui' d old_x old_y new_x new_y (other_child (some 0) found))
        second

pub contains_lem :
    (w : Widget) (x y : ℕ)
    → x < 2 ^ 16
    → y < 2 ^ 16
    → w.m_x < 2 ^ 32
    → w.m_y < 2 ^ 32
    → w.m_w < 2 ^ 15
    → w.m_h < 2 ^ 15
    → sub32 x w.m_x < w.m_w
    → sub32 y w.m_y < w.m_h
    → contains_coordinate w x y ≡ true
unfolding contains_coordinate
contains_lem w x y hx hy wx wy sx sy gx gy =
    let left : signed_le w.m_x x ≡ true = ground arith in
    let right : signed_lt x (add32 w.m_x w.m_w) ≡ true = ground arith in
    let top : signed_le w.m_y y ≡ true = ground arith in
    let bottom : signed_lt y (add32 w.m_y w.m_h) ≡ true = ground arith in
    rw (left, right, top, bottom) refl
