-- ===== src/Gui/Grip.antt =====
-- The window that is dragged goes with the cursor: src/gui/window.cpp, src/gui/desktop.cpp.
use pingu_os.Common.{
  ℕ, suc, ◌^◌, ◌≤◌, ◌<◌, ◌≡◌, refl, sym, ap, ap₂, ◌∙◌, subst, arith, true, false, Option, some,
  ◌>>=◌, List, [], ◌∷◌, ◌==◌, ==-refl, if◌then◌else◌, add32, sub32, map,
}
use pingu_os.Drivers.Mouse.{MouseEvent, on_move}
use pingu_os.Gui.{
  Class, window, desktop, Widget, Widgets, put, children, children_of, contains_coordinate, dragged,
  move_below, on_mouse_move, keep_inside, put_cursor, move_cursor, on_event, on_events,
}
use pingu_os.Gui.Shape.{links_of, SameLinks, put_same}
use pingu_os.Gui.Cursor.{keep_inside-bounded}
use pingu_os.Gui.Dragging.{
  put_self, AllPlain, AllPlain-same, window_move, front_found, front_move, contains_lem,
}

-- The window `win` at the address `w` is the first child of a desktop, it is dragged, and the cursor
-- is on it, at this distance from its corner.
pub record IsHeld (o win : Widget) (w : ℕ) (rest : List ℕ) (grip_x grip_y : ℕ) : Type 0 where
  pub at_desktop : o.class ≡ desktop
  pub front : o.m_children ≡ w ∷ rest
  pub origin : (o.m_x ≡ 0) × (o.m_y ≡ 0)
  pub some_screen : (0 < o.m_w) × (0 < o.m_h)
  pub small_screen : (o.m_w < 2 ^ 15) × (o.m_h < 2 ^ 15)
  pub on_screen : (o.cursor_x ≤ o.m_w) × (o.cursor_y ≤ o.m_h)
  pub at_window : win.class ≡ window
  pub held : win.m_dragged ≡ true
  pub small_window : (win.m_w < 2 ^ 15) × (win.m_h < 2 ^ 15)
  pub words : (win.m_x < 2 ^ 32) × (win.m_y < 2 ^ 32)
  pub grips : (sub32 o.cursor_x win.m_x ≡ grip_x) × (sub32 o.cursor_y win.m_y ≡ grip_y)
  pub inside : (grip_x < win.m_w) × (grip_y < win.m_h)

-- A coordinate of the window goes with the cursor.
same_grip :
    (m old new origin grip : ℕ)
    → origin ≡ 0
    → m < 2 ^ 32
    → old < 2 ^ 16
    → new < 2 ^ 16
    → sub32 old m ≡ grip
    → let m' = add32 m (sub32 (sub32 new origin) (sub32 old origin)) in
      (sub32 new origin ≡ new) × (sub32 old origin ≡ old) × (sub32 new m' ≡ grip)
same_grip m old new origin grip z hm ho hn g =
    let n : sub32 new origin ≡ new = omega (arith, z, hn) in
    let o : sub32 old origin ≡ old = omega (arith, z, ho) in
    (n, o, rw (n, o) (omega (arith, hm, ho, hn, g)))

-- The window after a move of the cursor.
abbrev follow : Widget → Widget → ℕ → ℕ → Widget
follow o win new_x new_y = record win {
  m_x = add32 win.m_x (sub32 (sub32 new_x o.m_x) (sub32 o.cursor_x o.m_x));
  m_y = add32 win.m_y (sub32 (sub32 new_y o.m_y) (sub32 o.cursor_y o.m_y));
}

abbrev pointed : Widget → ℕ → ℕ → Widget
pointed o new_x new_y = record o { cursor_x = new_x; cursor_y = new_y }

module _ (o win : Widget) (w : ℕ) (rest : List ℕ) (grip_x grip_y new_x new_y : ℕ)
    (h : IsHeld o win w rest grip_x grip_y) (in_x : new_x ≤ o.m_w) (in_y : new_y ≤ o.m_h) where
  grip_at_x :
      (sub32 new_x o.m_x ≡ new_x)
      × (sub32 o.cursor_x o.m_x ≡ o.cursor_x)
      × (sub32 new_x (follow o win new_x new_y).m_x ≡ grip_x)
  grip_at_x =
      same_grip win.m_x o.cursor_x new_x o.m_x grip_x h.origin.0 h.words.0
        (omega (arith, h.on_screen, h.small_screen)) (omega (arith, in_x, h.small_screen)) h.grips.0

  grip_at_y :
      (sub32 new_y o.m_y ≡ new_y)
      × (sub32 o.cursor_y o.m_y ≡ o.cursor_y)
      × (sub32 new_y (follow o win new_x new_y).m_y ≡ grip_y)
  grip_at_y =
      same_grip win.m_y o.cursor_y new_y o.m_y grip_y h.origin.1 h.words.1
        (omega (arith, h.on_screen, h.small_screen)) (omega (arith, in_y, h.small_screen)) h.grips.1

  held_before : contains_coordinate win (sub32 o.cursor_x o.m_x) (sub32 o.cursor_y o.m_y) ≡ true
  held_before =
      let kx = grip_at_x.1 in
      let ky = grip_at_y.1 in
      contains_lem win (sub32 o.cursor_x o.m_x) (sub32 o.cursor_y o.m_y)
        (omega (arith, kx, h.on_screen, h.small_screen))
        (omega (arith, ky, h.on_screen, h.small_screen)) h.words.0 h.words.1 h.small_window.0
        h.small_window.1 (omega (arith, kx, h.grips, h.inside))
        (omega (arith, ky, h.grips, h.inside))

  held_after :
      contains_coordinate (follow o win new_x new_y) (sub32 new_x o.m_x) (sub32 new_y o.m_y) ≡ true
  held_after =
      let kx = grip_at_x in
      let ky = grip_at_y in
      contains_lem (follow o win new_x new_y) (sub32 new_x o.m_x) (sub32 new_y o.m_y)
        (omega (arith, kx.0, in_x, h.small_screen)) (omega (arith, ky.0, in_y, h.small_screen))
        (omega arith) (omega arith) h.small_window.0 h.small_window.1
        (rw kx.0 (omega (arith, kx.2, h.inside))) (rw ky.0 (omega (arith, ky.2, h.inside)))

  still-IsHeld : IsHeld (pointed o new_x new_y) (follow o win new_x new_y) w rest grip_x grip_y
  still-IsHeld = record {
    at_desktop = h.at_desktop;
    front = h.front;
    origin = h.origin;
    some_screen = h.some_screen;
    small_screen = h.small_screen;
    on_screen = (in_x, in_y);
    at_window = h.at_window;
    held = h.held;
    small_window = h.small_window;
    words = (omega arith, omega arith);
    grips = (grip_at_x.2, grip_at_y.2);
    inside = h.inside;
  }

module _ (ui : Widgets) (d w : ℕ) (rest : List ℕ) (grip_x grip_y : ℕ) (apart : (d == w) ≡ false)
    (plain : AllPlain ui w) (h : IsHeld (ui d) (ui w) w rest grip_x grip_y) where
  -- Of all widgets only the window changes.
  drag_move :
      (fuel new_x new_y : ℕ)
      → new_x ≤ (ui d).m_w
      → new_y ≤ (ui d).m_h
      → let o = ui d in
        on_mouse_move (suc (suc (suc fuel))) ui d o.cursor_x o.cursor_y new_x new_y
        ≡ some (put ui w (follow o (ui w) new_x new_y))
  unfolding on_mouse_move
  drag_move fuel new_x new_y in_x in_y =
      let o = ui d in
      let win = ui w in
      let win' = follow o win new_x new_y in
      let ui₁ = put ui w win' in
      let nx = sub32 new_x o.m_x in
      let ny = sub32 new_y o.m_y in
      let at_d : ui₁ d ≡ o = ap (λ b. if b then win' else o) apart in
      let at_w : ui₁ w ≡ win' = ap (λ b. if b then win' else win) (==-refl w) in
      let call = on_mouse_move (suc (suc fuel)) in
      let kids : children o ≡ w ∷ rest = ap₂ children_of h.at_desktop h.front in
      let before = held_before o win w rest grip_x grip_y new_x new_y h in_x in_y in
      let after = held_after o win w rest grip_x grip_y new_x new_y h in_x in_y in
      let second = front_found ui₁ d w new_x new_y rest (ap children at_d ∙ kids) (
        subst
          (λ (v : Widget).
            contains_coordinate (ui₁ w) (sub32 new_x v.m_x) (sub32 new_y v.m_y) ≡ true)
          (sym at_d)
          (subst (λ (v : Widget). contains_coordinate v nx ny ≡ true) (sym at_w) after)) in
      let unmoved =
        ap (λ (c : Class). dragged c o (sub32 new_x o.cursor_x) (sub32 new_y o.cursor_y))
          h.at_desktop in
      ap (λ (u : Widgets). move_below call u d o.cursor_x o.cursor_y new_x new_y)
        (put_self ui d _ unmoved)
      ∙ front_move call ui ui₁ d w o.cursor_x o.cursor_y new_x new_y rest kids
          (front_found ui d w o.cursor_x o.cursor_y rest kids before) second
          (window_move fuel ui w (sub32 o.cursor_x o.m_x) (sub32 o.cursor_y o.m_y) nx ny h.at_window
            h.held plain)

  drag_step :
      (fuel x y : ℕ)
      → (ui' : Widgets) × (on_event (suc (suc (suc fuel))) ui d (on_move x y) ≡ some ui')
        × AllPlain ui' w
        × IsHeld (ui' d) (ui' w) w rest grip_x grip_y
  unfolding on_event move_cursor
  drag_step fuel x y =
      let o = ui d in
      let win = ui w in
      let new_x = keep_inside o.cursor_x x o.m_w in
      let new_y = keep_inside o.cursor_y y o.m_h in
      let small = h.small_screen in
      let in_x = keep_inside-bounded o.cursor_x x o.m_w h.some_screen.0 (omega (arith, small)) in
      let in_y = keep_inside-bounded o.cursor_y y o.m_h h.some_screen.1 (omega (arith, small)) in
      let win' = follow o win new_x new_y in
      let ui₁ = put ui w win' in
      let o₁ = pointed (ui₁ d) new_x new_y in
      let ui₂ = put_cursor ui₁ d new_x new_y in
      let at_d : ui₂ d ≡ pointed o new_x new_y =
        ap (λ b. if b then o₁ else ui₁ d) (==-refl d)
        ∙ ap (λ b. pointed (if b then win' else o) new_x new_y) apart in
      let other : (w == d) ≡ false = ground (arith, apart) in
      let at_w : ui₂ w ≡ win' =
        ap (λ b. if b then o₁ else ui₁ w) other ∙ ap (λ b. if b then win' else win) (==-refl w) in
      let links : SameLinks ui ui₂ =
        λ a. put_same links_of ui₁ d o₁ refl a ∙ put_same links_of ui w win' refl a in
      let now = still-IsHeld o win w rest grip_x grip_y new_x new_y h in_x in_y in
      (
        ui₂,
        ap (λ (r : Option Widgets). r >>= λ u. some (put_cursor u d new_x new_y))
            (drag_move fuel new_x new_y in_x in_y),
        AllPlain-same ui ui₂ w links plain,
        subst (λ (v : Widget). IsHeld v (ui₂ w) w rest grip_x grip_y) (sym at_d)
            (subst (λ (v : Widget). IsHeld (pointed o new_x new_y) v w rest grip_x grip_y)
              (sym at_w) now),
      )

abbrev pub move_event : ℕ × ℕ → MouseEvent
move_event (x, y) = on_move x y

-- A window that is the first child of the desktop, has plain widgets only, and is dragged, goes with
-- the cursor: however often the mouse is moved, the cursor stays at the same distance from its
-- corner, also where it is held back by the edges of the screen. Screen and window have less than
-- 2^15 columns and rows.
pub on_events-IsHeld :
    (fuel : ℕ) (ui : Widgets) (d w : ℕ) (rest : List ℕ) (grip_x grip_y : ℕ) (moves : List (ℕ × ℕ))
    → (d == w) ≡ false
    → AllPlain ui w
    → IsHeld (ui d) (ui w) w rest grip_x grip_y
    → (ui' : Widgets) × (on_events (suc (suc (suc fuel))) ui d (map move_event moves) ≡ some ui')
      × IsHeld (ui' d) (ui' w) w rest grip_x grip_y
unfolding on_events
on_events-IsHeld fuel ui d w rest grip_x grip_y [] apart plain h = (ui, refl, h)
on_events-IsHeld fuel ui d w rest grip_x grip_y ((x, y) ∷ moves) apart plain h =
    let (ui₁, e, plain₁, h₁) = drag_step ui d w rest grip_x grip_y apart plain h fuel x y in
    let (ui₂, e', h₂) = on_events-IsHeld fuel ui₁ d w rest grip_x grip_y moves apart plain₁ h₁ in
    (
      ui₂,
      ap
            (λ (r : Option Widgets).
              r >>= λ u. on_events (suc (suc (suc fuel))) u d (map move_event moves))
            e
          ∙ e',
      h₂,
    )
