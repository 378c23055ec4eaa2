-- ===== src/Gui.antt =====
-- src/gui/: widgets, composite widgets, windows and the desktop.
pub mod Draw
pub mod Shape
pub mod Ends
pub mod Cursor
pub mod Dragging
pub mod Grip
pub mod Focus
mod Examples
use pingu_os.Common.{
  ℕ, zero, suc, ◌+◌, ◌-◌, ◌*◌, ◌/◌, ◌%◌, ◌^◌, Bool, true, false, not, ◌&&◌, ◌||◌, Option, none,
  some, ◌>>=◌, List, [], ◌∷◌, ◌++◌, ◌==◌, ltb, leb, if◌then◌else◌, get_or, length, add32, sub32,
}
use pingu_os.Vga.{Rgb, signed_lt, signed_le}
use pingu_os.Drivers.Mouse.{MouseEvent, on_move, on_down, on_up}

-- The classes, of which the later ones are composite widgets.
pub data Class : Type 0 where
  widget composite window desktop : Class

-- The fields of all classes. Coordinates are 32-bit words. `m_children` holds as many children as
-- `m_num_children` says, and `cursor_x` and `cursor_y` are the fields `m_x` and `m_y` that Desktop
-- declares beside those of Widget.
pub record Widget : Type 0 where
  pub class : Class
  pub m_parent : ℕ
  pub m_x : ℕ
  pub m_y : ℕ
  pub m_w : ℕ
  pub m_h : ℕ
  pub m_color : Rgb
  pub m_focusable : Bool
  pub m_children : List ℕ
  pub m_focused_child : ℕ
  pub m_dragged : Bool
  pub cursor_x : ℕ
  pub cursor_y : ℕ

-- The widgets at their addresses.
abbrev pub Widgets : Type 0
Widgets = ℕ → Widget

abbrev pub put : Widgets → ℕ → Widget → Widgets
put ui this w = λ a. if a == this then w else ui a

-- The constructors.
unfoldable pub new_widget : ℕ → ℕ → ℕ → ℕ → ℕ → Rgb → Widget
new_widget parent x y w h color = record {
  class = widget;
  m_parent = parent;
  m_x = x;
  m_y = y;
  m_w = w;
  m_h = h;
  m_color = color;
  m_focusable = true;
  m_children = [];
  m_focused_child = 0;
  m_dragged = false;
  cursor_x = 0;
  cursor_y = 0;
}

unfoldable pub new_composite : ℕ → ℕ → ℕ → ℕ → ℕ → Rgb → Widget
unfolding new_widget
new_composite parent x y w h color = record (new_widget parent x y w h color) { class = composite }

unfoldable pub new_window : ℕ → ℕ → ℕ → ℕ → ℕ → Rgb → Widget
unfolding new_widget
new_window parent x y w h color = record (new_widget parent x y w h color) { class = window }

unfoldable pub new_desktop : ℕ → ℕ → Rgb → Widget
unfolding new_widget
new_desktop w h color = record (new_widget 0 0 0 w h color) {
  class = desktop;
  cursor_x = w / 2;
  cursor_y = h / 2;
}

unfoldable pub contains_coordinate : Widget → ℕ → ℕ → Bool
contains_coordinate w x y =
    signed_le w.m_x x
    && signed_lt x (add32 w.m_x w.m_w)
    && signed_le w.m_y y
    && signed_lt y (add32 w.m_y w.m_h)

abbrev pub max_children : ℕ
max_children = 100

unfoldable pub add_child : Widgets → ℕ → ℕ → Bool × Widgets
add_child ui this child =
    let w = ui this in
    if leb max_children (length w.m_children)
    then (false, ui)
    else (true, put ui this (record w { m_children = w.m_children ++ child ∷ [] }))

abbrev pub focus : Class → Widget → ℕ → Widget
focus widget w child = w
focus composite w child = record w { m_focused_child = child }
focus window w child = record w { m_focused_child = child }
focus desktop w child = record w { m_focused_child = child }

-- Calls between widgets are on fuel: `none` if they go on after it.
unfoldable pub get_focus : ℕ → Widgets → ℕ → ℕ → Option Widgets
get_focus zero ui this child = none
get_focus (suc fuel) ui this child =
    let w = ui this in
    let ui' = put ui this (focus w.class w child) in
    let up = get_focus fuel ui' w.m_parent child in if w.m_parent == 0 then some ui' else up

-- The children of a composite widget; a plain one has none.
abbrev pub children_of : Class → List ℕ → List ℕ
children_of widget children = []
children_of composite children = children
children_of window children = children
children_of desktop children = children

abbrev pub children : Widget → List ℕ
children w = children_of w.class w.m_children

-- The index of the first child, from `i` on, that contains a place.
unfoldable pub find_child : Widgets → List ℕ → ℕ → ℕ → ℕ → Option ℕ
find_child ui [] x y i = none
find_child ui (child ∷ rest) x y i =
    let later = find_child ui rest x y (i + 1) in
    if contains_coordinate (ui child) x y then some i else later

-- What the classes do before they hand on to their children.
abbrev pub pressed : Class → Widget → ℕ → Widget
pressed window w button = if button == 1 then record w { m_dragged = true } else w
pressed widget w button = w
pressed composite w button = w
pressed desktop w button = w

abbrev pub released : Class → Widget → Widget
released window w = record w { m_dragged = false }
released widget w = w
released composite w = w
released desktop w = w

abbrev pub moved : Widget → ℕ → ℕ → Widget
moved w dx dy = if w.m_dragged then record w { m_x = add32 w.m_x dx; m_y = add32 w.m_y dy } else w

abbrev pub dragged : Class → Widget → ℕ → ℕ → Widget
dragged window w dx dy = moved w dx dy
dragged widget w dx dy = w
dragged composite w dx dy = w
dragged desktop w dx dy = w

abbrev pub is_plain : Class → Bool
is_plain widget = true
is_plain composite = false
is_plain window = false
is_plain desktop = false

-- A call at the child that has been found, if any.
unfoldable pub call_child :
    (Widgets → ℕ → ℕ → ℕ → Option Widgets) → Widgets → List ℕ → ℕ → ℕ → Option ℕ → Option Widgets
call_child call ui kids x y none = some ui
call_child call ui kids x y (some i) = call ui (get_or kids i 0) x y

-- `links` is the fuel for the way up to the parents.
unfoldable pub on_mouse_down : ℕ → ℕ → Widgets → ℕ → ℕ → ℕ → ℕ → Option Widgets
unfolding call_child
on_mouse_down links zero ui this x y button = none
on_mouse_down links (suc fuel) ui this x y button =
    let w = ui this in
    let ui' = put ui this (pressed w.class w button) in
    let x' = sub32 x w.m_x in
    let y' = sub32 y w.m_y in
    let up = get_focus links ui this this in
    let below =
      call_child (λ ui child x y. on_mouse_down links fuel ui child x y button) ui' (children w) x'
        y' (find_child ui' (children w) x' y' 0) in
    if is_plain w.class then (if w.m_focusable then up else some ui) else below

unfoldable pub on_mouse_up : ℕ → Widgets → ℕ → ℕ → ℕ → ℕ → Option Widgets
unfolding call_child
on_mouse_up zero ui this x y button = none
on_mouse_up (suc fuel) ui this x y button =
    let w = ui this in
    let ui' = put ui this (released w.class w) in
    let x' = sub32 x w.m_x in
    let y' = sub32 y w.m_y in
    call_child (λ ui child x y. on_mouse_up fuel ui child x y button) ui' (children w) x' y'
      (find_child ui' (children w) x' y' 0)

abbrev pub is_index : Option ℕ → ℕ → Bool
is_index none i = false
is_index (some first) i = first == i

-- A call at a child, in the coordinates of `this`, for the child at an index.
unfoldable pub move_child :
    (Widgets → ℕ → ℕ → ℕ → ℕ → ℕ → Option Widgets)
    → Widgets
    → ℕ
    → ℕ
    → ℕ
    → ℕ
    → ℕ
    → Option ℕ
    → Option Widgets
move_child call ui this old_x old_y new_x new_y none = some ui
move_child call ui this old_x old_y new_x new_y (some i) =
    let w = ui this in
    call ui (get_or (children w) i 0) (sub32 old_x w.m_x) (sub32 old_y w.m_y) (sub32 new_x w.m_x)
      (sub32 new_y w.m_y)

-- The second loop stops at the child of the first one without a call.
abbrev pub other_child : Option ℕ → Option ℕ → Option ℕ
other_child first none = none
other_child first (some i) = if is_index first i then none else some i

abbrev pub child_at : Widgets → ℕ → ℕ → ℕ → Option ℕ
child_at ui this x y =
    let w = ui this in find_child ui (children w) (sub32 x w.m_x) (sub32 y w.m_y) 0

-- The two loops of a composite widget.
unfoldable pub move_below :
    (Widgets → ℕ → ℕ → ℕ → ℕ → ℕ → Option Widgets) → Widgets → ℕ → ℕ → ℕ → ℕ → ℕ → Option Widgets
move_below call ui this old_x old_y new_x new_y =
    let first = child_at ui this old_x old_y in
    move_child call ui this old_x old_y new_x new_y first >>= λ ui'.
    move_child call ui' this old_x old_y new_x new_y
      (other_child first (child_at ui' this new_x new_y))

unfoldable pub on_mouse_move : ℕ → Widgets → ℕ → ℕ → ℕ → ℕ → ℕ → Option Widgets
unfolding move_below move_child
on_mouse_move zero ui this old_x old_y new_x new_y = none
on_mouse_move (suc fuel) ui this old_x old_y new_x new_y =
    let w = ui this in
    move_below (on_mouse_move fuel)
      (put ui this (dragged w.class w (sub32 new_x old_x) (sub32 new_y old_y))) this old_x old_y
      new_x new_y

-- The widget that a key ends at: a composite widget hands it to its focused child.
unfoldable pub on_key_down : ℕ → Widgets → ℕ → Option ℕ
on_key_down zero ui this = none
on_key_down (suc fuel) ui this =
    let w = ui this in
    let handed = on_key_down fuel ui w.m_focused_child in
    if is_plain w.class || w.m_focused_child == 0 then some this else handed

-- An `int8_t` as a word.
abbrev pub extend8 : ℕ → ℕ
extend8 byte = if ltb byte 128 then byte else byte + (2 ^ 32 - 256)

-- The cursor after a distance, kept on a screen of `size` columns or rows.
unfoldable pub keep_inside : ℕ → ℕ → ℕ → ℕ
keep_inside place distance size =
    let new = add32 place (extend8 distance) in
    let new' = if signed_lt new 0 then 0 else new in
    if signed_lt size new' then sub32 size 1 else new'

abbrev pub put_cursor : Widgets → ℕ → ℕ → ℕ → Widgets
put_cursor ui this x y = put ui this (record (ui this) { cursor_x = x; cursor_y = y })

unfoldable pub move_cursor : ℕ → Widgets → ℕ → ℕ → ℕ → Option Widgets
move_cursor fuel ui this x y =
    let d = ui this in
    let new_x = keep_inside d.cursor_x x d.m_w in
    let new_y = keep_inside d.cursor_y y d.m_h in
    on_mouse_move fuel ui this d.cursor_x d.cursor_y new_x new_y >>= λ ui'.
    some (put_cursor ui' this new_x new_y)

-- `on_move`, `on_down` and `on_up` of the desktop.
unfoldable pub on_event : ℕ → Widgets → ℕ → MouseEvent → Option Widgets
on_event fuel ui this (on_move x y) = move_cursor fuel ui this x y
on_event fuel ui this (on_down button) =
    on_mouse_down fuel fuel ui this (ui this).cursor_x (ui this).cursor_y button
on_event fuel ui this (on_up button) =
    on_mouse_up fuel ui this (ui this).cursor_x (ui this).cursor_y button

unfoldable pub on_events : ℕ → Widgets → ℕ → List MouseEvent → Option Widgets
unfolding on_event
on_events fuel ui this [] = some ui
on_events fuel ui this (event ∷ events) =
    on_event fuel ui this event >>= λ ui'. on_events fuel ui' this events
