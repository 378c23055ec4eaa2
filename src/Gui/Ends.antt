-- ===== src/Gui/Ends.antt =====
-- Why the calls between the widgets of src/gui/ end.
use pingu_os.Common.{
  ℕ, zero, suc, ◌+◌, ◌<◌, ◌≡◌, inl, inr, refl, sym, ap, ◌∙◌, arith, Bool-cases, Option, none, some,
  ◌>>=◌, List, [], ◌∷◌, ◌==◌, if◌then◌else◌, get_or, length, sub32,
}
use pingu_os.Gui.{
  Widgets, put, focus, get_focus, children, find_child, contains_coordinate, pressed, released,
  dragged, is_plain, is_index, call_child, on_mouse_down, on_mouse_up, move_child, move_below,
  other_child, child_at, on_mouse_move,
}
use pingu_os.Gui.Shape.{
  shape, SameShape, put_same, shape-focus, shape-pressed, shape-released, shape-dragged, Nested,
  Rooted, Nested-same, Rooted-same, links_same,
}

-- A call that ends, with the same shapes.
unfoldable pub Ends : Widgets → Option Widgets → Type 0
Ends ui r = (ui' : Widgets) × (r ≡ some ui') × SameShape ui ui'

Ends-from : (ui ui' : Widgets) (r : Option Widgets) → SameShape ui ui' → Ends ui' r → Ends ui r
unfolding Ends
Ends-from ui ui' r same (ui'', e, same') = (ui'', e, λ a. same' a ∙ same a)

Ends-bind :
    (ui : Widgets) (r : Option Widgets) (f : Widgets → Option Widgets)
    → Ends ui r
    → ((ui' : Widgets) → SameShape ui ui' → Ends ui' (f ui'))
    → Ends ui (r >>= f)
unfolding Ends
Ends-bind ui r f (ui', e, same) k =
    let (ui'', e', same') = k ui' same in
    (ui'', ap (λ (r : Option Widgets). r >>= f) e ∙ e', λ a. same' a ∙ same a)

get_focus-Ends :
    (fuel : ℕ) (ui : Widgets) (this child : ℕ)
    → Rooted ui fuel this
    → Ends ui (get_focus fuel ui this child)
unfolding get_focus Rooted Ends
get_focus-Ends zero ui this child h = absurd h
get_focus-Ends (suc fuel) ui this child h =
    let w = ui this in
    let ui' = put ui this (focus w.class w child) in
    let same = put_same shape ui this (focus w.class w child) (shape-focus w.class w child) in
    elim (Bool-cases (w.m_parent == 0)) [
      | inl top ↦ rw top (ui', refl, same)
      | inr below ↦ elim h [
        | inl top ↦ absurd (ground (arith, top, below))
        | inr up ↦ rw below (
            Ends-from ui ui' (get_focus fuel ui' w.m_parent child) same (
              get_focus-Ends fuel ui' w.m_parent child
                (Rooted-same fuel ui ui' w.m_parent (links_same ui ui' same) up)))
      ]
    ]

-- An index, if there is one, of a list of such a length.
abbrev pub Inside : Option ℕ → ℕ → Type 0
Inside found n = (i : ℕ) → found ≡ some i → i < n

nothing_found : (i : ℕ) → ◌≡◌ {A = Option ℕ} none (some i) → ⊥
nothing_found i e = cc

some-injective : (i j : ℕ) → ◌≡◌ {A = Option ℕ} (some i) (some j) → i ≡ j
some-injective i j e = cc

find_child-Inside :
    (ui : Widgets) (l : List ℕ) (x y i : ℕ) → Inside (find_child ui l x y i) (i + length l)
unfolding find_child
find_child-Inside ui [] x y i j e = absurd (nothing_found j e)
find_child-Inside ui (child ∷ rest) x y i j e =
    let later = find_child ui rest x y (i + 1) in
    elim (Bool-cases (contains_coordinate (ui child) x y)) [
      | inl here ↦
          let at_i = some-injective i j (sym (ap (λ b. if b then some i else later) here) ∙ e) in
          omega (arith, at_i)
      | inr beyond ↦
          let found = sym (ap (λ b. if b then some i else later) beyond) ∙ e in
          omega (arith, find_child-Inside ui rest x y (i + 1) j found)
    ]

pub found_child-Inside :
    (ui : Widgets) (l : List ℕ) (x y : ℕ) → Inside (find_child ui l x y 0) (length l)
found_child-Inside ui l x y j e = omega (arith, find_child-Inside ui l x y 0 j e)

pub other_child-Inside :
    (first found : Option ℕ) (n : ℕ) → Inside found n → Inside (other_child first found) n
other_child-Inside first none n h i e = absurd (nothing_found i e)
other_child-Inside first (some j) n h i e = elim (Bool-cases (is_index first j)) [
  | inl same ↦ absurd (nothing_found i (sym (ap (λ b. if b then none else some j) same) ∙ e))
  | inr other ↦ h i (sym (ap (λ b. if b then none else some j) other) ∙ e)
]

move_child-Ends :
    (fuel : ℕ)
    → ((ui : Widgets) (this old_x old_y new_x new_y : ℕ)
        → Nested ui fuel this
        → Ends ui (on_mouse_move fuel ui this old_x old_y new_x new_y))
    → (ui : Widgets) (this old_x old_y new_x new_y : ℕ) (found : Option ℕ)
    → Inside found (length (children (ui this)))
    → Nested ui (suc fuel) this
    → Ends ui (move_child (on_mouse_move fuel) ui this old_x old_y new_x new_y found)
unfolding move_child Ends Nested
move_child-Ends fuel call ui this old_x old_y new_x new_y none inside h = (ui, refl, λ a. refl)
move_child-Ends fuel call ui this old_x old_y new_x new_y (some i) inside h =
    let w = ui this in
    call ui (get_or (children w) i 0) (sub32 old_x w.m_x) (sub32 old_y w.m_y) (sub32 new_x w.m_x)
      (sub32 new_y w.m_y) (h i (inside i refl))

-- With as much fuel as there are levels, a call of `on_mouse_move` ends.
pub on_mouse_move-Ends :
    (fuel : ℕ) (ui : Widgets) (this old_x old_y new_x new_y : ℕ)
    → Nested ui fuel this
    → Ends ui (on_mouse_move fuel ui this old_x old_y new_x new_y)
unfolding on_mouse_move move_below
on_mouse_move-Ends zero ui this old_x old_y new_x new_y h = absurd (unfold Nested in h)
on_mouse_move-Ends (suc fuel) ui this old_x old_y new_x new_y h =
    let w = ui this in
    let w₁ = dragged w.class w (sub32 new_x old_x) (sub32 new_y old_y) in
    let ui₁ = put ui this w₁ in
    let same₁ =
      put_same shape ui this w₁ (shape-dragged w.class w (sub32 new_x old_x) (sub32 new_y old_y)) in
    let first = child_at ui₁ this old_x old_y in
    let inside = λ (ui : Widgets) (x y : ℕ).
      found_child-Inside ui (children (ui this)) (sub32 x (ui this).m_x) (sub32 y (ui this).m_y) in
    let call = on_mouse_move-Ends fuel in
    let h₁ = Nested-same (suc fuel) ui ui₁ this (links_same ui ui₁ same₁) h in
    Ends-from ui ui₁ _ same₁ (
      Ends-bind ui₁ (move_child (on_mouse_move fuel) ui₁ this old_x old_y new_x new_y first) _
        (move_child-Ends fuel call ui₁ this old_x old_y new_x new_y first (inside ui₁ old_x old_y)
          h₁)
        (λ ui₂ same₂.
          let second = child_at ui₂ this new_x new_y in
          move_child-Ends fuel call ui₂ this old_x old_y new_x new_y (other_child first second)
            (other_child-Inside first second (length (children (ui₂ this)))
              (inside ui₂ new_x new_y))
            (Nested-same (suc fuel) ui₁ ui₂ this (links_same ui₁ ui₂ same₂) h₁)))

call_child-Ends :
    (fuel : ℕ) (call : Widgets → ℕ → ℕ → ℕ → Option Widgets) (ui ui' : Widgets) (kids : List ℕ)
    (x y : ℕ)
    → SameShape ui ui'
    → ((i : ℕ) → i < length kids → Nested ui fuel (get_or kids i 0))
    → ((child x y : ℕ) → Nested ui' fuel child → Ends ui' (call ui' child x y))
    → (found : Option ℕ) → Inside found (length kids)
    → Ends ui (call_child call ui' kids x y found)
unfolding call_child Ends
call_child-Ends fuel call ui ui' kids x y same h ends none inside = (ui', refl, same)
call_child-Ends fuel call ui ui' kids x y same h ends (some i) inside =
    let child = get_or kids i 0 in
    Ends-from ui ui' (call ui' child x y) same (
      ends child x y (Nested-same fuel ui ui' child (links_same ui ui' same) (h i (inside i refl))))

-- So does one of `on_mouse_down`, with fuel for the steps to the parents.
pub on_mouse_down-Ends :
    (links fuel : ℕ) (ui : Widgets) (this x y button : ℕ)
    → ((a : ℕ) → Rooted ui links a)
    → Nested ui fuel this
    → Ends ui (on_mouse_down links fuel ui this x y button)
unfolding on_mouse_down Nested
on_mouse_down-Ends links zero ui this x y button rooted h = absurd h
on_mouse_down-Ends links (suc fuel) ui this x y button rooted h =
    let w = ui this in
    let w' = pressed w.class w button in
    let ui' = put ui this w' in
    let same = put_same shape ui this w' (shape-pressed w.class w button) in
    let x' = sub32 x w.m_x in
    let y' = sub32 y w.m_y in
    let keep = links_same ui ui' same in
    elim (Bool-cases (is_plain w.class)) [
      | inl plain ↦ elim (Bool-cases w.m_focusable) [
        | inl on ↦ rw (plain, on) (get_focus-Ends links ui this this (rooted this))
        | inr off ↦ rw (plain, off) (unfold Ends in (ui, refl, λ a. refl))
      ]
      | inr whole ↦ rw whole (
          call_child-Ends fuel (λ ui child x y. on_mouse_down links fuel ui child x y button) ui ui'
            (children w) x' y' same h
            (λ child x y nested.
              on_mouse_down-Ends links fuel ui' child x y button
                (λ a. Rooted-same links ui ui' a keep (rooted a)) nested)
            (find_child ui' (children w) x' y' 0) (found_child-Inside ui' (children w) x' y'))
    ]

pub on_mouse_up-Ends :
    (fuel : ℕ) (ui : Widgets) (this x y button : ℕ)
    → Nested ui fuel this
    → Ends ui (on_mouse_up fuel ui this x y button)
unfolding on_mouse_up Nested
on_mouse_up-Ends zero ui this x y button h = absurd h
on_mouse_up-Ends (suc fuel) ui this x y button h =
    let w = ui this in
    let w' = released w.class w in
    let ui' = put ui this w' in
    let same = put_same shape ui this w' (shape-released w.class w) in
    let x' = sub32 x w.m_x in
    let y' = sub32 y w.m_y in
    call_child-Ends fuel (λ ui child x y. on_mouse_up fuel ui child x y button) ui ui' (children w)
      x' y' same h (λ child x y nested. on_mouse_up-Ends fuel ui' child x y button nested)
      (find_child ui' (children w) x' y' 0) (found_child-Inside ui' (children w) x' y')
