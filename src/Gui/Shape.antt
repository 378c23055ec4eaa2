-- ===== src/Gui/Shape.antt =====
-- What the calls between the widgets of src/gui/ leave as it is.
use pingu_os.Common.{
  ℕ, zero, suc, ◌<◌, ◌≡◌, ◌⊎◌, inl, inr, refl, sym, ap, ◌∙◌, subst, arith, false, Bool-cases, List,
  ◌==◌, if◌then◌else◌, get_or, length,
}
use pingu_os.Gui.{
  Class, widget, composite, window, desktop, Widget, Widgets, put, focus, children, pressed,
  released, dragged,
}

-- A widget but for its place, its focused child and whether it is dragged.
abbrev pub shape : Widget → Widget
shape w = record w { m_x = 0; m_y = 0; m_focused_child = 0; m_dragged = false }

abbrev pub SameShape : Widgets → Widgets → Type 0
SameShape ui ui' = (a : ℕ) → shape (ui' a) ≡ shape (ui a)

-- Without the cursor too.
abbrev pub links_of : Widget → Widget
links_of w = record (shape w) { cursor_x = 0; cursor_y = 0 }

abbrev pub SameLinks : Widgets → Widgets → Type 0
SameLinks ui ui' = (a : ℕ) → links_of (ui' a) ≡ links_of (ui a)

pub put_same :
    (f : Widget → Widget) (ui : Widgets) (this : ℕ) (w : Widget)
    → f w ≡ f (ui this)
    → (a : ℕ) → f (put ui this w a) ≡ f (ui a)
put_same f ui this w same a = elim (Bool-cases (a == this)) [
  | inl here ↦
      let at_this : a ≡ this = ground (arith, here) in
      ap (λ b. f (if b then w else ui a)) here ∙ same ∙ ap (λ (b : ℕ). f (ui b)) (sym at_this)
  | inr there ↦ ap (λ b. f (if b then w else ui a)) there
]

pub shape-focus : (c : Class) (w : Widget) (child : ℕ) → shape (focus c w child) ≡ shape w
shape-focus widget w child = refl
shape-focus composite w child = refl
shape-focus window w child = refl
shape-focus desktop w child = refl

pub shape-pressed : (c : Class) (w : Widget) (button : ℕ) → shape (pressed c w button) ≡ shape w
shape-pressed widget w button = refl
shape-pressed composite w button = refl
shape-pressed desktop w button = refl
shape-pressed window w button = elim (Bool-cases (button == 1)) [
  | inl left ↦ rw left refl
  | inr other ↦ rw other refl
]

pub shape-released : (c : Class) (w : Widget) → shape (released c w) ≡ shape w
shape-released widget w = refl
shape-released composite w = refl
shape-released desktop w = refl
shape-released window w = refl

pub shape-dragged : (c : Class) (w : Widget) (dx dy : ℕ) → shape (dragged c w dx dy) ≡ shape w
shape-dragged widget w dx dy = refl
shape-dragged composite w dx dy = refl
shape-dragged desktop w dx dy = refl
shape-dragged window w dx dy = elim (Bool-cases w.m_dragged) [
  | inl on ↦ rw on refl
  | inr off ↦ rw off refl
]

-- Below a widget are at most so many levels, the widget's own counted.
unfoldable pub Nested : Widgets → ℕ → ℕ → Type 0
Nested ui zero this = ⊥
Nested ui (suc n) this =
    (i : ℕ) → i < length (children (ui this)) → Nested ui n (get_or (children (ui this)) i 0)

-- So many steps to the parents lead to a widget without one.
unfoldable pub Rooted : Widgets → ℕ → ℕ → Type 0
Rooted ui zero this = ⊥
Rooted ui (suc n) this = ((ui this).m_parent ≡ 0) ⊎ Rooted ui n (ui this).m_parent

pub Nested-same :
    (n : ℕ) (ui ui' : Widgets) (this : ℕ) → SameLinks ui ui' → Nested ui n this → Nested ui' n this
unfolding Nested
Nested-same zero ui ui' this same h = h
Nested-same (suc n) ui ui' this same h = λ i lt.
    let kids : children (ui' this) ≡ children (ui this) = ap children (same this) in
    let lt' = subst (λ (l : List ℕ). i < length l) kids lt in
    subst (λ (l : List ℕ). Nested ui' n (get_or l i 0)) (sym kids)
      (Nested-same n ui ui' (get_or (children (ui this)) i 0) same (h i lt'))

pub Rooted-same :
    (n : ℕ) (ui ui' : Widgets) (this : ℕ) → SameLinks ui ui' → Rooted ui n this → Rooted ui' n this
unfolding Rooted
Rooted-same zero ui ui' this same h = h
Rooted-same (suc n) ui ui' this same (inl top) =
    inl (ap (λ (w : Widget). w.m_parent) (same this) ∙ top)
Rooted-same (suc n) ui ui' this same (inr h) =
    let parent : (ui' this).m_parent ≡ (ui this).m_parent =
      ap (λ (w : Widget). w.m_parent) (same this) in
    inr (subst (Rooted ui' n) (sym parent) (Rooted-same n ui ui' (ui this).m_parent same h))

pub links_same : (ui ui' : Widgets) → SameShape ui ui' → SameLinks ui ui'
links_same ui ui' same a = ap links_of (same a)
