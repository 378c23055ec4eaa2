-- ===== src/Gui/Focus.antt =====
-- The keyboard focus of src/gui/widget.cpp.
use pingu_os.Common.{
  ℕ, zero, suc, ◌<◌, ◌≡◌, refl, ap, ◌∙◌, arith, true, false, Bool-cases, inl, inr, Option, some,
  List, [], ◌∷◌, ◌==◌, ==-refl, if◌then◌else◌, get_or, length,
}
use pingu_os.Gui.{
  Class, widget, composite, window, desktop, Widget, Widgets, put, focus, get_focus, is_plain,
  on_mouse_down, on_key_down,
}
use pingu_os.Gui.Shape.{shape, SameShape, put_same, shape-focus}

-- The parents of a widget, up to the one without a parent; they are composite widgets.
unfoldable pub Chain : Widgets → ℕ → List ℕ → Type 0
Chain ui this [] = (ui this).m_parent ≡ 0
Chain ui this (p ∷ ps) =
    ((ui this).m_parent ≡ p) × ((p == 0) ≡ false) × (is_plain (ui p).class ≡ false) × Chain ui p ps

Chain-same :
    (ui ui' : Widgets) (this : ℕ) (ps : List ℕ)
    → SameShape ui ui'
    → Chain ui this ps
    → Chain ui' this ps
unfolding Chain
Chain-same ui ui' this [] same top = ap (λ (w : Widget). w.m_parent) (same this) ∙ top
Chain-same ui ui' this (p ∷ ps) same (parent, some_p, whole, up) = (
  ap (λ (w : Widget). w.m_parent) (same this) ∙ parent,
  some_p,
  ap (λ (w : Widget). is_plain w.class) (same p) ∙ whole,
  Chain-same ui ui' p ps same up,
)

-- The widgets that have `child` as their focused child still have it.
Keeps : Widgets → Widgets → ℕ → Type 0
Keeps ui ui' child = (a : ℕ) → (ui a).m_focused_child ≡ child → (ui' a).m_focused_child ≡ child

focus_keeps :
    (c : Class) (w : Widget) (child : ℕ)
    → w.m_focused_child ≡ child
    → (focus c w child).m_focused_child ≡ child
focus_keeps widget w child e = e
focus_keeps composite w child e = refl
focus_keeps window w child e = refl
focus_keeps desktop w child e = refl

focus_whole :
    (c : Class) (w : Widget) (child : ℕ)
    → is_plain c ≡ false
    → (focus c w child).m_focused_child ≡ child
focus_whole widget w child e = absurd cc
focus_whole composite w child e = refl
focus_whole window w child e = refl
focus_whole desktop w child e = refl

put-Keeps :
    (ui : Widgets) (this child : ℕ)
    → Keeps ui (put ui this (focus (ui this).class (ui this) child)) child
unfolding Keeps
put-Keeps ui this child a e =
    let w = ui this in
    let w' = focus w.class w child in
    elim (Bool-cases (a == this)) [
      | inl here ↦
          let at_this : this ≡ a = ground (arith, here) in
          ap (λ b. (if b then w' else ui a).m_focused_child) here
          ∙ focus_keeps w.class w child (ap (λ (b : ℕ). (ui b).m_focused_child) at_this ∙ e)
      | inr there ↦ ap (λ b. (if b then w' else ui a).m_focused_child) there ∙ e
    ]

-- What a call of `get_focus` at a widget below `ps` comes to.
record Focused (ui : Widgets) (this child : ℕ) (ps : List ℕ) (r : Option Widgets) : Type 0 where
  after : Widgets
  ends : r ≡ some after
  same : SameShape ui after
  keeps : Keeps ui after child
  itself : is_plain (ui this).class ≡ false → (after this).m_focused_child ≡ child
  above : (i : ℕ) → i < length ps → (after (get_or ps i 0)).m_focused_child ≡ child

put_itself :
    (ui : Widgets) (this child : ℕ)
    → is_plain (ui this).class ≡ false
    → (put ui this (focus (ui this).class (ui this) child) this).m_focused_child ≡ child
put_itself ui this child whole =
    let w = ui this in
    ap (λ b. (if b then focus w.class w child else w).m_focused_child) (==-refl this)
    ∙ focus_whole w.class w child whole

get_focus-Focused :
    (links : ℕ) (ui : Widgets) (this child : ℕ) (ps : List ℕ)
    → Chain ui this ps
    → length ps < links
    → Focused ui this child ps (get_focus links ui this child)
unfolding get_focus Chain Keeps
get_focus-Focused zero ui this child ps chain enough = absurd (omega (arith, enough))
get_focus-Focused (suc links) ui this child [] top enough =
    let w = ui this in
    record {
      after = put ui this (focus w.class w child);
      ends = rw top refl;
      same = put_same shape ui this (focus w.class w child) (shape-focus w.class w child);
      keeps = put-Keeps ui this child;
      itself = put_itself ui this child;
      above = λ i lt. absurd (omega (arith, lt));
    }
get_focus-Focused (suc links) ui this child (p ∷ ps) (parent, some_p, whole, up) enough =
    let w = ui this in
    let w' = focus w.class w child in
    let ui₁ = put ui this w' in
    let same₁ = put_same shape ui this w' (shape-focus w.class w child) in
    let f =
      get_focus-Focused links ui₁ p child ps (Chain-same ui ui₁ p ps same₁ up)
        (omega (arith, enough)) in
    let whole₁ : is_plain (ui₁ p).class ≡ false =
      ap (λ (w : Widget). is_plain w.class) (same₁ p) ∙ whole in
    record {
      after = f.after;
      ends =
          ap (λ (q : ℕ). if q == 0 then some ui₁ else get_focus links ui₁ q child) parent
          ∙ ap (λ b. if b then some ui₁ else get_focus links ui₁ p child) some_p
          ∙ f.ends;
      same = λ a. f.same a ∙ same₁ a;
      keeps = λ a e. f.keeps a (put-Keeps ui this child a e);
      itself = λ not_plain. f.keeps this (put_itself ui this child not_plain);
      above = λ i lt. above_all f.after p child ps (f.itself whole₁) f.above i lt;
    }
  where
    above_all :
        (after : Widgets) (p child : ℕ) (ps : List ℕ)
        → (after p).m_focused_child ≡ child
        → ((i : ℕ) → i < length ps → (after (get_or ps i 0)).m_focused_child ≡ child)
        → (i : ℕ) → i < length (p ∷ ps)
        → (after (get_or (p ∷ ps) i 0)).m_focused_child ≡ child
    above_all after p child ps first rest zero lt = first
    above_all after p child ps first rest (suc i) lt = rest i (omega (arith, lt))

Chain-whole :
    (ui : Widgets) (this : ℕ) (ps : List ℕ)
    → Chain ui this ps
    → (i : ℕ) → i < length ps
    → is_plain (ui (get_or ps i 0)).class ≡ false
unfolding Chain
Chain-whole ui this [] chain i lt = absurd (omega (arith, lt))
Chain-whole ui this (p ∷ ps) (parent, some_p, whole, up) zero lt = whole
Chain-whole ui this (p ∷ ps) (parent, some_p, whole, up) (suc i) lt =
    Chain-whole ui p ps up i (omega (arith, lt))

-- A click on a plain widget that can be focused gives it the focus of all composite widgets above
-- it: the call ends with more fuel than there are parents, and afterwards a key that comes to any
-- of these parents ends at the widget.
pub on_mouse_down-focuses :
    (links fuel : ℕ) (ui : Widgets) (this x y button : ℕ) (ps : List ℕ)
    → (ui this).class ≡ widget
    → (ui this).m_focusable ≡ true
    → (this == 0) ≡ false
    → Chain ui this ps
    → length ps < links
    → (ui' : Widgets) × (on_mouse_down links (suc fuel) ui this x y button ≡ some ui')
      × ((i : ℕ) → i < length ps → on_key_down 2 ui' (get_or ps i 0) ≡ some this)
unfolding on_mouse_down on_key_down
on_mouse_down-focuses links fuel ui this x y button ps plain focusable some_this chain enough =
    let f = get_focus-Focused links ui this this ps chain enough in
    let leaf : is_plain (f.after this).class ≡ true =
      ap (λ (w : Widget). is_plain w.class) (f.same this) ∙ ap is_plain plain in
    (
      f.after,
      rw (plain, focusable) f.ends,
      λ i lt.
          let p = get_or ps i 0 in
          let whole : is_plain (f.after p).class ≡ false =
            ap (λ (w : Widget). is_plain w.class) (f.same p) ∙ Chain-whole ui this ps chain i lt in
          rw (whole, f.above i lt, some_this, leaf) refl,
    )
