-- ===== src/PathUtils/Split.antt =====
-- `strcmp` decides equality, and `split_path` gives back the components that a path is made of.
use pingu_os.Common.{
  ℕ, suc, ◌+◌, ◌≤◌, ◌<◌, ◌≡◌, ◌↔◌, refl, ◌∙◌, sym, subst, ap, ap₂, arith, true, false, Bool-cases,
  inl, inr, some, List, [], ◌∷◌, ◌++◌, append_assoc, append-nil, length, length-append, ltb, ◌==◌,
  ==_iff, ==-refl,
}
use pingu_os.Common.Bytes.{Bytes}
use pingu_os.PathUtils.{slash, strcmp, is_empty, split_last, split_loop, split_path}

strcmp_sound : (a b : Bytes) → strcmp a b ≡ true → a ≡ b
unfolding strcmp
strcmp_sound [] [] h = refl
strcmp_sound [] (y ∷ ys) h = absurd (ground arith)
strcmp_sound (x ∷ xs) [] h = absurd (ground arith)
strcmp_sound (x ∷ xs) (y ∷ ys) h = elim (Bool-cases (x == y)) [
  | inl same ↦ ap₂ (λ c cs. c ∷ cs) ((==_iff x y).0 same) (strcmp_sound xs ys (rw same at h))
  | inr differ ↦ absurd (ground (arith, differ))
]

strcmp_refl : (a : Bytes) → strcmp a a ≡ true
unfolding strcmp
strcmp_refl [] = refl
strcmp_refl (x ∷ xs) = rw (==-refl x) (strcmp_refl xs)

-- `strcmp` is true exactly for equal strings.
strcmp_iff : (a b : Bytes) → (strcmp a b ≡ true) ↔ (a ≡ b)
strcmp_iff a b = (strcmp_sound a b, λ same. subst (λ x. strcmp a x ≡ true) same (strcmp_refl a))

-- No slash.
abbrev pub Plain : Bytes → Type 0
Plain [] = Unit {0}
Plain (c ∷ cs) = ((c == slash) ≡ false) × Plain cs

-- Components that a path can be made of: not empty, at most 255 characters, no slash.
pub record IsComponent (w : Bytes) : Type 0 where
  pub some_chars : is_empty w ≡ false
  pub short : length w ≤ 255
  pub plain : Plain w

abbrev pub AllComponents : List Bytes → Type 0
AllComponents [] = Unit {0}
AllComponents (w ∷ ws) = IsComponent w × AllComponents ws

-- The path made of components.
abbrev pub join : List Bytes → Bytes
join [] = []
join (w ∷ ws) = slash ∷ (w ++ join ws)

module _ (max : ℕ) where
  loop_char :
      (components : List Bytes) (comp : Bytes) (c : ℕ) (cs : Bytes)
      → length components < max
      → (c == slash) ≡ false
      → length comp < 255
      → split_loop max components comp (c ∷ cs) ≡ split_loop max components (comp ++ c ∷ []) cs
  unfolding split_loop
  loop_char components comp c cs room plain short =
      let open_slot : ltb (length components) max ≡ true = ground arith in
      let fits : ltb (length comp) 255 ≡ true = ground arith in rw (open_slot, plain, fits) refl

  loop_slash :
      (components : List Bytes) (comp cs : Bytes)
      → length components < max
      → is_empty comp ≡ false
      → split_loop max components comp (slash ∷ cs) ≡ split_loop max (components ++ comp ∷ []) [] cs
  unfolding split_loop
  loop_slash components comp cs room some_chars =
      let open_slot : ltb (length components) max ≡ true = ground arith in
      rw (open_slot, some_chars) refl

  loop_end :
      (components : List Bytes) (comp : Bytes)
      → length components < max
      → is_empty comp ≡ false
      → split_loop max components comp [] ≡ components ++ comp ∷ []
  unfolding split_loop split_last
  loop_end components comp room some_chars =
      let open_slot : ltb (length components) max ≡ true = ground arith in
      rw (open_slot, some_chars) refl

  loop_word :
      (w : Bytes) (components : List Bytes) (comp cs : Bytes)
      → length components < max
      → Plain w
      → length comp + length w ≤ 255
      → split_loop max components comp (w ++ cs) ≡ split_loop max components (comp ++ w) cs
  loop_word [] components comp cs room plain short =
      ap (λ x. split_loop max components x cs) (sym (append-nil comp))
  loop_word (c ∷ w) components comp cs room plain short =
      loop_char components comp c (w ++ cs) room plain.0 (omega (arith, short))
      ∙ loop_word w components (comp ++ c ∷ []) cs room plain.1
          (omega (arith, short, length-append comp (c ∷ [])))
      ∙ ap (λ x. split_loop max components x cs) (append_assoc comp (c ∷ []) w)

  loop_join :
      (ws : List Bytes) (components : List Bytes) (comp : Bytes)
      → length components + suc (length ws) ≤ max
      → is_empty comp ≡ false
      → AllComponents ws
      → split_loop max components comp (join ws) ≡ components ++ comp ∷ ws
  loop_join [] components comp room some_chars all =
      loop_end components comp (omega (arith, room)) some_chars
  loop_join (w ∷ ws) components comp room some_chars (this, all) =
      let more = length-append components (comp ∷ []) in
      loop_slash components comp (w ++ join ws) (omega (arith, room)) some_chars
      ∙ loop_word w (components ++ comp ∷ []) [] (join ws) (omega (arith, room, more)) this.plain
          (omega (arith, this.short))
      ∙ loop_join ws (components ++ comp ∷ []) w (omega (arith, room, more)) this.some_chars all
      ∙ append_assoc components (comp ∷ []) (w ∷ ws)

  -- A path made of components, at least one and at most as many as there is room for, each of 1 to
  -- 255 characters without a slash, is split into those components.
  pub split_path-join :
      (w : Bytes) (ws : List Bytes)
      → suc (length ws) ≤ max
      → AllComponents (w ∷ ws)
      → split_path (join (w ∷ ws)) max ≡ some (w ∷ ws)
  unfolding split_path
  split_path-join w ws room (this, all) = ap some (
      loop_word w [] [] (join ws) (omega (arith, room)) this.plain (omega (arith, this.short))
      ∙ loop_join ws [] w (omega (arith, room)) this.some_chars all)
