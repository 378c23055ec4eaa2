-- ===== src/Drivers/Mouse/Textual/Inside.antt =====
-- Movements of the cursor in the text mode: src/drivers/mouse.cpp.
use pingu_os.Common.{
  ℕ, zero, suc, ◌+◌, ◌*◌, ◌%◌, ◌^◌, ◌≤◌, ◌<◌, ◌≡◌, ◌⊎◌, inl, inr, refl, ap, ◌∙◌, arith, false,
  Bool-cases, ltb, ltb→lt, Option, some, ◌>>=◌, List, [], ◌∷◌, add32, sub32,
}
use pingu_os.Vga.{signed_le}
use pingu_os.Drivers.Mouse.Textual.{
  TextualMouseHandler, invert, step_up, step_down, steps, kept, widened, placed, move, moves,
}

-- An accumulated distance that is less than a step, up or down.
abbrev pub IsRest : ℕ → ℕ → Type 0
IsRest scalar accum = (accum < scalar) ⊎ ((2 ^ 32 < accum + scalar) × (accum < 2 ^ 32))

step_up-IsRest :
    (fuel scalar accum place : ℕ)
    → 0 < scalar
    → scalar < 2 ^ 8
    → accum < 2 ^ 31
    → accum < fuel
    → place < 2 ^ 32
    → (r : ℕ × ℕ) × (step_up fuel scalar accum place ≡ some r) × (r.0 < scalar) × (r.1 < 2 ^ 32)
unfolding step_up
step_up-IsRest zero scalar accum place some_step small low enough word =
    absurd (omega (arith, enough))
step_up-IsRest (suc fuel) scalar accum place some_step small low enough word =
    elim (Bool-cases (signed_le scalar accum)) [
      | inl more ↦
          let less : scalar ≤ accum = ground (arith, more, low, small) in
          let (r, e, done, r_word) =
            step_up-IsRest fuel scalar (sub32 accum scalar) (add32 place 1) some_step small
              (omega (arith, less, low)) (omega (arith, less, low, enough, some_step))
              (omega arith) in
          (r, rw more e, done, r_word)
      | inr stop ↦
          let less : accum < scalar = ground (arith, stop, low, small) in
          ((accum, place), rw stop refl, less, word)
    ]

-- A distance that is not negative is no step down.
step_down-stop :
    (fuel scalar accum place : ℕ)
    → 0 < scalar
    → scalar < 2 ^ 8
    → (accum < scalar) ⊎ ((2 ^ 32 < accum + scalar) × (accum < 2 ^ 32))
    → step_down (suc fuel) scalar accum place ≡ some (accum, place)
unfolding step_down
step_down-stop fuel scalar accum place some_step small (inl low) =
    let stop : signed_le accum (sub32 0 scalar) ≡ false = ground arith in rw stop refl
step_down-stop fuel scalar accum place some_step small (inr high) =
    let stop : signed_le accum (sub32 0 scalar) ≡ false = ground (arith, high) in rw stop refl

step_down-IsRest :
    (fuel scalar accum place : ℕ)
    → 0 < scalar
    → scalar < 2 ^ 8
    → 2 ^ 31 ≤ accum
    → accum < 2 ^ 32
    → 2 ^ 32 < accum + fuel
    → place < 2 ^ 32
    → (r : ℕ × ℕ) × (step_down fuel scalar accum place ≡ some r)
      × IsRest scalar r.0
      × (r.1 < 2 ^ 32)
unfolding step_down
step_down-IsRest zero scalar accum place some_step small high word enough place_word =
    absurd (omega (arith, enough, word))
step_down-IsRest (suc zero) scalar accum place some_step small high word enough place_word =
    absurd (omega (arith, enough, word))
step_down-IsRest (suc (suc fuel)) scalar accum place some_step small high word enough place_word =
    elim (Bool-cases (signed_le accum (sub32 0 scalar))) [
      | inl more ↦
          let less : accum + scalar ≤ 2 ^ 32 = ground (arith, more, high, word, small) in
          elim (Bool-cases (ltb (accum + scalar) (2 ^ 32))) [
            | inl below ↦
                let lt : accum + scalar < 2 ^ 32 = ground (arith, below) in
                let (r, e, done, r_word) =
                  step_down-IsRest (suc fuel) scalar (add32 accum scalar) (sub32 place 1) some_step
                    small (omega (arith, lt, high)) (omega arith)
                    (omega (arith, lt, enough, some_step)) (omega arith) in
                (r, rw more e, done, r_word)
            | inr end ↦
                let none_left : add32 accum scalar ≡ 0 = ground (arith, end, less) in
                (
                  (0, sub32 place 1),
                  rw (more, none_left)
                      (step_down-stop fuel scalar 0 (sub32 place 1) some_step small
                        (inl some_step)),
                  inl some_step,
                  omega arith,
                )
          ]
      | inr stop ↦
          let near : 2 ^ 32 < accum + scalar = ground (arith, stop, high, word, small) in
          ((accum, place), rw stop refl, inr (near, word), place_word)
    ]

near_up :
    (fuel scalar accum byte : ℕ)
    → scalar < 2 ^ 8
    → IsRest scalar accum
    → 2 ^ 9 < suc fuel
    → add32 accum (widened byte) < 2 ^ 31
    → add32 accum (widened byte) < suc fuel
near_up fuel scalar accum byte small (inl low) enough up = ground arith
near_up fuel scalar accum byte small (inr high) enough up = ground (arith, high)

near_down :
    (fuel scalar accum byte : ℕ)
    → scalar < 2 ^ 8
    → IsRest scalar accum
    → 2 ^ 9 < suc fuel
    → 2 ^ 31 ≤ add32 accum (widened byte)
    → 2 ^ 32 < add32 accum (widened byte) + suc fuel
near_down fuel scalar accum byte small (inl low) enough down = ground arith
near_down fuel scalar accum byte small (inr high) enough down = ground (arith, high)

steps-IsRest :
    (fuel scalar accum place byte : ℕ)
    → 0 < scalar
    → scalar < 2 ^ 8
    → IsRest scalar accum
    → 2 ^ 9 < fuel
    → place < 2 ^ 32
    → (r : ℕ × ℕ) × (steps fuel scalar (add32 accum (widened byte)) place ≡ some r)
      × IsRest scalar r.0
      × (r.1 < 2 ^ 32)
unfolding steps step_up
steps-IsRest zero scalar accum place byte some_step small rest enough word =
    absurd (omega (arith, enough))
steps-IsRest (suc fuel) scalar accum place byte some_step small rest enough word =
    let a = add32 accum (widened byte) in
    elim (Bool-cases (ltb a (2 ^ 31))) [
      | inl up ↦
          let low : a < 2 ^ 31 = ltb→lt a (2 ^ 31) up in
          let (r, e, done, r_word) =
            step_up-IsRest (suc fuel) scalar a place some_step small low
              (near_up fuel scalar accum byte small rest enough low) word in
          (
            r,
            ap (λ (o : Option (ℕ × ℕ)). o >>= λ (p, q). step_down (suc fuel) scalar p q) e
                ∙ step_down-stop fuel scalar r.0 r.1 some_step small (inl done),
            inl done,
            r_word,
          )
      | inr down ↦
          let high : 2 ^ 31 ≤ a = ground (arith, down) in
          let stop : signed_le scalar a ≡ false = ground (arith, high, small) in
          let (r, e, done, r_word) =
            step_down-IsRest (suc fuel) scalar a place some_step small high (omega arith)
              (near_down fuel scalar accum byte small rest enough high) word in
          (r, rw stop e, done, r_word)
    ]

-- The cursor is on the screen, and what is accumulated is less than a step.
pub record IsInside (m : TextualMouseHandler) : Type 0 where
  pub steady : (0 < m.m_sens) × (m.m_sens < 2 ^ 7)
  pub on_screen : (m.m_x < 80) × (m.m_y < 25)
  pub rest_x : IsRest m.m_sens m.m_accum_x
  pub rest_y : IsRest (2 * m.m_sens % 2 ^ 8) m.m_accum_y

kept-inside : (place size : ℕ) → place < 2 ^ 32 → 0 < size → size < 2 ^ 8 → kept place size < size
kept-inside place size word some_size small = ground arith

move-IsInside :
    (fuel : ℕ) (m : TextualMouseHandler) (x y : ℕ)
    → 2 ^ 9 < fuel
    → IsInside m
    → (m' : TextualMouseHandler) × (move fuel m x y ≡ some m') × IsInside m'
unfolding move invert
move-IsInside fuel m x y enough h =
    let y_scalar = 2 * m.m_sens % 2 ^ 8 in
    let (at_x, ex, rest_x, word_x) =
      steps-IsRest fuel m.m_sens m.m_accum_x m.m_x x h.steady.0 (omega (arith, h.steady)) h.rest_x
        enough (omega (arith, h.on_screen)) in
    let (at_y, ey, rest_y, word_y) =
      steps-IsRest fuel y_scalar m.m_accum_y m.m_y y (omega (arith, h.steady)) (omega arith)
        h.rest_y enough (omega (arith, h.on_screen)) in
    (
      invert (placed (invert m) at_x at_y),
      ap
            (λ (o : Option (ℕ × ℕ)). o >>= λ at_x.
              steps fuel y_scalar (add32 m.m_accum_y (widened y)) m.m_y >>= λ at_y.
              some (invert (placed (invert m) at_x at_y)))
            ex
          ∙ ap (λ (o : Option (ℕ × ℕ)). o >>= λ at_y. some (invert (placed (invert m) at_x at_y)))
              ey,
      record {
        steady = h.steady;
        on_screen = (
          kept-inside at_x.1 80 word_x (omega arith) (omega arith),
          kept-inside at_y.1 25 word_y (omega arith) (omega arith),
        );
        rest_x = rest_x;
        rest_y = rest_y;
      },
    )

-- With a sensitivity from 1 to 127, any sequence of movements is handled to its end, each loop
-- within 513 rounds; the cursor stays on the 80 columns and 25 rows, and less than one step is left
-- over in each direction.
pub moves-IsInside :
    (fuel : ℕ) (m : TextualMouseHandler) (distances : List (ℕ × ℕ))
    → 2 ^ 9 < fuel
    → IsInside m
    → (m' : TextualMouseHandler) × (moves fuel m distances ≡ some m') × IsInside m'
unfolding moves
moves-IsInside fuel m [] enough h = (m, refl, h)
moves-IsInside fuel m ((x, y) ∷ distances) enough h =
    let (m₁, e, h₁) = move-IsInside fuel m x y enough h in
    let (m₂, e', h₂) = moves-IsInside fuel m₁ distances enough h₁ in
    (m₂, ap (λ (o : Option TextualMouseHandler). o >>= λ m'. moves fuel m' distances) e ∙ e', h₂)
