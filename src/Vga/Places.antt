-- ===== src/Vga/Places.antt =====
-- The places of pixels: which of them are on the screen, which a row and a rectangle hold, and the
-- addresses that they have.
use pingu_os.Common.{
  ℕ, suc, ◌+◌, ◌*◌, ◌^◌, ◌≤◌, ◌<◌, ◌≡◌, ◌⊎◌, inl, inr, refl, arith, Bool, true, false, Bool-cases,
  ◌||◌, ◌&&◌, ◌==◌, leb, ltb, ltb→lt, if◌then◌else◌,
}
use native.Mathlib.Decide.{ℕ_discrete}
use pingu_os.Vga.{signed_lt, signed_le, segment}

-- Off the screen, for a pair of words.
abbrev pub off : ℕ → ℕ → Bool
off x y = signed_lt x 0 || signed_le 320 x || signed_lt y 0 || signed_le 200 y

pub inside : (x y : ℕ) → x < 320 → y < 200 → off x y ≡ false
inside x y h h' = ground arith

pub outside : (x y : ℕ) → x < 2 ^ 32 → y < 2 ^ 32 → (320 ≤ x) ⊎ (200 ≤ y) → off x y ≡ true
outside x y w w' (inl h) = ground arith
outside x y w w' (inr h) = ground arith

pub segment_le : (register : ℕ) → segment register ≤ 0xB8000
segment_le register = ground arith

pub row_merge :
    (x n y px py c old : ℕ)
    → (if y == py && leb (x + 1) px && ltb px (x + 1 + n)
        then c
        else (if x == px && y == py then c else old))
      ≡ (if y == py && leb x px && ltb px (x + suc n) then c else old)
row_merge x n y px py c old = ground arith

rows_bool :
    (a b : Bool) (m y py c old : ℕ)
    → (if a && b && leb (y + 1) py && ltb py (y + 1 + m)
        then c
        else (if y == py && a && b then c else old))
      ≡ (if a && b && leb y py && ltb py (y + suc m) then c else old)
rows_bool true true m y py c old = ground arith
rows_bool true false m y py c old = ground arith
rows_bool false true m y py c old = ground arith
rows_bool false false m y py c old = ground arith

pub rows_merge :
    (x n m y px py c old : ℕ)
    → (if leb x px && ltb px (x + n) && leb (y + 1) py && ltb py (y + 1 + m)
        then c
        else (if y == py && leb x px && ltb px (x + n) then c else old))
      ≡ (if leb x px && ltb px (x + n) && leb y py && ltb py (y + suc m) then c else old)
rows_merge x n m y px py c old = rows_bool (leb x px) (ltb px (x + n)) m y py c old

pub nothing : (b : Bool) (x px : ℕ) → (b && leb x px && ltb px (x + 0)) ≡ false
nothing false x px = refl
nothing true x px = ground arith

pub no_rows : (b : Bool) (y py : ℕ) → (b && leb y py && ltb py (y + 0)) ≡ false
no_rows b y py = nothing b y py

pub same_place :
    (start x y px py : ℕ)
    → x < 320
    → px < 320
    → (start + 320 * py + px == start + 320 * y + x) ≡ (x == px && y == py)
same_place start x y px py h h' = elim (ℕ_discrete x px) [
  | no other ↦
      let apart : (x == px) ≡ false = ground arith in
      let far : (start + 320 * py + px == start + 320 * y + x) ≡ false = ground arith in
      rw (apart, far) refl
  | yes same ↦ elim (ℕ_discrete y py) [
    | yes row ↦
        let here : (x == px) ≡ true = ground arith in
        let level : (y == py) ≡ true = ground arith in
        let at : (start + 320 * py + px == start + 320 * y + x) ≡ true = ground arith in
        rw (here, level, at) refl
    | no row ↦
        let here : (x == px) ≡ true = ground arith in
        let level : (y == py) ≡ false = ground arith in
        let far : (start + 320 * py + px == start + 320 * y + x) ≡ false = ground arith in
        rw (here, level, far) refl
  ]
]

pub elsewhere :
    (x y px py : ℕ) → px < 320 → py < 200 → (320 ≤ x) ⊎ (200 ≤ y) → (x == px && y == py) ≡ false
elsewhere x y px py h h' (inl out) = ground arith
elsewhere x y px py h h' (inr out) = ground arith

pub on_or_off : (x y : ℕ) → ((x < 320) × (y < 200)) ⊎ ((320 ≤ x) ⊎ (200 ≤ y))
on_or_off x y = elim (Bool-cases (ltb x 320)) [
  | inr out ↦ inr (inl (ground arith))
  | inl in_row ↦ elim (Bool-cases (ltb y 200)) [
    | inr out ↦ inr (inr (ground arith))
    | inl in_column ↦ inl (ltb→lt x 320 in_row, ltb→lt y 200 in_column)
  ]
]

-- Addresses outside a frame buffer that begins at `start`.
abbrev pub Outside : ℕ → ℕ → Type 0
Outside start a = (a < start) ⊎ (start + 320 * 200 ≤ a)

pub not_at :
    (start x y a : ℕ) → x < 320 → y < 200 → Outside start a → (a == start + 320 * y + x) ≡ false
not_at start x y a h h' (inl below) = ground arith
not_at start x y a h h' (inr behind) = ground arith
