-- ===== src/Kernel/Text.antt =====
-- `printf` of src/kernel.cpp: the cursor, and what is shown.
use pingu_os.Common.{
  ℕ, zero, suc, ◌+◌, ◌-◌, ◌*◌, ◌≤◌, ◌<◌, ◌≡◌, ◌≢◌, inl, inr, refl, ap₂, ◌∙◌, arith, true, false,
  Bool-cases, ==-refl, [], ◌∷◌, ◌==◌, leb, leb→le, ltb, if◌then◌else◌, get_or, length,
}
use pingu_os.Common.Bytes.{Bytes}
use pingu_os.Kernel.{
  Console, width, height, with_char, put_cell, clear_cells, clear_screen, wrap_screen, wrap_line,
  put_char, printf,
}

-- The cursor is on the screen.
pub record OnScreen (s : Console) : Type 0 where
  pub column : s.x < width
  pub row : s.y < height

-- The cells of two buffers agree from the end of the screen on.
abbrev pub SameBeyond : (ℕ → ℕ) → (ℕ → ℕ) → Type 0
SameBeyond a b = (i : ℕ) → width * height ≤ i → a i ≡ b i

put_cell-SameBeyond :
    (buffer : ℕ → ℕ) (at c : ℕ) → at < width * height → SameBeyond (put_cell buffer at c) buffer
unfolding put_cell
put_cell-SameBeyond buffer at c h i beyond = ground arith

clear_cells-SameBeyond :
    (rounds : ℕ) (buffer : ℕ → ℕ) (i : ℕ)
    → i + rounds ≤ width * height
    → SameBeyond (clear_cells rounds buffer i) buffer
unfolding clear_cells
clear_cells-SameBeyond zero buffer i h j beyond = refl
clear_cells-SameBeyond (suc rounds) buffer i h j beyond =
    clear_cells-SameBeyond rounds (put_cell buffer i b' ') (i + 1) (omega (arith, h)) j beyond
    ∙ put_cell-SameBeyond buffer i b' ' (omega (arith, h)) j beyond

clear_screen-SameBeyond : (buffer : ℕ → ℕ) → SameBeyond (clear_screen buffer) buffer
unfolding clear_screen
clear_screen-SameBeyond buffer = clear_cells-SameBeyond (width * height) buffer 0 (omega arith)

-- Afterwards the cursor is on the screen, and no cell outside has changed.
abbrev Kept : (ℕ → ℕ) → Console → Type 0
Kept buffer s' = OnScreen s' × SameBeyond s'.vga_buffer buffer

wrap_screen-Kept :
    (buffer : ℕ → ℕ) (s : Console)
    → s.x < width
    → s.y ≤ height
    → SameBeyond s.vga_buffer buffer
    → Kept buffer (wrap_screen s)
unfolding wrap_screen
wrap_screen-Kept buffer s column row same = elim (Bool-cases (leb height s.y)) [
  | inl over ↦ rw over (
    record { column = omega arith; row = omega arith },
    λ i beyond. clear_screen-SameBeyond s.vga_buffer i beyond ∙ same i beyond,
  )
  | inr inside ↦ rw inside (record { column = column; row = ground arith }, same)
]

wrap_line-Kept :
    (buffer : ℕ → ℕ) (s : Console)
    → s.x ≤ width
    → s.y < height
    → SameBeyond s.vga_buffer buffer
    → Kept buffer (wrap_screen (wrap_line s))
unfolding wrap_line
wrap_line-Kept buffer s column row same = elim (Bool-cases (leb width s.x)) [
  | inl over ↦ rw over (
      wrap_screen-Kept buffer (record s { x = 0; y = s.y + 1 }) (omega arith) (omega (arith, row))
        same)
  | inr inside ↦ rw inside (wrap_screen-Kept buffer s (ground arith) (omega (arith, row)) same)
]

put_char-Kept : (s : Console) (c : ℕ) → OnScreen s → Kept s.vga_buffer (put_char s c)
unfolding put_char
put_char-Kept s c on = elim (Bool-cases (c == 0x0A)) [
  | inl newline ↦ rw newline (
      wrap_screen-Kept s.vga_buffer (record s { x = 0; y = s.y + 1 }) (omega arith)
        (omega (arith, on.row)) (λ i beyond. refl))
  | inr other ↦
      let here = width * s.y + s.x in
      let s' : Console = record {
        vga_buffer = put_cell s.vga_buffer here c;
        x = s.x + 1;
        y = s.y;
      } in
      rw other (
        wrap_line-Kept s.vga_buffer s' (omega (arith, on.column)) (omega (arith, on.row))
          (put_cell-SameBeyond s.vga_buffer here c (omega (arith, on.column, on.row))))
]

-- A cursor that is on the screen stays there whatever is printed, line feeds included, and no cell
-- behind the 80 * 25 of the screen is written.
pub printf-OnScreen :
    (s : Console) (string : Bytes)
    → OnScreen s
    → OnScreen (printf s string)
      × ((i : ℕ) → width * height ≤ i → (printf s string).vga_buffer i ≡ s.vga_buffer i)
unfolding printf
printf-OnScreen s [] on = (on, λ i beyond. refl)
printf-OnScreen s (c ∷ string) on =
    let now = put_char-Kept s c on in
    let rest = printf-OnScreen (put_char s c) string now.0 in
    (rest.0, λ i beyond. rest.1 i beyond ∙ now.1 i beyond)

-- The number of the cell at the cursor.
abbrev pub offset : Console → ℕ
offset s = width * s.y + s.x

abbrev pub IsLine : Bytes → Type 0
IsLine [] = Unit {0}
IsLine (c ∷ string) = (c ≢ 0x0A) × IsLine string

-- The cells of the text hold its characters, in the colours that they had; the others are as before.
abbrev pub shown : (ℕ → ℕ) → ℕ → Bytes → ℕ → ℕ
shown buffer at text i =
    if ltb i at
    then buffer i
    else (if ltb i (at + length text)
        then with_char (buffer i) (get_or text (i - at) 0)
        else buffer i)

put_char-shown :
    (s : Console) (c : ℕ)
    → OnScreen s
    → c ≢ 0x0A
    → offset s + 1 < width * height
    → OnScreen (put_char s c)
      × (offset (put_char s c) ≡ offset s + 1)
      × ((put_char s c).vga_buffer ≡ put_cell s.vga_buffer (offset s) c)
unfolding put_char
put_char-shown s c on other room =
    let no_feed : (c == 0x0A) ≡ false = ground arith in
    elim (Bool-cases (leb width (s.x + 1))) [
      | inl over ↦
          let end : s.x ≡ 79 = omega (arith, leb→le width (s.x + 1) over, on.column) in
          let inside : leb height (s.y + 1) ≡ false = ground arith in
          rw (no_feed, over, inside)
            (record { column = omega arith; row = ground arith }, omega (arith, end), refl)
      | inr within ↦
          let inside : leb height s.y ≡ false = ground (arith, on.row) in
          rw (no_feed, within, inside)
            (record { column = ground arith; row = on.row }, omega arith, refl)
    ]

put_cell-shown :
    (buffer : ℕ → ℕ) (at c : ℕ) (text : Bytes) (i : ℕ)
    → shown (put_cell buffer at c) (at + 1) text i ≡ shown buffer at (c ∷ text) i
unfolding put_cell
put_cell-shown buffer at c text i = elim (Bool-cases (ltb i at)) [
  | inl before ↦
      let other : (i == at) ≡ false = ground arith in
      let early : ltb i (at + 1) ≡ true = ground arith in rw (before, early, other) refl
  | inr after ↦ elim (Bool-cases (i == at)) [
    | inl here ↦
        let same : i ≡ at = ground arith in
        rw same (
          let early : ltb at (at + 1) ≡ true = ground arith in
          let late : ltb at at ≡ false = ground arith in
          let short : ltb at (at + suc (length text)) ≡ true = ground arith in
          let first : at - at ≡ 0 = omega arith in rw (early, late, short, first, ==-refl at) refl)
    | inr there ↦
        let past : ltb i (at + 1) ≡ false = ground arith in
        let index : i - at ≡ suc (i - (at + 1)) = ground arith in
        let end : at + suc (length text) ≡ at + 1 + length text = omega arith in
        rw (after, past, there, end, index) refl
  ]
]

-- A text without line feeds that ends in front of the last cell stands behind the cursor as it was,
-- in the colours of its cells; no other cell changes, and the cursor stands behind the text.
pub printf-shown :
    (s : Console) (text : Bytes)
    → OnScreen s
    → IsLine text
    → offset s + length text < width * height
    → (offset (printf s text) ≡ offset s + length text)
      × ((i : ℕ) → (printf s text).vga_buffer i ≡ shown s.vga_buffer (offset s) text i)
unfolding printf
printf-shown s [] on line room = (omega arith, λ i. ground arith)
printf-shown s (c ∷ text) on line room =
    let one = put_char-shown s c on line.0 (omega (arith, room)) in
    let rest = printf-shown (put_char s c) text one.0 line.1 (omega (arith, one.1, room)) in
    (
      omega (arith, rest.0, one.1),
      λ i.
          rest.1 i
          ∙ ap₂ (λ b n. shown b n text i) one.2 one.1
          ∙ put_cell-shown s.vga_buffer (offset s) c text i,
    )
