-- ===== src/Drivers/Keyboard/Typing.antt =====
-- What is typed on a US keyboard is what the handler of src/drivers/keyboard.cpp prints.
use Prim.Native.String.{String}
use pingu_os.Common.{
  ℕ, zero, suc, ◌+◌, ◌*◌, ◌<◌, ◌≡◌, ◌≢◌, refl, ap, sym, ◌∙◌, arith, Bool, true, false, not, ◌&&◌,
  Option, none, some, List, [], ◌∷◌, ◌++◌, append_assoc, ◌==◌, if◌then◌else◌, length, ==_iff,
}
use pingu_os.Common.Tests.{passes, passes_at}
use pingu_os.Common.Bytes.{Bytes, codes}
use pingu_os.Port.{Ports}
use pingu_os.Kernel.{Console, width, height, put_char, printf}
use pingu_os.Kernel.Text.{OnScreen, IsLine, offset, shown, printf-shown}
use pingu_os.Drivers.Keyboard.{emit_event, TextualKeyboardHandler, on_event, handle_interrupt}

-- A row of keys with consecutive codes: the first code, and what the keys are labelled with.
record Row : Type 0 where
  first : ℕ
  plain : String
  shifted : String

-- The rows of a US keyboard: digits, three rows of letters, and the space bar.
abbrev us_layout : List Row
us_layout =
    record { first = 0x02; plain = "1234567890-="; shifted = "!@#$%^&*()_+" }
    ∷ record { first = 0x10; plain = "qwertyuiop[]"; shifted = "QWERTYUIOP{}" }
    ∷ record { first = 0x1E; plain = "asdfghjkl;'"; shifted = "ASDFGHJKL:\"" }
    ∷ record { first = 0x2B; plain = "\\zxcvbnm,./"; shifted = "|ZXCVBNM<>?" }
    ∷ record { first = 0x39; plain = " "; shifted = " " }
    ∷ []

abbrev key_from : ℕ → Bytes → ℕ → Option ℕ
key_from key [] c = none
key_from key (label ∷ labels) c =
    let rest = key_from (key + 1) labels c in if label == c then some key else rest

-- The key of a character, and whether shift is held.
abbrev key_of : List Row → ℕ → Option (Bool × ℕ)
key_of [] c = none
key_of (row ∷ rows) c =
    let rest = key_of rows c in
    elim (key_from row.first (codes row.plain) c) [
      | some key ↦ some (false, key)
      | none ↦ elim (key_from row.first (codes row.shifted) c) [
        | some key ↦ some (true, key)
        | none ↦ rest
      ]
    ]

-- The codes that the keyboard sends: each key is pressed and released.
abbrev strokes_of : Option (Bool × ℕ) → Bytes
strokes_of none = []
strokes_of (some (false, key)) = key ∷ (key + 0x80) ∷ []
strokes_of (some (true, key)) = 0x2A ∷ key ∷ (key + 0x80) ∷ 0xAA ∷ []

pub strokes : ℕ → Bytes
strokes c = strokes_of (key_of us_layout c)

-- What is printed for a sequence of codes.
run : Bool → Bytes → Bool × Bytes
run m_shift [] = (m_shift, [])
run m_shift (key ∷ keys) =
    let (shift', string) = emit_event m_shift key in
    let (shift'', rest) = run shift' keys in (shift'', string ++ rest)

prints : Bool × Bytes → ℕ → Bool
prints (false, d ∷ []) c = d == c
prints r c = false

prints_lem : (r : Bool × Bytes) (c : ℕ) → prints r c ≡ true → r ≡ (false, c ∷ [])
unfolding prints
prints_lem (false, d ∷ []) c h = ap (λ (k : ℕ). (false, k ∷ [])) ((==_iff d c).0 h)
prints_lem (false, []) c h = cc
prints_lem (false, d ∷ e ∷ l) c h = cc
prints_lem (true, l) c h = cc

abbrev pub has_key : ℕ → Bool
has_key c = elim (key_of us_layout c) [ none ↦ false | some k ↦ true ]

-- A character that the keyboard has.
abbrev pub IsTypable : ℕ → Type 0
IsTypable c = (c < 128) × (has_key c ≡ true)

types : ℕ → Bool
types c = if has_key c then prints (run false (strokes c)) c && not (c == 0x0A) else true

types_table : passes types 128 ≡ true
unfolding types passes prints run strokes emit_event
types_table = refl

run-strokes : (c : ℕ) → IsTypable c → (run false (strokes c) ≡ (false, c ∷ [])) × (c ≢ 0x0A)
unfolding types
run-strokes c h =
    let known = passes_at types 128 c h.0 types_table in
    let both : (prints (run false (strokes c)) c && not (c == 0x0A)) ≡ true =
      ap (λ b. if b then prints (run false (strokes c)) c && not (c == 0x0A) else true) (sym h.1)
      ∙ known in
    (prints_lem (run false (strokes c)) c (ground (arith, both)), ground (arith, both))

pub strokes_text : Bytes → Bytes
strokes_text [] = []
strokes_text (c ∷ text) = strokes c ++ strokes_text text

abbrev pub AllTypable : Bytes → Type 0
AllTypable [] = Unit {0}
AllTypable (c ∷ text) = IsTypable c × AllTypable text

run-append :
    (m_shift : Bool) (xs ys : Bytes)
    → run m_shift (xs ++ ys)
      ≡ ((run (run m_shift xs).0 ys).0, (run m_shift xs).1 ++ (run (run m_shift xs).0 ys).1)
unfolding run
run-append m_shift [] ys = refl
run-append m_shift (x ∷ xs) ys =
    let e = emit_event m_shift x in
    let rest = run-append e.0 xs ys in
    rw rest (
      ap (λ l. ((run (run e.0 xs).0 ys).0, l))
        (sym (append_assoc e.1 (run e.0 xs).1 (run (run e.0 xs).0 ys).1)))

run-strokes_text : (text : Bytes) → AllTypable text → run false (strokes_text text) ≡ (false, text)
unfolding strokes_text
run-strokes_text [] h = unfold run in refl
run-strokes_text (c ∷ text) h =
    run-append false (strokes c) (strokes_text text)
    ∙ rw ((run-strokes c h.0).0, run-strokes_text text h.1) refl

AllTypable-IsLine : (text : Bytes) → AllTypable text → IsLine text
AllTypable-IsLine [] h = tt
AllTypable-IsLine (c ∷ text) h = ((run-strokes c h.0).1, AllTypable-IsLine text h.1)

printf-append : (s : Console) (xs ys : Bytes) → printf s (xs ++ ys) ≡ printf (printf s xs) ys
unfolding printf
printf-append s [] ys = refl
printf-append s (x ∷ xs) ys = printf-append (put_char s x) xs ys

-- The ports give these codes, one to a read of the data port.
pub data Delivers {P : Type 0} (io : Ports P) : P → Bytes → P → Type 0 where
  quiet : {p : P} → Delivers io p [] p
  code_at :
      {p r : P} {codes : Bytes} (code : ℕ) (q : P)
      → io.read p 0x60 ≡ (code, q)
      → Delivers io q codes r
      → Delivers io p (code ∷ codes) r

module _ {P : Type 0} (io : Ports P) where
  -- `n` interrupts of the keyboard.
  pub interrupts : ℕ → P × TextualKeyboardHandler → P × TextualKeyboardHandler
  interrupts zero s = s
  interrupts (suc n) s = interrupts n (handle_interrupt io on_event s)

  interrupts-run :
      {p q : P} (codes : Bytes) (h : TextualKeyboardHandler)
      → Delivers io p codes q
      → interrupts (length codes) (p, h) ≡ (
        q,
        record {
          m_shift = (run h.m_shift codes).0;
          console = printf h.console (run h.m_shift codes).1;
        },
      )
  unfolding interrupts run handle_interrupt on_event printf
  interrupts-run {p} _ h quiet = refl
  interrupts-run {p} {q = r} _ h (code_at {codes} key q got rest) =
      let e = emit_event h.m_shift key in
      let h' : TextualKeyboardHandler = record { m_shift = e.0; console = printf h.console e.1 } in
      ap (λ (g : ℕ × P). interrupts (length codes) (g.1, on_event h g.0)) got
      ∙ interrupts-run codes h' rest
      ∙ ap (λ s. (r, record { m_shift = (run e.0 codes).0; console = s }))
          (sym (printf-append h.console e.1 (run e.0 codes).1))

  -- The shift key is up and the cursor on the screen. Where the controller delivers the codes of a
  -- text that the keys of a US keyboard write, shift pressed for the characters that need it and
  -- each key released, one interrupt for each code leaves the text on the screen from the cursor
  -- on, if it ends in front of the last cell; the other cells are as before, the cursor is behind
  -- the text, and shift is up.
  pub typing-shown :
      {p q : P} (text : Bytes) (h : TextualKeyboardHandler)
      → h.m_shift ≡ false
      → OnScreen h.console
      → AllTypable text
      → offset h.console + length text < width * height
      → Delivers io p (strokes_text text) q
      → let s' = interrupts (length (strokes_text text)) (p, h) in
        (s'.0 ≡ q)
        × (s'.1.m_shift ≡ false)
        × (offset s'.1.console ≡ offset h.console + length text)
        × ((i : ℕ)
            → s'.1.console.vga_buffer i ≡ shown h.console.vga_buffer (offset h.console) text i)
  typing-shown {p} {q} text h up on typable room delivered =
      let codes = strokes_text text in
      let after : Bool × Bytes → P × TextualKeyboardHandler =
        λ r. (q, record { m_shift = r.0; console = printf h.console r.1 }) in
      let s : interrupts (length codes) (p, h) ≡ after (false, text) =
        interrupts-run codes h delivered
        ∙ ap (λ b. after (run b codes)) up
        ∙ ap after (run-strokes_text text typable) in
      let line = printf-shown h.console text on (AllTypable-IsLine text typable) room in
      (
        ap (λ t. t.0) s,
        ap (λ t. t.1.m_shift) s,
        ap (λ t. offset t.1.console) s ∙ line.0,
        λ i. ap (λ t. t.1.console.vga_buffer i) s ∙ line.1 i,
      )
