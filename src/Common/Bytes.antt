-- ===== src/Common/Bytes.antt =====
-- Byte buffers: little-endian words in them, and what a transfer into a buffer leaves.
use Prim.Native.Nat.{ℕ, zero, suc, ◌+◌, ◌*◌, ◌/◌, ◌%◌, ◌^◌, ◌≤◌, ◌<◌}
use Prim.Native.Char.{code}
use Prim.Native.String.{String}
use mathlib.Core.Path.{◌≡◌, refl, ◌∙◌, ap}
use mathlib.Core.Logic.{◌≢◌}
use mathlib.Core.List.{List, [], ◌∷◌, ◌++◌, append-nil}
use native.Mathlib.Omega.{arith}
use pingu_os.Common.Tests.{◌==◌, if◌then◌else◌}
use pingu_os.Common.Lists.{
  length, get_or, set, take, drop, length-set, get_or-set_self, get_or-set_ne,
}

abbrev pub Bytes : Type 0
Bytes = List ℕ

-- The characters of a text literal.
abbrev pub codes : String → Bytes
codes String.[] = []
codes (String.◌∷◌ c s) = code c ∷ codes s

-- `buf` after `bytes` have been stored from its start on.
unfoldable pub fill : Bytes → Bytes → Bytes
fill buf bytes = bytes ++ drop (length bytes) buf

-- `buf` after `bytes` have been stored from the position `at` on.
unfoldable pub fill_at : Bytes → ℕ → Bytes → Bytes
unfolding fill
fill_at buf at bytes = take at buf ++ fill (drop at buf) bytes

-- The C string at the start of an array.
unfoldable pub c_string : Bytes → Bytes
c_string [] = []
c_string (c ∷ cs) = let rest = c_string cs in if c == 0 then [] else c ∷ rest

unfoldable pub get_u16 : Bytes → ℕ → ℕ
get_u16 l at = get_or l at 0 + 2 ^ 8 * get_or l (at + 1) 0

unfoldable pub get_u32 : Bytes → ℕ → ℕ
get_u32 l at =
    get_or l at 0
    + 2 ^ 8 * get_or l (at + 1) 0
    + 2 ^ 16 * get_or l (at + 2) 0
    + 2 ^ 24 * get_or l (at + 3) 0

unfoldable pub set_u16 : Bytes → ℕ → ℕ → Bytes
set_u16 l at v = set (set l at (v % 2 ^ 8)) (at + 1) (v / 2 ^ 8 % 2 ^ 8)

unfoldable pub set_u32 : Bytes → ℕ → ℕ → Bytes
set_u32 l at v =
    set
      (set (set (set l at (v % 2 ^ 8)) (at + 1) (v / 2 ^ 8 % 2 ^ 8)) (at + 2) (v / 2 ^ 16 % 2 ^ 8))
      (at + 3) (v / 2 ^ 24 % 2 ^ 8)

pub length-set_u32 : (l : Bytes) (at v : ℕ) → length (set_u32 l at v) ≡ length l
unfolding set_u32
length-set_u32 l at v = simp length-set

pub get_or-set_u32_ne :
    (l : Bytes) (at v j : ℕ)
    → at ≢ j
    → at + 1 ≢ j
    → at + 2 ≢ j
    → at + 3 ≢ j
    → get_or (set_u32 l at v) j 0 ≡ get_or l j 0
unfolding set_u32
get_or-set_u32_ne l at v j h₀ h₁ h₂ h₃ =
    let l₁ = set l at (v % 2 ^ 8) in
    let l₂ = set l₁ (at + 1) (v / 2 ^ 8 % 2 ^ 8) in
    let l₃ = set l₂ (at + 2) (v / 2 ^ 16 % 2 ^ 8) in
    get_or-set_ne l₃ (at + 3) j (v / 2 ^ 24 % 2 ^ 8) 0 h₃
    ∙ get_or-set_ne l₂ (at + 2) j (v / 2 ^ 16 % 2 ^ 8) 0 h₂
    ∙ get_or-set_ne l₁ (at + 1) j (v / 2 ^ 8 % 2 ^ 8) 0 h₁
    ∙ get_or-set_ne l at j (v % 2 ^ 8) 0 h₀

-- A word that is stored is read back.
pub get_u32-set_u32 :
    (l : Bytes) (at v : ℕ) → at + 3 < length l → v < 2 ^ 32 → get_u32 (set_u32 l at v) at ≡ v
unfolding get_u32 set_u32
get_u32-set_u32 l at v room word =
    let l₁ = set l at (v % 2 ^ 8) in
    let l₂ = set l₁ (at + 1) (v / 2 ^ 8 % 2 ^ 8) in
    let l₃ = set l₂ (at + 2) (v / 2 ^ 16 % 2 ^ 8) in
    let b₃ = v / 2 ^ 24 % 2 ^ 8 in
    omega (
      arith,
      get_or-set_ne l₃ (at + 3) at b₃ 0 (omega arith),
      get_or-set_ne l₂ (at + 2) at (v / 2 ^ 16 % 2 ^ 8) 0 (omega arith),
      get_or-set_ne l₁ (at + 1) at (v / 2 ^ 8 % 2 ^ 8) 0 (omega arith),
      get_or-set_self l at (v % 2 ^ 8) 0 (omega arith),
      get_or-set_ne l₃ (at + 3) (at + 1) b₃ 0 (omega arith),
      get_or-set_ne l₂ (at + 2) (at + 1) (v / 2 ^ 16 % 2 ^ 8) 0 (omega arith),
      get_or-set_self l₁ (at + 1) (v / 2 ^ 8 % 2 ^ 8) 0
          (omega (arith, length-set l at (v % 2 ^ 8))),
      get_or-set_ne l₃ (at + 3) (at + 2) b₃ 0 (omega arith),
      get_or-set_self l₂ (at + 2) (v / 2 ^ 16 % 2 ^ 8) 0
          (omega (arith, length-set l at (v % 2 ^ 8), length-set l₁ (at + 1) (v / 2 ^ 8 % 2 ^ 8))),
      get_or-set_self l₃ (at + 3) b₃ 0 (
          omega (
            arith,
            length-set l at (v % 2 ^ 8),
            length-set l₁ (at + 1) (v / 2 ^ 8 % 2 ^ 8),
            length-set l₂ (at + 2) (v / 2 ^ 16 % 2 ^ 8),
          )),
    )

-- Another word stays.
pub get_u32-set_u32_ne :
    (l : Bytes) (i j v : ℕ) → i ≢ j → get_u32 (set_u32 l (4 * i) v) (4 * j) ≡ get_u32 l (4 * j)
unfolding get_u32
get_u32-set_u32_ne l i j v h = omega (
  arith,
  get_or-set_u32_ne l (4 * i) v (4 * j) (omega arith) (omega arith) (omega arith) (omega arith),
  get_or-set_u32_ne l (4 * i) v (4 * j + 1) (omega arith) (omega arith) (omega arith) (omega arith),
  get_or-set_u32_ne l (4 * i) v (4 * j + 2) (omega arith) (omega arith) (omega arith) (omega arith),
  get_or-set_u32_ne l (4 * i) v (4 * j + 3) (omega arith) (omega arith) (omega arith) (omega arith),
)

pub drop_all {ℓ} : {A : Type ℓ} (n : ℕ) (l : List A) → length l ≤ n → drop n l ≡ []
drop_all zero [] h = refl
drop_all zero (x ∷ l) h = absurd (omega arith)
drop_all (suc n) [] h = refl
drop_all (suc n) (x ∷ l) h = drop_all n l (omega arith)

pub take_all {ℓ} : {A : Type ℓ} (n : ℕ) (l : List A) → length l ≤ n → take n l ≡ l
take_all zero [] h = refl
take_all zero (x ∷ l) h = absurd (omega arith)
take_all (suc n) [] h = refl
take_all (suc n) (x ∷ l) h = ap (λ r. x ∷ r) (take_all n l (omega arith))

-- A transfer of the buffer's length leaves nothing of what it held.
pub fill_all : (buf bytes : Bytes) → length buf ≤ length bytes → fill buf bytes ≡ bytes
unfolding fill
fill_all buf bytes h = rw (drop_all (length bytes) buf h) (append-nil bytes)
