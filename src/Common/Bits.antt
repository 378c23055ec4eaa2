-- ===== src/Common/Bits.antt =====
-- The native bit operations at masks: `ones n` keeps the low `n` bits, `field k n` the `n` bits from
-- bit `k` on, and a disjoint `bit_or` is a sum.
use Prim.Native.Nat.{
  ℕ, zero, suc, ◌+◌, ◌*◌, ◌/◌, ◌%◌, ◌≤◌, ◌<◌, min, max, bit_and, bit_or, digits, bit_and-bitwise,
  bit_or-bitwise,
}
use mathlib.Core.Path.{◌≡◌, refl, ap}
use native.Mathlib.Omega.{arith}

module _ (z : ℕ → ℕ) (f : ℕ → ℕ → ℕ) where
  -- More fuel than the number gives the same digits.
  digits-enough : (n m a b : ℕ) → a ≤ n → a ≤ m → digits z f n a b ≡ digits z f m a b
  digits-enough n m zero b p q = digits-zero n m b
    where
      digits-zero : (n m b : ℕ) → digits z f n 0 b ≡ digits z f m 0 b
      digits-zero zero zero b = refl
      digits-zero zero (suc m) b = refl
      digits-zero (suc n) zero b = refl
      digits-zero (suc n) (suc m) b = refl
  digits-enough zero m (suc a) b p q = absurd (omega arith)
  digits-enough (suc n) zero (suc a) b p q = absurd (omega arith)
  digits-enough (suc n) (suc m) (suc a) b p q =
      rw (digits-enough n m (suc a / 2) (b / 2) (omega arith) (omega arith))

zero-bit_and : (b : ℕ) → bit_and 0 b ≡ 0
zero-bit_and b = bit_and-bitwise 0 b

zero-bit_or : (b : ℕ) → bit_or 0 b ≡ b
zero-bit_or b = bit_or-bitwise 0 b

pub bit_and_halves : (a b : ℕ) → bit_and a b ≡ 2 * bit_and (a / 2) (b / 2) + min (a % 2) (b % 2)
bit_and_halves zero b = omega (arith, zero-bit_and b, zero-bit_and (b / 2))
bit_and_halves (suc a) b = omega (
  arith,
  bit_and-bitwise (suc a) b,
  bit_and-bitwise (suc a / 2) (b / 2),
  digits-enough (λ b. zero) min a (suc a / 2) (suc a / 2) (b / 2) (omega arith) (omega arith),
)

pub bit_or_halves : (a b : ℕ) → bit_or a b ≡ 2 * bit_or (a / 2) (b / 2) + max (a % 2) (b % 2)
bit_or_halves zero b = omega (arith, zero-bit_or b, zero-bit_or (b / 2))
bit_or_halves (suc a) b = omega (
  arith,
  bit_or-bitwise (suc a) b,
  bit_or-bitwise (suc a / 2) (b / 2),
  digits-enough (λ b. b) max a (suc a / 2) (suc a / 2) (b / 2) (omega arith) (omega arith),
)

pub bit_and-zero : (a : ℕ) → bit_and a 0 ≡ 0
bit_and-zero a = below a a (omega arith)
  where
    below : (n a : ℕ) → a ≤ n → bit_and a 0 ≡ 0
    below n zero h = refl
    below zero (suc a) h = absurd (omega arith)
    below (suc n) (suc a) h =
        omega (arith, bit_and_halves (suc a) 0, below n (suc a / 2) (omega arith))

pub bit_or-zero : (a : ℕ) → bit_or a 0 ≡ a
bit_or-zero a = below a a (omega arith)
  where
    below : (n a : ℕ) → a ≤ n → bit_or a 0 ≡ a
    below n zero h = refl
    below zero (suc a) h = absurd (omega arith)
    below (suc n) (suc a) h =
        omega (arith, bit_or_halves (suc a) 0, below n (suc a / 2) (omega arith))

abbrev pub pow2 : ℕ → ℕ
pow2 zero = 1
pow2 (suc n) = 2 * pow2 n

abbrev pub ones : ℕ → ℕ
ones zero = 0
ones (suc n) = 2 * ones n + 1

abbrev pub low : ℕ → ℕ → ℕ
low zero a = 0
low (suc n) a = 2 * low n (a / 2) + a % 2

abbrev pub high : ℕ → ℕ → ℕ
high zero a = a
high (suc k) a = high k (a / 2)

abbrev pub field : ℕ → ℕ → ℕ
field zero n = ones n
field (suc k) n = 2 * field k n

pub bit_and-ones : (n a : ℕ) → bit_and a (ones n) ≡ low n a
bit_and-ones zero a = bit_and-zero a
bit_and-ones (suc n) a =
    omega (arith, bit_and_halves a (ones (suc n)), bit_and-ones n (a / 2), half-ones n)
  where
    half-ones : (n : ℕ) → bit_and (a / 2) ((2 * ones n + 1) / 2) ≡ bit_and (a / 2) (ones n)
    half-ones n = let e : (2 * ones n + 1) / 2 ≡ ones n = omega arith in rw e

pub low_self : (n a : ℕ) → a < pow2 n → low n a ≡ a
low_self zero a h = omega arith
low_self (suc n) a h = omega (arith, low_self n (a / 2) (omega arith))

pub bit_and-field : (k n a : ℕ) → bit_and a (field k n) ≡ pow2 k * low n (high k a)
bit_and-field zero n a = omega (arith, bit_and-ones n a)
bit_and-field (suc k) n a =
    let e : 2 * field k n / 2 ≡ field k n = omega arith in
    let step : bit_and a (2 * field k n)
        ≡ 2 * bit_and (a / 2) (2 * field k n / 2) + min (a % 2) (2 * field k n % 2) =
      bit_and_halves a (2 * field k n) in
    omega (arith, rw e at step, ap (λ (t : ℕ). 2 * t) (bit_and-field k n (a / 2)))

-- A number that is below `2 ^ k` is added to a multiple of `2 ^ k` by `bit_or`.
pub bit_or-disjoint : (k q r : ℕ) → r < pow2 k → bit_or (pow2 k * q) r ≡ pow2 k * q + r
bit_or-disjoint zero q r h =
    let e : r ≡ 0 = omega arith in rw e (omega (arith, bit_or-zero (1 * q)))
bit_or-disjoint (suc k) q r h =
    let e : pow2 (suc k) * q / 2 ≡ pow2 k * q = omega arith in
    let step = bit_or_halves (pow2 (suc k) * q) r in
    omega (arith, rw e at step, bit_or-disjoint k q (r / 2) (omega arith))
