-- ===== src/Base/Bits.antt =====
-- Masks and disjoint unions of bits as arithmetic. `bit_and` and `bit_or` compute at numerals only;
-- these lemmas are what the proofs about the codecs know of them at variables.
use Prim.Native.Nat.{ℕ, zero, suc, ◌+◌, ◌-◌, ◌*◌, ◌/◌, ◌%◌, ◌^◌, ◌≤◌, ◌<◌, min, max}
use Prim.Native.Nat.{bit_and, bit_or, digits, bitwise, bit_and-bitwise, bit_or-bitwise}
use mathlib.Core.Path.{◌≡◌, refl, ap}
use native.Mathlib.Nat.{le_refl, pow-suc, div-add-mod, div-div-eq-div-mul}
use native.Mathlib.Omega.{arith}

-- `x << k` before the cut to the width of its type, and `x >> k`.
infixl 75 ◌<<<◌ ◌>>>◌
abbrev pub ◌<<<◌ : ℕ → ℕ → ℕ
x <<< k = x * 2 ^ k

abbrev pub ◌>>>◌ : ℕ → ℕ → ℕ
x >>> k = x / 2 ^ k

-- The fuel of the digit recursion is enough from the number itself on.
enough_fuel :
    (z : ℕ → ℕ) (f : ℕ → ℕ → ℕ) (n m a b : ℕ) → a ≤ n → a ≤ m → digits z f n a b ≡ digits z f m a b
enough_fuel z f zero zero a b p q = refl
enough_fuel z f zero (suc m) zero b p q = refl
enough_fuel z f zero (suc m) (suc a) b p q = absurd (omega arith)
enough_fuel z f (suc n) zero zero b p q = refl
enough_fuel z f (suc n) zero (suc a) b p q = absurd (omega arith)
enough_fuel z f (suc n) (suc m) zero b p q = refl
enough_fuel z f (suc n) (suc m) (suc a) b p q =
    rw (enough_fuel z f n m (suc a / 2) (b / 2) (omega arith) (omega arith))

lowest_digit :
    (z : ℕ → ℕ) (f : ℕ → ℕ → ℕ) (a b : ℕ)
    → bitwise z f (suc a) b ≡ bitwise z f (suc a / 2) (b / 2) * 2 + f (suc a % 2) (b % 2)
lowest_digit z f a b =
    omega (arith, enough_fuel z f a (suc a / 2) (suc a / 2) (b / 2) (omega arith) (le_refl _))

bit_or_digit : (a b : ℕ) → bit_or a b ≡ bit_or (a / 2) (b / 2) * 2 + max (a % 2) (b % 2)
bit_or_digit zero b = simp bit_or-bitwise (omega arith)
bit_or_digit (suc a) b = simp bit_or-bitwise (lowest_digit (λ y. y) max a b)

bit_and_digit : (a b : ℕ) → bit_and a b ≡ bit_and (a / 2) (b / 2) * 2 + min (a % 2) (b % 2)
bit_and_digit zero b = simp bit_and-bitwise (omega arith)
bit_and_digit (suc a) b = simp bit_and-bitwise (lowest_digit (λ y. 0) min a b)

bit_or-zero_fuel : (n a : ℕ) → a ≤ n → bit_or a 0 ≡ a
bit_or-zero_fuel n zero h = refl
bit_or-zero_fuel zero (suc a) h = absurd (omega arith)
bit_or-zero_fuel (suc n) (suc a) h =
    omega (arith, bit_or_digit (suc a) 0, bit_or-zero_fuel n (suc a / 2) (omega arith))

bit_or-zero : (a : ℕ) → bit_or a 0 ≡ a
bit_or-zero a = bit_or-zero_fuel a a (omega arith)

no_bits : (bound a : ℕ) → a < bound → bit_and a 0 ≡ 0
no_bits (suc bound) (suc a) below =
    omega (arith, no_bits bound (suc a / 2) (omega arith), bit_and_digit (suc a) 0)
no_bits bound zero below = refl
no_bits zero (suc a) below = absurd (omega arith)

pub zero-bit_and : (b : ℕ) → bit_and 0 b ≡ 0
zero-bit_and b = simp bit_and-bitwise (omega arith)

bit_and-zero : (a : ℕ) → bit_and a 0 ≡ 0
bit_and-zero a = no_bits (suc a) a (omega arith)

double_pow : (q k : ℕ) → q * 2 ^ suc k ≡ 2 * (q * 2 ^ k)
double_pow q k = omega (arith, ap (λ (t : ℕ). q * t) (pow-suc 2 k))

-- `(q << k) | r` is a sum when `r` has at most `k` bits.
pub bit_or_sum : (k q r : ℕ) → r < 2 ^ k → bit_or (q * 2 ^ k) r ≡ q * 2 ^ k + r
bit_or_sum zero q r h = omega (arith, bit_or-zero (q * 1), ap (bit_or (q * 1)) zero_of)
  where
    zero_of : r ≡ 0
    zero_of = omega arith
bit_or_sum (suc k) q r h = omega (
  arith,
  bit_or_digit (q * 2 ^ suc k) r,
  double_pow q k,
  ap (λ (t : ℕ). bit_or t (r / 2)) halves,
  bit_or_sum k q (r / 2) (omega (arith, pow-suc 2 k)),
)
  where
    halves : q * 2 ^ suc k / 2 ≡ q * 2 ^ k
    halves = omega (arith, double_pow q k)

pow_two : (k : ℕ) → 2 ^ suc k ≡ 2 * 2 ^ k
pow_two k = omega (arith, pow-suc 2 k)

one_le_pow : (k : ℕ) → 1 ≤ 2 ^ k
one_le_pow zero = omega arith
one_le_pow (suc k) = omega (arith, one_le_pow k, pow-suc 2 k)

mod_digit : (m a : ℕ) → a % (2 * m) ≡ a / 2 % m * 2 + a % 2
mod_digit m a = omega (
  arith,
  div-add-mod a (2 * m),
  div-add-mod (a / 2) m,
  ap (λ (t : ℕ). m * t) (div-div-eq-div-mul a 2 m),
)

-- `v & mask` for the mask of the `k` low bits.
pub bit_and_low : (k a : ℕ) → bit_and a (2 ^ k - 1) ≡ a % 2 ^ k
bit_and_low zero a = rw bit_and-zero (omega arith)
bit_and_low (suc k) a = omega (
  arith,
  one_le_pow k,
  pow-suc 2 k,
  bit_and_digit a (2 ^ suc k - 1),
  ap (λ (t : ℕ). bit_and (a / 2) t) halves,
  bit_and_low k (a / 2),
  mod_digit (2 ^ k) a,
  ap (λ (t : ℕ). a % t) (pow_two k),
)
  where
    halves : (2 ^ suc k - 1) / 2 ≡ 2 ^ k - 1
    halves = omega (arith, pow-suc 2 k, one_le_pow k)

-- A mask that is a multiple of `2 ^ k` looks at the bits from `k` on.
pub bit_and_high : (k a m : ℕ) → bit_and a (m * 2 ^ k) ≡ bit_and (a / 2 ^ k) m * 2 ^ k
bit_and_high zero a m =
    omega (arith, ap (λ (t : ℕ). bit_and a t) one, ap (λ (t : ℕ). bit_and t m) div_one)
  where
    one : m * 1 ≡ m
    one = omega arith

    div_one : a / 1 ≡ a
    div_one = omega arith
bit_and_high (suc k) a m = omega (
  arith,
  bit_and_digit a (m * 2 ^ suc k),
  double_pow m k,
  ap (λ (t : ℕ). bit_and (a / 2) t) halves,
  bit_and_high k (a / 2) m,
  double_pow (bit_and (a / 2 / 2 ^ k) m) k,
  ap (λ (t : ℕ). bit_and t m * 2 ^ suc k) quotients,
)
  where
    halves : m * 2 ^ suc k / 2 ≡ m * 2 ^ k
    halves = omega (arith, double_pow m k)

    quotients : a / 2 ^ suc k ≡ a / 2 / 2 ^ k
    quotients = rw (div-div-eq-div-mul, pow_two)

-- One bit of `v`.
pub bit_and_bit : (k a : ℕ) → bit_and a (1 * 2 ^ k) ≡ a / 2 ^ k % 2 * 2 ^ k
bit_and_bit k a = rw (bit_and_high k a 1, bit_and_low 1 (a / 2 ^ k))

zero-bit_or : (b : ℕ) → bit_or 0 b ≡ b
zero-bit_or b = simp bit_or-bitwise (omega arith)

-- The same with the high part on the right: `v | mask`.
pub bit_or_sum_right : (k q r : ℕ) → r < 2 ^ k → bit_or r (q * 2 ^ k) ≡ q * 2 ^ k + r
bit_or_sum_right zero q r h =
    omega (arith, zero-bit_or (q * 1), ap (λ (t : ℕ). bit_or t (q * 1)) zero_of)
  where
    zero_of : r ≡ 0
    zero_of = omega arith
bit_or_sum_right (suc k) q r h = omega (
  arith,
  bit_or_digit r (q * 2 ^ suc k),
  double_pow q k,
  ap (λ (t : ℕ). bit_or (r / 2) t) halves,
  bit_or_sum_right k q (r / 2) (omega (arith, pow-suc 2 k)),
)
  where
    halves : q * 2 ^ suc k / 2 ≡ q * 2 ^ k
    halves = omega (arith, double_pow q k)
