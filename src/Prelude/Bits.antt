-- ===== src/Prelude/Bits.antt =====
-- `|` and `&` on machine words as arithmetic: a value shifted left and or'ed with one that fits
-- below it is a sum, and a mask of low bits is a remainder. At every width.
use Prim.Native.Nat.{
  ℕ, zero, suc, ◌+◌, ◌-◌, ◌*◌, ◌/◌, ◌%◌, ◌^◌, ◌≤◌, ◌<◌, min, max, bit_and, bit_or, digits,
  bit_and-bitwise, bit_or-bitwise,
}
use mathlib.Core.Path.{◌≡◌, refl, ap}
use native.Mathlib.Nat.{pow-suc, one-le-pow}
use native.Mathlib.Omega.{arith}

-- Any two counts of digits that are large enough give the same result.
same_digits :
    (z : ℕ → ℕ) (f : ℕ → ℕ → ℕ) (n m a b : ℕ) → a ≤ n → a ≤ m → digits z f n a b ≡ digits z f m a b
same_digits z f zero zero a b h k = refl
same_digits z f (suc n) zero zero b h k = refl
same_digits z f zero (suc m) zero b h k = refl
same_digits z f (suc n) (suc m) zero b h k = refl
same_digits z f zero m (suc a) b h k = absurd (omega arith)
same_digits z f (suc n) zero (suc a) b h k = absurd (omega arith)
same_digits z f (suc n) (suc m) (suc a) b h k =
    omega (arith, same_digits z f n m (suc a / 2) (b / 2) (omega arith) (omega arith))

-- The lowest digit of each operation, split off.
pub or_digit : (a b : ℕ) → bit_or a b ≡ bit_or (a / 2) (b / 2) * 2 + max (a % 2) (b % 2)
or_digit zero b = omega (arith, bit_or-bitwise 0 b, bit_or-bitwise 0 (b / 2))
or_digit (suc a) b = omega (
  arith,
  bit_or-bitwise (suc a) b,
  bit_or-bitwise (suc a / 2) (b / 2),
  same_digits (λ y. y) max a (suc a / 2) (suc a / 2) (b / 2) (omega arith) (omega arith),
)

pub and_digit : (a b : ℕ) → bit_and a b ≡ bit_and (a / 2) (b / 2) * 2 + min (a % 2) (b % 2)
and_digit zero b = omega (arith, bit_and-bitwise 0 b, bit_and-bitwise 0 (b / 2))
and_digit (suc a) b = omega (
  arith,
  bit_and-bitwise (suc a) b,
  bit_and-bitwise (suc a / 2) (b / 2),
  same_digits (λ y. 0) min a (suc a / 2) (suc a / 2) (b / 2) (omega arith) (omega arith),
)

double_shift : (q k : ℕ) → q * 2 ^ suc k ≡ q * 2 ^ k * 2
double_shift q k = omega (arith, ap (λ (t : ℕ). q * t) (pow-suc 2 k))

or_zero_upto : (n a : ℕ) → a ≤ n → bit_or a 0 ≡ a
or_zero_upto n zero h = refl
or_zero_upto zero (suc a) h = absurd (omega arith)
or_zero_upto (suc n) (suc a) h =
    omega (arith, or_digit (suc a) 0, or_zero_upto n (suc a / 2) (omega arith))

and_zero_upto : (n a : ℕ) → a ≤ n → bit_and a 0 ≡ 0
and_zero_upto n zero h = refl
and_zero_upto zero (suc a) h = absurd (omega arith)
and_zero_upto (suc n) (suc a) h =
    omega (arith, and_digit (suc a) 0, and_zero_upto n (suc a / 2) (omega arith))

pub zero_or : (a : ℕ) → bit_or 0 a ≡ a
zero_or a = omega (arith, bit_or-bitwise 0 a)

-- `(q << k) | r`, where `r` has at most `k` bits.
pub or-disjoint : (k q r : ℕ) → r < 2 ^ k → bit_or (q * 2 ^ k) r ≡ q * 2 ^ k + r
or-disjoint zero q r h = ground (arith, or_zero_upto q q)
or-disjoint (suc k) q r h = ground (
  arith,
  or_digit (q * 2 ^ suc k) r,
  double_shift q k,
  pow-suc 2 k,
  or-disjoint k q (r / 2) (omega (arith, pow-suc 2 k)),
)

and_low_part : (k q r : ℕ) → r < 2 ^ k → bit_and (q * 2 ^ k + r) (2 ^ k - 1) ≡ r
and_low_part zero q r h = ground (arith, and_zero_upto (q * 1 + r) (q * 1 + r))
and_low_part (suc k) q r h = ground (
  arith,
  and_digit (q * 2 ^ suc k + r) (2 ^ suc k - 1),
  double_shift q k,
  pow-suc 2 k,
  one-le-pow k 2,
  and_low_part k q (r / 2),
)

-- `x & (2 ^ k - 1)`
pub and-mask : (k x : ℕ) → bit_and x (2 ^ k - 1) ≡ x % 2 ^ k
and-mask k x = ground (arith, one-le-pow k 2, and_low_part k (x / 2 ^ k) (x % 2 ^ k))
