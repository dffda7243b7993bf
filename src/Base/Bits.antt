-- ===== src/Base/Bits.antt =====
-- `|` on numbers whose ones do not overlap is a sum.
use Prim.Native.Nat.{
  ℕ, zero, suc, ◌+◌, ◌*◌, ◌/◌, ◌%◌, ◌^◌, ◌≤◌, ◌<◌, max, bit_or, digits, bit_or-bitwise,
}
use mathlib.Core.Path.{◌≡◌, refl}
use native.Mathlib.Nat.{pow-suc}
use native.Mathlib.Omega.{arith}

abbrev or_digits : ℕ → ℕ → ℕ → ℕ
or_digits n a b = digits (λ b. b) max n a b

or_digits_fuel : (n m a b : ℕ) → a ≤ n → a ≤ m → or_digits n a b ≡ or_digits m a b
or_digits_fuel (suc n) (suc m) (suc a) b p q =
    omega (arith, or_digits_fuel n m (suc a / 2) (b / 2) (omega arith) (omega arith))
or_digits_fuel (suc n) (suc m) zero b p q = refl
or_digits_fuel (suc n) zero zero b p q = refl
or_digits_fuel zero (suc m) zero b p q = refl
or_digits_fuel zero zero zero b p q = refl
or_digits_fuel (suc n) zero (suc a) b p q = absurd (omega arith)
or_digits_fuel zero m (suc a) b p q = absurd (omega arith)

zero-bit_or : (b : ℕ) → bit_or 0 b ≡ b
zero-bit_or b = bit_or-bitwise 0 b

-- The lowest digit, and the rest.
bit_or_step : (a b : ℕ) → bit_or a b ≡ bit_or (a / 2) (b / 2) * 2 + max (a % 2) (b % 2)
bit_or_step zero b = omega (arith, zero-bit_or b, zero-bit_or (b / 2))
bit_or_step (suc a) b = omega (
  arith,
  bit_or-bitwise (suc a) b,
  bit_or-bitwise (suc a / 2) (b / 2),
  or_digits_fuel a (suc a / 2) (suc a / 2) (b / 2) (omega arith) (omega arith),
)

bit_or-zero_fuel : (n a : ℕ) → a ≤ n → bit_or a 0 ≡ a
bit_or-zero_fuel n zero h = refl
bit_or-zero_fuel zero (suc a) h = absurd (omega arith)
bit_or-zero_fuel (suc n) (suc a) h =
    omega (arith, bit_or_step (suc a) 0, bit_or-zero_fuel n (suc a / 2) (omega arith))

bit_or-zero : (a : ℕ) → bit_or a 0 ≡ a
bit_or-zero a = bit_or-zero_fuel a a (omega arith)

half_double : (x y : ℕ) → x ≡ y * 2 → x / 2 ≡ y
half_double x y e = omega arith

bit_or-shift_fuel : (k a b : ℕ) → b < 2 ^ k → bit_or (a * 2 ^ k) b ≡ a * 2 ^ k + b
bit_or-shift_fuel zero a zero h = rw bit_or-zero (omega arith)
bit_or-shift_fuel zero a (suc b) h = absurd (omega arith)
bit_or-shift_fuel (suc k) a b h =
    let e : 2 ^ suc k ≡ 2 ^ k * 2 = pow-suc 2 k in
    let twice : a * 2 ^ suc k ≡ a * 2 ^ k * 2 = rw e (omega arith) in
    rw (bit_or_step (a * 2 ^ suc k) b, half_double _ _ twice)
      (omega (arith, bit_or-shift_fuel k a (b / 2) (omega arith), twice))

-- `hi << k | lo`, where `lo` has at most `k` digits.
pub bit_or-shift : (k a b : ℕ) → b < 2 ^ k → bit_or (a * 2 ^ k) b ≡ a * 2 ^ k + b
bit_or-shift k a b h = bit_or-shift_fuel k a b h
