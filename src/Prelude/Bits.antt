-- ===== src/Prelude/Bits.antt =====
-- Laws of `bit_and` and `bit_or` at variables, from the digit recursion that they stand for.
use Prim.Native.Nat.{
  ℕ, zero, suc, ◌+◌, ◌*◌, ◌/◌, ◌%◌, ◌≤◌, ◌<◌, max, bit_or, digits, bit_or-bitwise,
}
use mathlib.Core.Path.{◌≡◌, refl}
use native.Mathlib.Omega.{arith}

abbrev or_digits : ℕ → ℕ → ℕ → ℕ
or_digits n a b = digits (λ b. b) max n a b

or_digits_fuel : (n m a b : ℕ) → a ≤ n → a ≤ m → or_digits n a b ≡ or_digits m a b
or_digits_fuel zero zero a b p q = refl
or_digits_fuel zero (suc m) zero b p q = refl
or_digits_fuel zero (suc m) (suc a) b p q = absurd (omega arith)
or_digits_fuel (suc n) zero zero b p q = refl
or_digits_fuel (suc n) zero (suc a) b p q = absurd (omega arith)
or_digits_fuel (suc n) (suc m) zero b p q = refl
or_digits_fuel (suc n) (suc m) (suc a) b p q =
    omega (arith, or_digits_fuel n m (suc a / 2) (b / 2) (omega arith) (omega arith))

pub zero-bit_or : (b : ℕ) → bit_or 0 b ≡ b
zero-bit_or b = bit_or-bitwise 0 b

pub bit_or_step : (a b : ℕ) → bit_or a b ≡ bit_or (a / 2) (b / 2) * 2 + max (a % 2) (b % 2)
bit_or_step zero b = omega (arith, zero-bit_or b, zero-bit_or (b / 2))
bit_or_step (suc a) b = omega (
  arith,
  bit_or-bitwise (suc a) b,
  bit_or-bitwise (suc a / 2) (b / 2),
  or_digits_fuel a (suc a / 2) (suc a / 2) (b / 2) (omega arith) (omega arith),
)

bit_or-zero_fuel : (n a : ℕ) → a ≤ n → bit_or a 0 ≡ a
bit_or-zero_fuel n zero h = refl
bit_or-zero_fuel zero (suc a) h = absurd (omega arith)
bit_or-zero_fuel (suc n) (suc a) h =
    omega (arith, bit_or_step (suc a) 0, bit_or-zero_fuel n (suc a / 2) (omega arith))

pub bit_or-zero : (a : ℕ) → bit_or a 0 ≡ a
bit_or-zero a = bit_or-zero_fuel a a (omega arith)

-- Flags on a value whose low bits are clear add up.
pub bit_or_three : (a : ℕ) → a % 4 ≡ 0 → bit_or a 3 ≡ a + 3
bit_or_three a h = omega (arith, bit_or_step a 3, bit_or_step (a / 2) 1, bit_or-zero (a / 2 / 2))

pub bit_or_seven : (a : ℕ) → a % 8 ≡ 0 → bit_or a 7 ≡ a + 7
bit_or_seven a h = omega (
  arith,
  bit_or_step a 7,
  bit_or_step (a / 2) 3,
  bit_or_step (a / 2 / 2) 1,
  bit_or-zero (a / 2 / 2 / 2),
)

pub bit_or_nibble : (a b : ℕ) → a % 16 ≡ 0 → b < 16 → bit_or a b ≡ a + b
bit_or_nibble a b h lt =
    let z : b / 2 / 2 / 2 / 2 ≡ 0 = omega arith in
    let e : bit_or (a / 2 / 2 / 2 / 2) (b / 2 / 2 / 2 / 2) ≡ a / 2 / 2 / 2 / 2 =
      rw z (bit_or-zero (a / 2 / 2 / 2 / 2)) in
    omega (
      arith,
      bit_or_step a b,
      bit_or_step (a / 2) (b / 2),
      bit_or_step (a / 2 / 2) (b / 2 / 2),
      bit_or_step (a / 2 / 2 / 2) (b / 2 / 2 / 2),
      e,
    )
