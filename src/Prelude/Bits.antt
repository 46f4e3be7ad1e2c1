-- ===== src/Prelude/Bits.antt =====
-- Facts about the native `bit_or` where the two numbers share no bit.
use Prim.Native.Nat.{
  ℕ, zero, suc, ◌+◌, ◌*◌, ◌/◌, ◌%◌, ◌≤◌, ◌<◌, max, bit_or, digits, bit_or-bitwise,
}
use mathlib.Core.Path.{◌≡◌, refl, ◌∙◌, ap}
use native.Mathlib.Omega.{arith}

abbrev or_digits : ℕ → ℕ → ℕ → ℕ
or_digits n a b = digits (λ b. b) max n a b

or_digits_fuel : (n m a b : ℕ) → a ≤ n → a ≤ m → or_digits n a b ≡ or_digits m a b
or_digits_fuel zero zero a b p q = refl
or_digits_fuel zero (suc m) zero b p q = refl
or_digits_fuel zero (suc m) (suc a) b p q = absurd (omega arith)
or_digits_fuel (suc n) zero zero b p q = refl
or_digits_fuel (suc n) zero (suc a) b p q = absurd (omega arith)
or_digits_fuel (suc n) (suc m) zero b p q = refl
or_digits_fuel (suc n) (suc m) (suc a) b p q =
    omega (arith, or_digits_fuel n m (suc a / 2) (b / 2) (omega arith) (omega arith))

pub zero-bit_or : (b : ℕ) → bit_or 0 b ≡ b
zero-bit_or b = bit_or-bitwise 0 b

bit_or_step : (a b : ℕ) → bit_or a b ≡ bit_or (a / 2) (b / 2) * 2 + max (a % 2) (b % 2)
bit_or_step zero b = omega (arith, zero-bit_or b, zero-bit_or (b / 2))
bit_or_step (suc a) b = omega (
  arith,
  bit_or-bitwise (suc a) b,
  bit_or-bitwise (suc a / 2) (b / 2),
  or_digits_fuel a (suc a / 2) (suc a / 2) (b / 2) (omega arith) (omega arith),
)

bit_or-zero_fuel : (n a : ℕ) → a ≤ n → bit_or a 0 ≡ a
bit_or-zero_fuel n zero h = zero-bit_or 0
bit_or-zero_fuel zero (suc a) h = absurd (omega arith)
bit_or-zero_fuel (suc n) (suc a) h =
    omega (arith, bit_or_step (suc a) 0, bit_or-zero_fuel n (suc a / 2) (omega arith))

pub bit_or-zero : (a : ℕ) → bit_or a 0 ≡ a
bit_or-zero a = bit_or-zero_fuel a a (omega arith)

-- `c << k`, by doubling
abbrev pub shl : ℕ → ℕ → ℕ
shl zero c = c
shl (suc k) c = 2 * shl k c

halve : (n : ℕ) → 2 * n / 2 ≡ n
halve n = omega arith

-- below the `k`-th bit and from it on: or is addition
pub bit_or-shl : (k a c : ℕ) → a < shl k 1 → bit_or a (shl k c) ≡ a + shl k c
bit_or-shl zero zero c h = zero-bit_or c ∙ omega arith
bit_or-shl zero (suc a) c h = absurd (omega arith)
bit_or-shl (suc k) a c h = omega (
  arith,
  bit_or_step a (2 * shl k c),
  ap (bit_or (a / 2)) (halve (shl k c)),
  bit_or-shl k (a / 2) c (omega arith),
)

pub shl-bit_or : (k a c : ℕ) → a < shl k 1 → bit_or (shl k c) a ≡ a + shl k c
shl-bit_or zero zero c h = bit_or-zero c ∙ omega arith
shl-bit_or zero (suc a) c h = absurd (omega arith)
shl-bit_or (suc k) a c h = omega (
  arith,
  bit_or_step (2 * shl k c) a,
  ap (λ t. bit_or t (a / 2)) (halve (shl k c)),
  shl-bit_or k (a / 2) c (omega arith),
)
