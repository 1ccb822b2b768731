-- ===== src/Prelude/Bits.antt =====
-- Bit operations as arithmetic: joining a shifted number with one that fits below it, and masks.
use Prim.Native.Nat.{
  ℕ, zero, suc, ◌+◌, ◌*◌, ◌/◌, ◌%◌, ◌^◌, ◌≤◌, ◌<◌, max, bit_and, bit_or, digits, bit_or-bitwise,
}
use mathlib.Core.Path.{◌≡◌, refl, ap}
use mathlib.Core.Bool.{Bool, true, ◌&&◌}
use native.Mathlib.Omega.{arith}
use native.Mathlib.Nat.{pow-suc}
use wrtdeck.Prelude.Tests.{◌==◌}

-- The digits of `a` joined with those of `b`, for `n` at least `a`.
abbrev or_digits : ℕ → ℕ → ℕ → ℕ
or_digits n a b = digits (λ b. b) max n a b

or_digits_fuel : (n m a b : ℕ) → a ≤ n → a ≤ m → or_digits n a b ≡ or_digits m a b
or_digits_fuel zero zero zero b p q = refl
or_digits_fuel zero (suc m) zero b p q = refl
or_digits_fuel (suc n) zero zero b p q = refl
or_digits_fuel (suc n) (suc m) zero b p q = refl
or_digits_fuel zero zero (suc a) b p q = absurd (omega arith)
or_digits_fuel zero (suc m) (suc a) b p q = absurd (omega arith)
or_digits_fuel (suc n) zero (suc a) b p q = absurd (omega arith)
or_digits_fuel (suc n) (suc m) (suc a) b p q =
    omega (arith, or_digits_fuel n m (suc a / 2) (b / 2) (omega arith) (omega arith))

zero-bit_or : (b : ℕ) → bit_or 0 b ≡ b
zero-bit_or b = bit_or-bitwise 0 b

bit_or_step : (a b : ℕ) → bit_or a b ≡ bit_or (a / 2) (b / 2) * 2 + max (a % 2) (b % 2)
bit_or_step zero b = omega (arith, zero-bit_or b, zero-bit_or (b / 2))
bit_or_step (suc a) b = omega (
  arith,
  bit_or-bitwise (suc a) b,
  bit_or-bitwise (suc a / 2) (b / 2),
  or_digits_fuel a (suc a / 2) (suc a / 2) (b / 2) (omega arith) (omega arith),
)

bit_or-zero_fuel : (n a : ℕ) → a ≤ n → bit_or a 0 ≡ a
bit_or-zero_fuel n zero h = zero-bit_or 0
bit_or-zero_fuel zero (suc a) h = absurd (omega arith)
bit_or-zero_fuel (suc n) (suc a) h =
    omega (arith, bit_or_step (suc a) 0, bit_or-zero_fuel n (suc a / 2) (omega arith))

joined : (n b : ℕ) → bit_or n (b / 2) ≡ n + b / 2 → bit_or (n * 2) b ≡ n * 2 + b
joined n b h =
    let half : n * 2 / 2 ≡ n = omega arith in
    let high : bit_or (n * 2 / 2) (b / 2) ≡ n + b / 2 = rw half h in
    omega (arith, bit_or_step (n * 2) b, high)

-- `a << k | b`, where `b` fits below the shift.
pub bit_or-add : (k a b : ℕ) → b < 2 ^ k → bit_or (a * 2 ^ k) b ≡ a * 2 ^ k + b
bit_or-add zero a zero h = omega (arith, bit_or-zero_fuel (a * 1) (a * 1))
bit_or-add zero a (suc b) h = absurd (omega arith)
bit_or-add (suc k) a b h =
    let twice : a * 2 ^ suc k ≡ a * 2 ^ k * 2 =
      omega (arith, ap (λ (t : ℕ). a * t) (pow-suc 2 k)) in
    let half : b / 2 < 2 ^ k = omega (arith, pow-suc 2 k) in
    rw twice (joined (a * 2 ^ k) b (bit_or-add k a (b / 2) half))

-- Two functions that agree below a bound, checked at each number.
agree_below : (ℕ → ℕ) → (ℕ → ℕ) → ℕ → Bool
agree_below f g zero = true
agree_below f g (suc n) = (f n == g n) && agree_below f g n

agree_below-eq : (f g : ℕ → ℕ) (n : ℕ) → agree_below f g n ≡ true → (x : ℕ) → x < n → f x ≡ g x
unfolding agree_below
agree_below-eq f g zero h x lt = absurd (omega arith)
agree_below-eq f g (suc n) h x lt = ground (arith, agree_below-eq f g n (ground arith) x)

pub bit_and_127 : (b : ℕ) → b < 256 → bit_and b 0x7f ≡ b % 128
unfolding agree_below
bit_and_127 = agree_below-eq _ _ 256 refl

pub bit_and_128 : (b : ℕ) → b < 256 → bit_and b 0x80 ≡ b / 128 * 128
unfolding agree_below
bit_and_128 = agree_below-eq _ _ 256 refl

pub bit_and_15 : (b : ℕ) → b < 256 → bit_and b 0x0f ≡ b % 16
unfolding agree_below
bit_and_15 = agree_below-eq _ _ 256 refl

pub bit_and_3 : (b : ℕ) → b < 256 → bit_and b 0x03 ≡ b % 4
unfolding agree_below
bit_and_3 = agree_below-eq _ _ 256 refl

pub bit_or_128 : (b : ℕ) → b < 128 → bit_or b 0x80 ≡ b + 128
unfolding agree_below
bit_or_128 = agree_below-eq _ _ 128 refl
