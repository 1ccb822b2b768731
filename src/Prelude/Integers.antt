-- ===== src/Prelude/Integers.antt =====
-- Signed integers over the native numbers, under the library's names, and signed 64-bit durations by
-- their patterns.
use Prim.Native.Nat.{ℕ, ◌+◌, ◌-◌, ◌*◌, ◌%◌, ◌^◌}
use mathlib.Core.Bool.{Bool, true, false, not, ◌&&◌}
use wrtdeck.Prelude.Tests.{ltb, leb, ◌==◌}

pub data ℤ : Type 0 where
  pos : ℕ → ℤ
  negsuc : ℕ → ℤ

-- `max n 0`
abbrev pub nat_of : ℤ → ℕ
nat_of (pos n) = n
nat_of (negsuc n) = 0

abbrev pub is_positive : ℤ → Bool
is_positive (pos n) = ltb 0 n
is_positive (negsuc n) = false

abbrev pub is_negative : ℕ → Bool
is_negative d = leb (2 ^ 63) d

-- A product of durations.
abbrev pub mul_duration : ℕ → ℕ → ℕ
mul_duration a b = a * b % 2 ^ 64

-- `d > limit`, for a limit that is not negative.
abbrev pub exceeds : ℕ → ℕ → Bool
exceeds d limit = not (is_negative d) && ltb limit d

-- `a < b`
abbrev pub ltz : ℤ → ℤ → Bool
ltz (pos a) (pos b) = ltb a b
ltz (pos a) (negsuc b) = false
ltz (negsuc a) (pos b) = true
ltz (negsuc a) (negsuc b) = ltb b a

abbrev pub eqz : ℤ → ℤ → Bool
eqz (pos a) (pos b) = a == b
eqz (negsuc a) (negsuc b) = a == b
eqz _ _ = false

-- The pattern of a 64-bit `int`.
abbrev pub pattern_of : ℤ → ℕ
pattern_of (pos n) = n % 2 ^ 64
pattern_of (negsuc n) = (2 ^ 64 - 1) - n % 2 ^ 64

-- `a < b` on signed patterns.
abbrev pub less_signed : ℕ → ℕ → Bool
less_signed a b = ltb ((a + 2 ^ 63) % 2 ^ 64) ((b + 2 ^ 63) % 2 ^ 64)
