-- ===== src/Prelude/Floats.antt =====
-- The order of floats by their patterns, as an order of numbers.
use Prim.Native.Nat.{ℕ, ◌+◌, ◌-◌, ◌%◌, ◌^◌, ◌≤◌}
use mathlib.Core.Path.{◌≡◌, refl}
use mathlib.Core.Bool.{Bool, true, false, not, ◌&&◌}
use mathlib.Core.Logic.{◌⊎◌, inl, inr}
use native.Mathlib.Omega.{arith}
use wrtdeck.Prelude.Tests.{ltb, ◌==◌, if◌then◌else◌}
use wrtdeck.Prelude.Values.{is_nan, is_minus, less_float}

-- A number that grows with the float: both zeros are in the middle.
abbrev pub signed_key : Bool → ℕ → ℕ
signed_key true a = 2 ^ 63 - a
signed_key false a = 2 ^ 63 + a

abbrev pub float_key : ℕ → ℕ
float_key x = signed_key (is_minus x) (x % 2 ^ 63)

-- One float is no greater than another, unless one of them is no number.
abbrev pub AtMost : ℕ → ℕ → Type 0
AtMost x y = (is_nan x ≡ true) ⊎ (is_nan y ≡ true) ⊎ (float_key x ≤ float_key y)

ordered :
    (nx ny mx my : Bool) (a b : ℕ)
    → (not nx
        && not ny
        && (if mx
            then (if my then ltb b a else not (a == 0 && b == 0))
            else (if my then false else ltb a b)))
      ≡ false
    → (ny ≡ true) ⊎ (nx ≡ true) ⊎ (signed_key my b ≤ signed_key mx a)
ordered true ny mx my a b h = inr (inl refl)
ordered false true mx my a b h = inl refl
ordered false false true true a b h = inr (inr (ground arith))
ordered false false true false a b h = inr (inr (ground arith))
ordered false false false true a b h = inr (inr (omega arith))
ordered false false false false a b h = inr (inr (ground arith))

pub AtMost-less_float : (x y : ℕ) → less_float x y ≡ false → AtMost y x
unfolding less_float
AtMost-less_float x y h =
    ordered (is_nan x) (is_nan y) (is_minus x) (is_minus y) (x % 2 ^ 63) (y % 2 ^ 63) h
