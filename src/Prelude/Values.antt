-- ===== src/Prelude/Values.antt =====
-- What the program reads from JSON: a value of the type `any`. A 64-bit float is its bit pattern.
use Prim.Native.Nat.{ℕ, ◌^◌, ◌%◌}
use mathlib.Core.Bool.{Bool, false, not, ◌&&◌}
use mathlib.Core.Option.{Option}
use wrtdeck.Prelude.Tests.{ltb, leb, ◌==◌, if◌then◌else◌}
use wrtdeck.Prelude.Keys.{Text, nat_key, text_key}
use wrtdeck.Prelude.Integers.{ℤ}

mutual
  pub data Value : Type 0 where
    null : Value
    string : Text → Value
    boolean : Bool → Value
    float : ℕ → Value
    int : ℤ → Value
    array : Items → Value
    object : Fields → Value

  pub data Items : Type 0 where
    no_items : Items
    item : Value → Items → Items

  pub data Fields : Type 0 where
    no_fields : Fields
    field : Text → Value → Fields → Fields

-- What `strconv`, `fmt` and `encoding/json` print of a value and read from a text.
pub record Printing : Type 0 where
  pub parse_float : Text → Option ℕ
  pub float_of : ℤ → ℕ
  pub format_float : ℕ → Text
  pub itoa : ℤ → Text
  pub atoi : Text → Option ℤ
  pub sprint : Value → Text
  pub marshal : Value → Text

-- What reading a file gives.
pub data Reading : Type 0 where
  not_exist unreadable : Reading
  contents : Text → Reading

-- The exponent is all ones and the fraction is not zero.
abbrev pub is_nan : ℕ → Bool
is_nan x = ltb 0x7ff0000000000000 (x % 2 ^ 63)

abbrev pub is_minus : ℕ → Bool
is_minus x = leb (2 ^ 63) x

-- `x < y` on floats, which is false of a NaN; the two zeros are equal.
unfoldable pub less_float : ℕ → ℕ → Bool
less_float x y =
    let a = x % 2 ^ 63 in
    let b = y % 2 ^ 63 in
    not (is_nan x)
    && not (is_nan y)
    && (if is_minus x
        then (if is_minus y then ltb b a else not (a == 0 && b == 0))
        else (if is_minus y then false else ltb a b))
