-- ===== src/Engine/Params.antt =====
-- internal/engine/params.go: the parameters of an action, checked against their declarations.
pub mod Conforming
pub mod Fitting
use wrtdeck.Prelude.{
  if◌then◌else◌, Dict, get, put, Text, text_eq, nat_key, text_key, has_text, codes, trim_space,
  lower_text, Value, null, string, boolean, float, int, array, object, Printing, less_float, ℕ, ◌⊎◌,
  inl, inr, Bool, true, false, not, Option, none, some, [], ◌∷◌,
}
use wrtdeck.Registry.Model.{param_number, param_boolean, param_select, ParamSpec, Entry}
use wrtdeck.Extract.{parse_bool}

pub data ParamError : Type 0 where
  missing_param not_number too_small too_large not_boolean not_option : Text → ParamError

-- `fmt.Sprint`, which leaves a string as it is.
unfoldable pub print_value : Printing → Value → Text
print_value printing (string t) = t
print_value printing (boolean b) = if b then codes "true" else codes "false"
print_value printing v = printing.sprint v

unfoldable pub to_number : Printing → Value → Option ℕ
unfolding print_value
to_number printing (float x) = some x
to_number printing (int n) = some (printing.float_of n)
to_number printing v = printing.parse_float (trim_space (print_value printing v))

unfoldable pub to_bool : Printing → Value → Option Bool
unfolding print_value parse_bool
to_bool printing (boolean b) = some b
to_bool printing v = parse_bool (lower_text (trim_space (print_value printing v)))

-- `spec.Min != nil && n < *spec.Min`, and the other bound.
abbrev pub is_below : ℕ → Option ℕ → Bool
is_below n none = false
is_below n (some low) = less_float n low

abbrev pub is_above : ℕ → Option ℕ → Bool
is_above n none = false
is_above n (some high) = less_float high n

abbrev pub number_in : Text → ParamSpec → Option ℕ → ParamError ⊎ Value
number_in name spec none = inl (not_number name)
number_in name spec (some n) =
    if is_below n spec.min_value
    then inl (too_small name)
    else if is_above n spec.max_value
    then inl (too_large name)
    else inr (float n)

abbrev pub boolean_of : Text → Option Bool → ParamError ⊎ Value
boolean_of name none = inl (not_boolean name)
boolean_of name (some b) = inr (boolean b)

unfoldable pub coerce : Printing → Text → ParamSpec → Value → ParamError ⊎ Value
unfolding to_number to_bool print_value has_text less_float
coerce printing name spec raw =
    if text_eq spec.type param_number
    then number_in name spec (to_number printing raw)
    else if text_eq spec.type param_boolean
    then boolean_of name (to_bool printing raw)
    else if text_eq spec.type param_select
    then (if has_text (print_value printing raw) spec.options
        then inr (string (print_value printing raw))
        else inl (not_option name))
    else inr (string (print_value printing raw))

abbrev pub is_null : Value → Bool
is_null null = true
is_null _ = false

-- `provided && raw != nil && raw != ""`
abbrev pub given : Option Value → Option Value
given (some (string (c ∷ t))) = some (string (c ∷ t))
given (some (boolean b)) = some (boolean b)
given (some (float x)) = some (float x)
given (some (int n)) = some (int n)
given (some (array vs)) = some (array vs)
given (some (object fs)) = some (object fs)
given _ = none

abbrev pub some_checked : ParamError ⊎ Value → ParamError ⊎ Option Value
some_checked (inl e) = inl e
some_checked (inr v) = inr (some v)

abbrev pub without_input : Text → ParamSpec → ParamError ⊎ Option Value
without_input name spec =
    if not (is_null spec.default)
    then inr (some spec.default)
    else if spec.required
    then inl (missing_param name)
    else inr none

abbrev pub given_value : Printing → Text → ParamSpec → Option Value → ParamError ⊎ Option Value
given_value printing name spec none = without_input name spec
given_value printing name spec (some v) = some_checked (coerce printing name spec v)

-- What one declaration makes of the input: an error, no value or a value.
unfoldable pub param_value : Printing → Text → ParamSpec → Option Value → ParamError ⊎ Option Value
unfolding coerce
param_value printing name spec raw = given_value printing name spec (given raw)

abbrev pub put_some : Text → Option Value → Dict Text Value → Dict Text Value
put_some name none out = out
put_some name (some v) out = put name v out

infixl 5 ◌>>=◌
abbrev pub ◌>>=◌ {ℓ κ} :
    {A : Type ℓ} {B : Type κ} → ParamError ⊎ A → (A → ParamError ⊎ B) → ParamError ⊎ B
inl e >>= f = inl e
inr a >>= f = f a

-- The loop over the declarations, with the parameters that it has checked.
unfoldable pub params_loop :
    Printing
    → Dict Text Value
    → Dict Text ParamSpec
    → Dict Text Value
    → ParamError ⊎ Dict Text Value
unfolding param_value
params_loop printing params [] out = inr out
params_loop printing params ((name, spec) ∷ specs) out =
    param_value printing name spec (get name params)
    >>= (λ v. params_loop printing params specs (put_some name v out))

unfoldable pub validate_input : Printing → Entry → Dict Text Value → ParamError ⊎ Dict Text Value
unfolding params_loop
validate_input printing entry params = params_loop printing params entry.params []
