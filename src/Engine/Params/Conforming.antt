-- ===== src/Engine/Params/Conforming.antt =====
-- What the conversion of one parameter accepts.
use wrtdeck.Prelude.{
  if◌then◌else◌, AtMost, AtMost-less_float, Text, text_eq, text_eq_iff, nat_key, text_key,
  ne_of_text_eq, has_text, codes, Value, string, boolean, float, Printing, ℕ, ◌≡◌, refl, sym, ◌≢◌,
  ◌⊎◌, inl, inr, Bool, true, false, Option, none, some,
}
use wrtdeck.Registry.Model.{param_number, param_boolean, param_select, ParamSpec}
use wrtdeck.Engine.Params.{
  too_small, too_large, not_option, print_value, to_number, to_bool, is_below, is_above, number_in,
  boolean_of, coerce,
}

-- A bound that is given holds, unless one of the two is no number (NaN).
abbrev pub IsNotBelow : Option ℕ → ℕ → Type 0
IsNotBelow none n = Unit
IsNotBelow (some low) n = AtMost low n

abbrev pub IsNotAbove : Option ℕ → ℕ → Type 0
IsNotAbove none n = Unit
IsNotAbove (some high) n = AtMost n high

abbrev pub IsInRange : ParamSpec → Value → Type 0
IsInRange spec v =
    (n : ℕ) × (v ≡ float n) × IsNotBelow spec.min_value n × IsNotAbove spec.max_value n

abbrev pub IsBoolean : Value → Type 0
IsBoolean v = (b : Bool) × (v ≡ boolean b)

abbrev pub IsOption : ParamSpec → Value → Type 0
IsOption spec v = (t : Text) × (v ≡ string t) × (has_text t spec.options ≡ true)

abbrev pub IsString : Value → Type 0
IsString v = (t : Text) × (v ≡ string t)

-- A value that a declaration allows: what it is goes by the type of the declaration.
abbrev pub Conforms : ParamSpec → Value → Type 0
Conforms spec v =
    ((spec.type ≡ codes "number") × IsInRange spec v)
    ⊎ ((spec.type ≡ codes "boolean") × IsBoolean v)
    ⊎ ((spec.type ≡ codes "select") × IsOption spec v)
    ⊎ ((spec.type ≢ codes "number")
        × (spec.type ≢ codes "boolean")
        × (spec.type ≢ codes "select")
        × IsString v)

-- Where there is no value, none is required; a value is the default or one that is allowed.
abbrev pub Fits : ParamSpec → Option Value → Type 0
Fits spec none = spec.required ≡ false
Fits spec (some v) = (v ≡ spec.default) ⊎ Conforms spec v

pub inl-inr {ℓ κ} : {A : Type ℓ} {B : Type κ} {a : A} {b : B} → ◌≡◌ {A = A ⊎ B} (inl a) (inr b) → ⊥
inl-inr h = cc

pub inr_inj {ℓ κ} : {A : Type ℓ} {B : Type κ} {a b : B} → ◌≡◌ {A = A ⊎ B} (inr a) (inr b) → a ≡ b
inr_inj h = cc

not_below : (n : ℕ) (o : Option ℕ) → is_below n o ≡ false → IsNotBelow o n
not_below n none h = tt
not_below n (some low) h = AtMost-less_float n low h

not_above : (n : ℕ) (o : Option ℕ) → is_above n o ≡ false → IsNotAbove o n
not_above n none h = tt
not_above n (some high) h = AtMost-less_float high n h

number_in_lem :
    (name : Text) (spec : ParamSpec) (o : Option ℕ) (v : Value)
    → number_in name spec o ≡ inr v
    → IsInRange spec v
number_in_lem name spec none v h = absurd (inl-inr h)
number_in_lem name spec (some n) v h =
    by_bounds (is_below n spec.min_value) (is_above n spec.max_value) refl refl h
  where
    by_bounds :
        (a b : Bool)
        → is_below n spec.min_value ≡ a
        → is_above n spec.max_value ≡ b
        → (if a then inl (too_small name) else if b then inl (too_large name) else inr (float n))
          ≡ inr v
        → IsInRange spec v
    by_bounds true b ea eb r = absurd (inl-inr r)
    by_bounds false true ea eb r = absurd (inl-inr r)
    by_bounds false false ea eb r =
        (n, sym (inr_inj r), not_below n spec.min_value ea, not_above n spec.max_value eb)

boolean_of_lem :
    (name : Text) (o : Option Bool) (v : Value) → boolean_of name o ≡ inr v → IsBoolean v
boolean_of_lem name none v h = absurd (inl-inr h)
boolean_of_lem name (some b) v h = (b, sym (inr_inj h))

option_lem :
    (name : Text) (spec : ParamSpec) (t : Text) (v : Value)
    → (if has_text t spec.options then inr (string t) else inl (not_option name)) ≡ inr v
    → IsOption spec v
option_lem name spec t v h = by_option (has_text t spec.options) refl h
  where
    by_option :
        (b : Bool)
        → has_text t spec.options ≡ b
        → (if b then inr (string t) else inl (not_option name)) ≡ inr v
        → IsOption spec v
    by_option false e r = absurd (inl-inr r)
    by_option true e r = (t, sym (inr_inj r), e)

pub coerce_lem :
    (printing : Printing) (name : Text) (spec : ParamSpec) (raw v : Value)
    → coerce printing name spec raw ≡ inr v
    → Conforms spec v
unfolding coerce
coerce_lem printing name spec raw v h =
    by_type (text_eq spec.type param_number) (text_eq spec.type param_boolean)
      (text_eq spec.type param_select) refl refl refl h
  where
    shown : Text
    shown = print_value printing raw

    by_type :
        (a b c : Bool)
        → text_eq spec.type param_number ≡ a
        → text_eq spec.type param_boolean ≡ b
        → text_eq spec.type param_select ≡ c
        → (if a
            then number_in name spec (to_number printing raw)
            else if b
            then boolean_of name (to_bool printing raw)
            else if c
            then (if has_text shown spec.options then inr (string shown) else inl (not_option name))
            else inr (string shown))
          ≡ inr v
        → Conforms spec v
    by_type true b c ea eb ec r = inl (
      (text_eq_iff spec.type param_number).0 ea,
      number_in_lem name spec (to_number printing raw) v r,
    )
    by_type false true c ea eb ec r = inr (
        inl (
          (text_eq_iff spec.type param_boolean).0 eb,
          boolean_of_lem name (to_bool printing raw) v r,
        ))
    by_type false false true ea eb ec r =
        inr (inr (inl ((text_eq_iff spec.type param_select).0 ec, option_lem name spec shown v r)))
    by_type false false false ea eb ec r = inr (
        inr (
          inr (
            ne_of_text_eq spec.type param_number ea,
            ne_of_text_eq spec.type param_boolean eb,
            ne_of_text_eq spec.type param_select ec,
            (shown, sym (inr_inj r)),
          )))
