-- ===== src/Engine/Params/Fitting.antt =====
-- The parameters that an action runs with fit their declarations.
use mathlib.Core.Path.{subst}
use wrtdeck.Prelude.{
  if◌then◌else◌, get-put, Dict, get, IsDistinct, Text, text_eq, text_eq_iff, nat_key, text_key,
  text_eq_refl, Value, Printing, ◌≡◌, refl, sym, ap, ◌∙◌, ◌⊎◌, inl, inr, Bool, true, false, not,
  Option, none, some, [], ◌∷◌,
}
use wrtdeck.Registry.Model.{ParamSpec, Entry}
use wrtdeck.Engine.Params.{
  ParamError, missing_param, coerce, is_null, given, some_checked, without_input, given_value,
  param_value, put_some, ◌>>=◌, params_loop, validate_input,
}
use wrtdeck.Engine.Params.Conforming.{Fits, inl-inr, inr_inj, coerce_lem}

without_input_lem :
    (name : Text) (spec : ParamSpec) (o : Option Value)
    → without_input name spec ≡ inr o
    → Fits spec o
without_input_lem name spec o h = by_default (not (is_null spec.default)) spec.required refl h
  where
    by_default :
        (b c : Bool)
        → spec.required ≡ c
        → (if b then inr (some spec.default) else if c then inl (missing_param name) else inr none)
          ≡ inr o
        → Fits spec o
    by_default true c e r = subst (Fits spec) (inr_inj r) (inl refl)
    by_default false true e r = absurd (inl-inr r)
    by_default false false e r = subst (Fits spec) (inr_inj r) e

some_checked_lem :
    (m : ParamError ⊎ Value) (o : Option Value)
    → some_checked m ≡ inr o
    → (v : Value) × (m ≡ inr v) × (some v ≡ o)
some_checked_lem (inl e) o h = absurd (inl-inr h)
some_checked_lem (inr v) o h = (v, refl, inr_inj h)

param_value_lem :
    (printing : Printing) (name : Text) (spec : ParamSpec) (raw o : Option Value)
    → param_value printing name spec raw ≡ inr o
    → Fits spec o
unfolding param_value
param_value_lem printing name spec raw o h = by_given (given raw) h
  where
    by_given : (r : Option Value) → given_value printing name spec r ≡ inr o → Fits spec o
    by_given none e = without_input_lem name spec o e
    by_given (some v) e =
        let (w, made, same) = some_checked_lem (coerce printing name spec v) o e in
        subst (Fits spec) same (inr (coerce_lem printing name spec v w made))

bind-inr {ℓ κ} :
    {A : Type ℓ} {B : Type κ} {last : B} (first : ParamError ⊎ A) (next : A → ParamError ⊎ B)
    → first >>= next ≡ inr last
    → (mid : A) × (first ≡ inr mid) × (next mid ≡ inr last)
bind-inr (inl e) next h = absurd (inl-inr h)
bind-inr (inr mid) next h = (mid, refl, h)

get-put_some :
    (name other : Text) (o : Option Value) (out : Dict Text Value)
    → text_eq name other ≡ false
    → get other (put_some name o out) ≡ get other out
get-put_some name other none out apart = refl
get-put_some name other (some v) out apart =
    get-put other name v out ∙ ap (λ (b : Bool). if b then some v else get other out) apart

get-put_some_same :
    (name : Text) (o : Option Value) (out : Dict Text Value)
    → get name out ≡ none
    → get name (put_some name o out) ≡ o
get-put_some_same name none out free = free
get-put_some_same name (some v) out free =
    get-put name name v out
    ∙ ap (λ (b : Bool). if b then some v else get name out) (text_eq_refl name)

both_absent :
    (b : Bool) (spec : ParamSpec) (o : Option ParamSpec)
    → (if b then some spec else o) ≡ none
    → (b ≡ false) × (o ≡ none)
both_absent true spec o h = cc
both_absent false spec o h = (refl, h)

declared :
    (b : Bool) (first spec : ParamSpec) (o : Option ParamSpec)
    → (if b then some first else o) ≡ some spec
    → ((b ≡ true) × (first ≡ spec)) ⊎ ((b ≡ false) × (o ≡ some spec))
declared true first spec o h = inl (refl, cc)
declared false first spec o h = inr (refl, h)

-- A name that is not declared gets no value.
get-params_loop :
    (printing : Printing) (params : Dict Text Value) (specs : Dict Text ParamSpec)
    (out last : Dict Text Value) (name : Text)
    → params_loop printing params specs out ≡ inr last
    → get name specs ≡ none
    → get name last ≡ get name out
unfolding params_loop get
get-params_loop printing params [] out last name h absent = ap (get name) (sym (inr_inj h))
get-params_loop printing params ((k, spec) ∷ specs) out last name h absent =
    let next : Option Value → ParamError ⊎ Dict Text Value =
      λ v. params_loop printing params specs (put_some k v out) in
    let (v, made, rest) = bind-inr (param_value printing k spec (get k params)) next h in
    let (apart, later) = both_absent (text_eq k name) spec (get name specs) absent in
    get-params_loop printing params specs (put_some k v out) last name rest later
    ∙ get-put_some k name v out apart

params_loop_lem :
    (printing : Printing) (params : Dict Text Value) (specs : Dict Text ParamSpec)
    (out last : Dict Text Value) (name : Text) (spec : ParamSpec)
    → IsDistinct specs
    → params_loop printing params specs out ≡ inr last
    → get name specs ≡ some spec
    → get name out ≡ none
    → Fits spec (get name last)
unfolding params_loop get
params_loop_lem printing params [] out last name spec v h found free = cc
params_loop_lem printing params ((k, first) ∷ specs) out last name spec v h found free =
    let next : Option Value → ParamError ⊎ Dict Text Value =
      λ o. params_loop printing params specs (put_some k o out) in
    let (o, made, rest) = bind-inr (param_value printing k first (get k params)) next h in
    elim (declared (text_eq k name) first spec (get name specs) found) [
      | inl (same, one) ↦
          let at = (text_eq_iff k name).0 same in
          let last_is : get name last ≡ o =
            get-params_loop printing params specs (put_some k o out) last name rest
              (subst (λ (j : Text). get j specs ≡ none) at v.0)
            ∙ subst (λ (j : Text). get j (put_some k o out) ≡ o) at
                (get-put_some_same k o out
                  (subst (λ (j : Text). get j out ≡ none) (sym at) free)) in
          subst (λ (r : Option Value). Fits spec r) (sym last_is)
            (subst (λ (d : ParamSpec). Fits d o) one
              (param_value_lem printing k first (get k params) o made))
      | inr (other, later) ↦
          params_loop_lem printing params specs (put_some k o out) last name spec v.1 rest later
            (get-put_some k name o out other ∙ free)
    ]

-- Where the parameters of an action are accepted, each one that is declared, with distinct names,
-- has as its value the default or one that its declaration allows, and none only where none is
-- required. By the type of the declaration that is a number that is no less than the least and no
-- greater than the greatest, where these are given, unless it or the bound is not a number (NaN); a
-- Boolean; one of the options; or, for any other type, a text.
pub validate_input-Fits :
    (printing : Printing) (entry : Entry) (params out : Dict Text Value) (name : Text)
    (spec : ParamSpec)
    → IsDistinct entry.params
    → validate_input printing entry params ≡ inr out
    → get name entry.params ≡ some spec
    → Fits spec (get name out)
unfolding validate_input get
validate_input-Fits printing entry params out name spec v h found =
    params_loop_lem printing params entry.params [] out name spec v h found refl
