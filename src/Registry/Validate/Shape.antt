-- ===== src/Registry/Validate/Shape.antt =====
-- The parts of an entry that pass their checks are legal.

use wrtdeck.Prelude.{
  leb, ◌==◌, if◌then◌else◌, ==_iff, length, is_empty, Dict, AtMost-less_float, Text, text_eq,
  text_eq_iff, nat_key, text_key, codes, ℕ, ◌≡◌, refl, ap, ◌≢◌, ◌⊎◌, inl, inr, Bool, true, false,
  not, ◌&&◌, ◌||◌, Option, none, some, List, [], ◌∷◌, arith,
}
use wrtdeck.Registry.Model.{
  param_string, param_number, param_boolean, param_select, param_secret, extract_raw, extract_json,
  extract_regex, ParamSpec, is_blank, ExtractSpec,
}
use wrtdeck.Registry.Problem.{
  Problem, bad_range, no_options, bad_param_type, no_path, bad_pattern, bad_extract, Checked, ok,
  err, ◌>>=◌, check,
}
use wrtdeck.Registry.Validate.{
  is_id_head, is_id_char, all_chars, is_id, is_inverted, validate_param, validate_params,
  check_value_type, check_extract_type, validate_extract,
}
use wrtdeck.Registry.Validate.Legal.{
  Every, IsHead, IsTail, LegalId, InOrder, LegalParam, LegalParams, LegalExtract,
}

pub ok_inj {ℓ} : {A : Type ℓ} {a b : A} → ok a ≡ ok b → a ≡ b
ok_inj h = cc

pub check_lem : (b : Bool) (e : Problem) {u : Unit {0}} → check b e ≡ ok u → b ≡ true
check_lem true e h = refl
check_lem false e h = cc

-- What a chain that succeeds went through.
pub bind-ok {ℓ κ} :
    {A : Type ℓ} {B : Type κ} {last : B} (first : Checked A) (next : A → Checked B)
    → first >>= next ≡ ok last
    → (mid : A) × (first ≡ ok mid) × (next mid ≡ ok last)
bind-ok (ok mid) next h = (mid, refl, h)
bind-ok (err e) next h = cc

and_both : (a b : Bool) → (a && b) ≡ true → (a ≡ true) × (b ≡ true)
and_both true b h = (refl, h)
and_both false b h = cc

pub or_either : (a b : Bool) → (a || b) ≡ true → (a ≡ true) ⊎ (b ≡ true)
or_either true b h = inl refl
or_either false b h = inr h

pub not-true : (b : Bool) → not b ≡ true → b ≡ false
not-true true h = cc
not-true false h = refl

head_lem : (c : ℕ) → is_id_head c ≡ true → IsHead c
head_lem c h = elim (or_either (leb b'a' c && leb c b'z') (leb b'0' c && leb c b'9') h) [
  | inl letter ↦
      let (low, high) = and_both (leb b'a' c) (leb c b'z') letter in
      inl (ground arith, ground arith)
  | inr digit ↦
      let (low, high) = and_both (leb b'0' c) (leb c b'9') digit in inr (ground arith, ground arith)
]

tail_lem : (c : ℕ) → is_id_char c ≡ true → IsTail c
tail_lem c h = elim (or_either (is_id_head c || c == b'_') (c == b'-') h) [
  | inl before ↦ elim (or_either (is_id_head c) (c == b'_') before) [
    | inl head ↦ inl (head_lem c head)
    | inr same ↦ inr (inl ((==_iff c b'_').0 same))
  ]
  | inr same ↦ inr (inr ((==_iff c b'-').0 same))
]

tails_lem : (s : Text) → all_chars is_id_char s ≡ true → Every IsTail s
unfolding all_chars
tails_lem [] h = tt
tails_lem (c ∷ s) h =
    let (one, rest) = and_both (is_id_char c) (all_chars is_id_char s) h in
    (tail_lem c one, tails_lem s rest)

pub LegalId-is_id : (id : Text) → is_id id ≡ true → LegalId id
unfolding is_id
LegalId-is_id [] h = cc
LegalId-is_id (c ∷ s) h =
    let (chars, short) = and_both (is_id_head c && all_chars is_id_char s) (leb (length s) 63) h in
    let (head, tails) = and_both (is_id_head c) (all_chars is_id_char s) chars in
    (c, s, refl, head_lem c head, tails_lem s tails, ground arith)

in_order : (low high : Option ℕ) → is_inverted low high ≡ false → InOrder low high
in_order none high h = tt
in_order (some low) none h = tt
in_order (some low) (some high) h = AtMost-less_float high low h

pub not_empty {ℓ} : {A : Type ℓ} (ts : List A) → is_empty ts ≡ false → ts ≢ []
not_empty ts h e = let empty : is_empty ts ≡ true = ap is_empty e in cc

param_lem :
    (name : Text) (p : ParamSpec) {u : Unit {0}} → validate_param name p ≡ ok u → LegalParam p
unfolding validate_param
param_lem name p h =
    by_type (text_eq p.type param_string) (text_eq p.type param_secret)
      (text_eq p.type param_number) (text_eq p.type param_boolean) (text_eq p.type param_select)
      refl refl refl refl refl h
  where
    by_type :
        (a b c d e : Bool) {u : Unit {0}}
        → text_eq p.type param_string ≡ a
        → text_eq p.type param_secret ≡ b
        → text_eq p.type param_number ≡ c
        → text_eq p.type param_boolean ≡ d
        → text_eq p.type param_select ≡ e
        → (if a || b
            then ok tt
            else if c
            then check (not (is_inverted p.min_value p.max_value)) (bad_range name)
            else if d
            then ok tt
            else if e
            then check (not (is_empty p.options)) (no_options name)
            else err (bad_param_type name))
          ≡ ok u
        → LegalParam p
    by_type true b c d e ea eb ec ed ee r = inl ((text_eq_iff p.type param_string).0 ea)
    by_type false true c d e ea eb ec ed ee r = inr (inl ((text_eq_iff p.type param_secret).0 eb))
    by_type false false true d e ea eb ec ed ee r =
        let ordered = not-true (is_inverted p.min_value p.max_value) (check_lem _ _ r) in
        inr (
          inr (
            inr (
              inl (
                (text_eq_iff p.type param_number).0 ec,
                in_order p.min_value p.max_value ordered,
              ))))
    by_type false false false true e ea eb ec ed ee r =
        inr (inr (inl ((text_eq_iff p.type param_boolean).0 ed)))
    by_type false false false false true ea eb ec ed ee r =
        let filled = not-true (is_empty p.options) (check_lem _ _ r) in
        inr (inr (inr (inr ((text_eq_iff p.type param_select).0 ee, not_empty p.options filled))))
    by_type false false false false false ea eb ec ed ee r = cc

pub LegalParams-validate_params :
    (m : Dict Text ParamSpec) {u : Unit {0}} → validate_params m ≡ ok u → LegalParams m
unfolding validate_params
LegalParams-validate_params [] h = tt
LegalParams-validate_params ((name, p) ∷ m) h =
    let (u, one, rest) = bind-ok (validate_param name p) (λ _. validate_params m) h in
    (param_lem name p one, LegalParams-validate_params m rest)

pub empty_lem : (t : Text) → is_empty t ≡ true → t ≡ []
empty_lem [] h = refl
empty_lem (c ∷ t) h = cc

rule_lem :
    (compiles : Text → Bool) (x : ExtractSpec) {u : Unit {0}}
    → check_extract_type compiles x ≡ ok u
    → (x.type ≡ codes "raw")
      ⊎ (x.type ≡ [])
      ⊎ ((x.type ≡ codes "json") × (is_blank x.path ≡ false))
      ⊎ ((x.type ≡ codes "regex") × (compiles x.pattern ≡ true))
rule_lem compiles x h =
    by_type (text_eq x.type extract_raw) (is_empty x.type) (text_eq x.type extract_json)
      (text_eq x.type extract_regex) refl refl refl refl h
  where
    by_type :
        (a b c d : Bool) {u : Unit {0}}
        → text_eq x.type extract_raw ≡ a
        → is_empty x.type ≡ b
        → text_eq x.type extract_json ≡ c
        → text_eq x.type extract_regex ≡ d
        → (if a || b
            then ok tt
            else if c
            then check (not (is_blank x.path)) no_path
            else if d
            then check (compiles x.pattern) bad_pattern
            else err bad_extract)
          ≡ ok u
        → (x.type ≡ codes "raw")
          ⊎ (x.type ≡ [])
          ⊎ ((x.type ≡ codes "json") × (is_blank x.path ≡ false))
          ⊎ ((x.type ≡ codes "regex") × (compiles x.pattern ≡ true))
    by_type true b c d ea eb ec ed r = inl ((text_eq_iff x.type extract_raw).0 ea)
    by_type false true c d ea eb ec ed r = inr (inl (empty_lem x.type eb))
    by_type false false true d ea eb ec ed r = inr (
        inr (
          inl
            ((text_eq_iff x.type extract_json).0 ec, not-true (is_blank x.path) (check_lem _ _ r))))
    by_type false false false true ea eb ec ed r =
        inr (inr (inr ((text_eq_iff x.type extract_regex).0 ed, check_lem _ _ r)))
    by_type false false false false ea eb ec ed r = cc

value_lem :
    (v : Text) {u : Unit {0}}
    → check_value_type v ≡ ok u
    → (v ≡ []) ⊎ (v ≡ codes "string") ⊎ (v ≡ codes "number") ⊎ (v ≡ codes "boolean")
value_lem v h =
    elim (or_either (is_empty v || text_eq v param_string || text_eq v param_number)
      (text_eq v param_boolean) (check_lem _ _ h)) [
        | inr e ↦ inr (inr (inr ((text_eq_iff v param_boolean).0 e)))
        | inl h1 ↦
            elim (or_either (is_empty v || text_eq v param_string) (text_eq v param_number) h1) [
              | inr e ↦ inr (inr (inl ((text_eq_iff v param_number).0 e)))
              | inl h2 ↦ elim (or_either (is_empty v) (text_eq v param_string) h2) [
                | inr e ↦ inr (inl ((text_eq_iff v param_string).0 e))
                | inl e ↦ inl (empty_lem v e)
              ]
            ]
      ]

pub LegalExtract-validate_extract :
    (compiles : Text → Bool) (x : ExtractSpec) {u : Unit {0}}
    → validate_extract compiles x ≡ ok u
    → LegalExtract compiles x
unfolding validate_extract
LegalExtract-validate_extract compiles x h =
    let (u, rule, value) =
      bind-ok (check_extract_type compiles x) (λ _. check_value_type x.value_type) h in
    (rule_lem compiles x rule, value_lem x.value_type value)
