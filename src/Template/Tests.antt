-- ===== src/Template/Tests.antt =====
-- Templates at concrete inputs.

use mathlib.Core.Path.{subst}
use wrtdeck.Prelude.{
  if◌then◌else◌, is_some, get, Text, text_eq, text_eq_iff, nat_key, text_key, has_text, sort_by,
  codes, trim_space, split, contains, has_infix, string, Printing, ℕ, ◌≡◌, refl, ap, ◌∙◌, Bool,
  true, false, none, some, List, [], ◌∷◌, ◌++◌, arith,
}
use wrtdeck.Template.Render.{Scope, lookup_variable, missing, render}
use wrtdeck.Template.Refs.{key_of, check_refs}
use wrtdeck.Template.Declared.{is_missing, Provides, render-check_refs}

abbrev terse : Printing
terse = record {
  parse_float = λ t. none;
  float_of = λ n. 0;
  format_float = λ x. [];
  itoa = λ n. [];
  atoi = λ t. none;
  sprint = λ v. [];
  marshal = λ v. [];
}

abbrev level_known : Scope
level_known = record { params = (codes "l", string (codes "a b")) ∷ []; secrets = [] }

rendered_level : render terse (codes "v=${ params.l|url }") level_known ≡ (codes "v=a+b", none)
unfolding render has_infix get split trim_space
rendered_level = refl

missing_level :
    render terse (codes "v=${params.m}") level_known
    ≡ (codes "v=", some (missing (codes "params") (codes "m")))
unfolding render has_infix get
missing_level = refl

abbrev level_name : List Text
level_name = codes "params.l" ∷ []

level_declared : check_refs (codes "v=${params.l}") level_name ≡ none
unfolding check_refs sort_by has_text
level_declared = refl

cons_inj : (c d : ℕ) (s t : Text) → c ∷ s ≡ d ∷ t → (c ≡ d) × (s ≡ t)
cons_inj c d s t h = (cc, cc)

contains-append : (x : ℕ) (s t : Text) → contains x (s ++ x ∷ t) ≡ true
unfolding contains
contains-append x [] t = ground arith
contains-append x (c ∷ s) t = ground (arith, contains-append x s t)

contains_head : (x : ℕ) (s : Text) → contains x (x ∷ s) ≡ true
unfolding contains
contains_head x s = ground arith

contains_tail : (x c : ℕ) (s : Text) → contains x (c ∷ s) ≡ false → contains x s ≡ false
unfolding contains
contains_tail x c s h = ground arith

true_false : {A : Type 0} {b : Bool} → b ≡ true → b ≡ false → A
true_false h k = cc

-- A text with one separator is split in one way.
one_split :
    (x : ℕ) (p q ns name : Text)
    → contains x p ≡ false
    → contains x q ≡ false
    → p ++ x ∷ q ≡ ns ++ x ∷ name
    → (p ≡ ns) × (q ≡ name)
one_split x [] q [] name hp hq h = (refl, (cons_inj x x q name h).1)
one_split x [] q (d ∷ ns) name hp hq h =
    true_false (ap (contains x) ((cons_inj x d q (ns ++ x ∷ name) h).1) ∙ contains-append x ns name)
      hq
one_split x (c ∷ p) q [] name hp hq h =
    true_false
      (ap (λ (y : ℕ). contains x (y ∷ p)) ((cons_inj c x (p ++ x ∷ q) name h).0)
        ∙ contains_head x p)
      hp
one_split x (c ∷ p) q (d ∷ ns) name hp hq h =
    let (first, rest) = cons_inj c d (p ++ x ∷ q) (ns ++ x ∷ name) h in
    let (front, back) = one_split x p q ns name (contains_tail x c p hp) hq rest in
    (ap (◌∷ p) first ∙ ap (d ∷◌) front, back)

declared_key : (k : Text) → has_text k level_name ≡ true → codes "params.l" ≡ k
unfolding has_text
declared_key k h = by_test (text_eq (codes "params.l") k) refl h
  where
    by_test :
        (b : Bool)
        → text_eq (codes "params.l") k ≡ b
        → (if b then true else false) ≡ true
        → codes "params.l" ≡ k
    by_test true same e = (text_eq_iff (codes "params.l") k).0 same
    by_test false other e = cc

level_found : is_some (lookup_variable (codes "params") (codes "l") level_known) ≡ true
unfolding lookup_variable get
level_found = refl

level_provided : Provides terse level_known level_name
unfolding contains
level_provided r h =
    let (space, name) =
      one_split b'.' (codes "params") (codes "l") r.namespace r.name refl refl
        (declared_key (key_of r) h) in
    subst (λ (n : Text). is_some (lookup_variable r.namespace n level_known) ≡ true) name
      (subst (λ (n : Text). is_some (lookup_variable n (codes "l") level_known) ≡ true) space
        level_found)

render-check_refs_example : is_missing (render terse (codes "v=${params.l}") level_known).1 ≡ false
render-check_refs_example =
    render-check_refs terse level_known level_name (codes "v=${params.l}") level_declared
      level_provided
