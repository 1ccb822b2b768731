-- ===== src/Gateway/Target.antt =====
-- The targets that the gateway forwards.
use wrtdeck.Prelude.{
  ◌==◌, if◌then◌else◌, is_empty, Text, text_eq, text_eq_iff, nat_key, text_key, ne_of_text_eq,
  codes, has_prefix, ◌≡◌, refl, sym, ap, ◌∙◌, ◌≢◌, ◌⊎◌, inl, inr, Bool, true, false, not, ◌&&◌,
  ◌||◌, [], ◌∷◌, ◌++◌, arith,
}
use wrtdeck.Gateway.{
  api_prefix, is_blocked_path, Environment, Refusal, no_path, not_api, denied, with_slash, is_api,
  target_checked, request_target,
}

-- A path of the API: its prefix alone, or the prefix with a slash and what is behind it.
abbrev pub IsUnder : Text → Type 0
IsUnder target = (target ≡ codes "/api/v1") ⊎ ((rest : Text) × (target ≡ codes "/api/v1/" ++ rest))

-- Its text is not the one of the path that issues login codes.
abbrev pub IsAllowed : Text → Type 0
IsAllowed target = IsUnder target × (target ≢ codes "/api/v1/session/handoff")

behind : (s prefix : Text) → has_prefix s prefix ≡ true → (rest : Text) × (s ≡ prefix ++ rest)
unfolding has_prefix
behind s [] h = (s, refl)
behind [] (c ∷ prefix) h = cc
behind (d ∷ s) (c ∷ prefix) h = by_first (d == c) refl (behind s prefix) h
  where
    by_first :
        (b : Bool)
        → (d == c) ≡ b
        → (has_prefix s prefix ≡ true → (rest : Text) × (s ≡ prefix ++ rest))
        → (b && has_prefix s prefix) ≡ true
        → (rest : Text) × (d ∷ s ≡ c ∷ prefix ++ rest)
    by_first false e later more = cc
    by_first true e later more =
        let (rest, found) = later more in let same : d ≡ c = ground arith in (rest, cc)

under : (target : Text) → is_api target ≡ true → IsUnder target
under target h =
    by_test (text_eq target api_prefix) (has_prefix target (api_prefix ++ codes "/")) refl refl h
  where
    by_test :
        (a b : Bool)
        → text_eq target api_prefix ≡ a
        → has_prefix target (api_prefix ++ codes "/") ≡ b
        → (a || b) ≡ true
        → IsUnder target
    by_test true b ea eb either = inl ((text_eq_iff target api_prefix).0 ea)
    by_test false true ea eb either = inr (behind target (api_prefix ++ codes "/") eb)
    by_test false false ea eb either = cc

not_blocked :
    (target : Text) → is_blocked_path target ≡ false → target ≢ codes "/api/v1/session/handoff"
unfolding is_blocked_path
not_blocked target h = ne_of_text_eq target (codes "/api/v1/session/handoff") h

two_tests :
    (a b : Bool) (x y : Refusal) {u t : Text}
    → (if not a then inl x else if b then inl y else inr u) ≡ inr t
    → (a ≡ true) × (b ≡ false) × (u ≡ t)
two_tests false b x y h = cc
two_tests true true x y h = cc
two_tests true false x y h = (refl, refl, cc)

target_checked_lem : (target t : Text) → target_checked target ≡ inr t → IsAllowed t
target_checked_lem target t h =
    let (api, free, e) =
      two_tests (is_api target) (is_blocked_path target) (not_api target) denied h in
    (under t (ap is_api (sym e) ∙ api), not_blocked t (ap is_blocked_path (sym e) ∙ free))

pub request_target_lem :
    (getenv : Environment) (t : Text) → request_target getenv ≡ inr t → IsAllowed t
unfolding request_target
request_target_lem getenv t h = one_test (is_empty _) _ h
  where
    one_test :
        (b : Bool) (target : Text)
        → (if b then inl no_path else target_checked (with_slash target)) ≡ inr t
        → IsAllowed t
    one_test true target e = cc
    one_test false target e = target_checked_lem (with_slash target) t e
