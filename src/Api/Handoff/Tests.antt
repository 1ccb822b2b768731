-- ===== src/Api/Handoff/Tests.antt =====
-- Runs of the login codes, and the theorems at concrete inputs.
use wrtdeck.Api.Clock.{second}
use wrtdeck.Api.Handoff.{
  HandoffStore, new_handoff_store, drop_oldest_code, issue_code, match_code, redeem,
}
use wrtdeck.Api.Handoff.Codes.{IsValid, issued, run_codes}
use wrtdeck.Api.Handoff.Once.{redeem_once}
use wrtdeck.Prelude.{
  get, put, delete, keep, Text, nat_key, text_key, ne_of_text_eq, codes, ◌+◌, ◌*◌, ◌≡◌, refl, true,
  false, some, [], ◌∷◌, arith,
}

abbrev code_a : Text
code_a = codes "abcd"

abbrev one : HandoffStore
one = (code_a, 60 * second + 5) ∷ []

issue_run : issue_code 5 (some code_a) new_handoff_store ≡ (one, some (code_a, 60))
unfolding issue_code drop_oldest_code keep put
issue_run = refl

redeem_run :
    (redeem (60 * second) code_a one ≡ ([], true)) × (redeem (61 * second) code_a one ≡ ([], false))
unfolding redeem match_code keep delete
redeem_run = (refl, refl)

one-IsValid : IsValid one
unfolding get
one-IsValid = record {
  table = record { distinct = (refl, tt); named = ((λ e. cc), tt) };
  bounded = omega arith;
}

redeem_once_example :
    (redeem 9 code_a (run_codes (issued 8 (some (codes "efgh")) ∷ []) (redeem 7 code_a one).0)).1
    ≡ false
redeem_once_example =
    redeem_once 7 9 code_a (issued 8 (some (codes "efgh")) ∷ []) one one-IsValid ((λ e. cc), tt)
      (ne_of_text_eq _ _ refl, tt)
