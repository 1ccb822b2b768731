-- ===== src/Api/Handoff/Once.antt =====
-- How long a login code is taken, and that it is taken once.

use wrtdeck.Api.Handoff.{
  handoff_ttl, HandoffStore, is_current, drop_oldest_code, bound_codes, issue_code, match_code,
  redeem,
}
use wrtdeck.Api.Handoff.Codes.{
  IsValid, redeem-true, get-redeem, redeem-IsValid, issue_code-IsValid, Call, issued, redeemed,
  apply, Named, run_codes, run_codes-IsValid,
}
use wrtdeck.Prelude.{
  leb, get-put, get-delete, get-keep-none, get-drop_oldest-none, All, get, keep, Text, text_eq_iff,
  nat_key, text_key, text_eq_refl, ℕ, ◌+◌, ◌≡◌, refl, ◌∙◌, ◌≢◌, false, none, some, List, [], ◌∷◌,
  arith,
}

-- A fresh code that is not empty, issued by a well-formed table, is redeemed up to 60 seconds after
-- its issue, and not later.
pub redeem-issue :
    (now later : ℕ) (code : Text) (items : HandoffStore)
    → IsValid items
    → code ≢ []
    → (redeem later code (issue_code now (some code) items).0).1 ≡ leb later (now + handoff_ttl)
redeem-issue now later code items v named =
    redeem-true later code _ (issue_code-IsValid now code items named v)
    ∙ unfold issue_code in
      rw
        (
          get-put code code (now + handoff_ttl) (bound_codes (keep (is_current now) items)),
          text_eq_refl code,
        )
        (ground arith)

-- A call that does not issue the code.
abbrev pub NotIssued : Text → Call → Type 0
NotIssued code (issued now (some fresh)) = fresh ≢ code
NotIssued code _ = Unit

get-none-apply :
    (code : Text) (call : Call) (items : HandoffStore)
    → NotIssued code call
    → get code items ≡ none
    → get code (apply call items) ≡ none
unfolding apply
get-none-apply code (issued now none) items other h = unfold issue_code in h
get-none-apply code (issued now (some fresh)) items other h =
    let current = keep (is_current now) items in
    unfold issue_code drop_oldest_code in
    ground (
      arith,
      text_eq_iff fresh code,
      get-keep-none (is_current now) code items h,
      get-drop_oldest-none (λ t. t) current code,
      get-put code fresh (now + handoff_ttl) (bound_codes current),
    )
get-none-apply code (redeemed now given) items other h =
    let current = keep (is_current now) items in
    unfold redeem in
    ground (
      arith,
      get-keep-none (is_current now) code items h,
      get-delete code (match_code now given [] items) current,
    )

get-none-run_codes :
    (code : Text) (calls : List Call) (items : HandoffStore)
    → All (NotIssued code) calls
    → get code items ≡ none
    → get code (run_codes calls items) ≡ none
unfolding run_codes
get-none-run_codes code [] items others h = h
get-none-run_codes code (call ∷ calls) items (here, others) h =
    get-none-run_codes code calls (apply call items) others (get-none-apply code call items here h)

redeem-false_of_empty : (now : ℕ) (items : HandoffStore) → (redeem now [] items).1 ≡ false
unfolding redeem
redeem-false_of_empty now items = refl

-- Once a redemption of a code was asked of a well-formed table, whatever the answer, the code is
-- refused at every later request, after any calls in between whose fresh codes are not empty and do
-- not repeat it.
pub redeem_once :
    (now later : ℕ) (code : Text) (calls : List Call) (items : HandoffStore)
    → IsValid items
    → All Named calls
    → All (NotIssued code) calls
    → (redeem later code (run_codes calls (redeem now code items).0)).1 ≡ false
redeem_once now later [] calls items v named others = redeem-false_of_empty later _
redeem_once now later (c ∷ cs) calls items v named others =
    let code : Text = c ∷ cs in
    let after_first = (redeem now code items).0 in
    let gone : get code after_first ≡ none =
      get-redeem now code code items v (λ e. cc) ∙ rw (text_eq_refl code) in
    redeem-true later code (run_codes calls after_first)
      (run_codes-IsValid calls after_first named (redeem-IsValid now code items v))
    ∙ rw (get-none-run_codes code calls after_first others gone)
