-- ===== src/Api/Handoff/Codes.antt =====
-- What a redemption answers and leaves, and that the table of codes stays well formed.
use wrtdeck.Api.Clock.{after}
use wrtdeck.Api.Handoff.{
  handoff_ttl, handoff_max, HandoffStore, is_current, drop_oldest_code, bound_codes, issue_code,
  match_code, redeem,
}
use wrtdeck.Prelude.{
  leb, if◌then◌else◌, leb→le, Bool-cases, kept, get-delete, get-keep, length-put, length-delete-le,
  length-keep-le, IsTable, get_empty, put-IsTable, delete-IsTable, keep-IsTable,
  drop_oldest-IsTable, length-drop_oldest, length, All, get, keep, IsDistinct, Text, text_eq,
  text_eq_iff, nat_key, text_key, ℕ, ◌+◌, ◌≤◌, ◌<◌, ◌≡◌, refl, ◌≢◌, inl, inr, Bool, false, not,
  ◌&&◌, Option, none, some, List, [], ◌∷◌, arith,
}

pub record IsValid (items : HandoffStore) : Type 0 where
  pub table : IsTable items
  pub bounded : length items ≤ handoff_max

-- Whether the binding of a code is one that has not expired.
abbrev pub is_good : ℕ → Option ℕ → Bool
is_good now none = false
is_good now (some expire_at) = not (after now expire_at)

match_code_lem :
    (now : ℕ) (code found : Text) (m : HandoffStore)
    → IsDistinct m
    → match_code now code found m ≡ (if is_good now (get code m) then code else found)
unfolding match_code get
match_code_lem now code found [] d = refl
match_code_lem now code found ((key, expire_at) ∷ m) (fresh, d) = ground (
  arith,
  text_eq_iff key code,
  match_code_lem now code (if is_current now key expire_at && text_eq key code then key else found)
      m d,
)

-- A code is redeemed by a well-formed table exactly when it is bound to a time that has not passed.
pub redeem-true :
    (now : ℕ) (code : Text) (items : HandoffStore)
    → IsValid items
    → (redeem now code items).1 ≡ is_good now (get code items)
unfolding redeem
redeem-true now [] items v = rw (get_empty items v.table.named)
redeem-true now (c ∷ cs) items v =
    ground (arith, match_code_lem now (c ∷ cs) [] items v.table.distinct)

-- What is bound in a well-formed table after the redemption of a code that is not empty: the codes
-- that have not expired, less the one redeemed.
pub get-redeem :
    (now : ℕ) (code other : Text) (items : HandoffStore)
    → IsValid items
    → code ≢ []
    → get other (redeem now code items).0
      ≡ (if text_eq code other then none else kept (is_current now) other (get other items))
unfolding redeem
get-redeem now [] other items v named = absurd (named refl)
get-redeem now (c ∷ cs) other items v named = ground (
  arith,
  text_eq_iff (c ∷ cs) other,
  match_code_lem now (c ∷ cs) [] items v.table.distinct,
  get-delete other (c ∷ cs) (keep (is_current now) items),
  get-keep (is_current now) other items v.table.distinct,
)

pub redeem-IsValid :
    (now : ℕ) (code : Text) (items : HandoffStore)
    → IsValid items
    → IsValid (redeem now code items).0
unfolding redeem
redeem-IsValid now code items v =
    let found = match_code now code [] items in
    let current = keep (is_current now) items in
    let table = keep-IsTable (is_current now) items v.table in
    record {
      table = ground (arith, v.table, table, delete-IsTable found current table);
      bounded =
          ground (
            arith,
            length-keep-le (is_current now) items,
            length-delete-le found current,
            v.bounded,
          );
    }

bound_codes-lt :
    (items : HandoffStore)
    → IsValid items
    → IsTable (bound_codes items) × (length (bound_codes items) < handoff_max)
unfolding drop_oldest_code
bound_codes-lt items v = elim (Bool-cases (leb handoff_max (length items))) [
  | inl full ↦ rw full (
    drop_oldest-IsTable (λ t. t) items v.table,
    omega (arith, leb→le _ _ full, length-drop_oldest (λ t. t) items v.table, v.bounded),
  )
  | inr room ↦ rw room (v.table, ground arith)
]

keep-IsValid :
    (now : ℕ) (items : HandoffStore) → IsValid items → IsValid (keep (is_current now) items)
keep-IsValid now items v = record {
  table = keep-IsTable (is_current now) items v.table;
  bounded = omega (arith, length-keep-le (is_current now) items, v.bounded);
}

pub issue_code-IsValid :
    (now : ℕ) (code : Text) (items : HandoffStore)
    → code ≢ []
    → IsValid items
    → IsValid (issue_code now (some code) items).0
unfolding issue_code
issue_code-IsValid now code items named v =
    let (t, lt) = bound_codes-lt (keep (is_current now) items) (keep-IsValid now items v) in
    record {
      table = put-IsTable code (now + handoff_ttl) _ named t;
      bounded =
          ground (
            arith,
            length-put code (now + handoff_ttl) (bound_codes (keep (is_current now) items)),
          );
    }

-- The calls of a server on its codes.
pub data Call : Type 0 where
  issued : ℕ → Option Text → Call
  redeemed : ℕ → Text → Call

unfoldable pub apply : Call → HandoffStore → HandoffStore
apply (issued now code) items = (issue_code now code items).0
apply (redeemed now code) items = (redeem now code items).0

abbrev pub Named : Call → Type 0
Named (issued now (some code)) = code ≢ []
Named _ = Unit

apply-IsValid :
    (call : Call) (items : HandoffStore) → Named call → IsValid items → IsValid (apply call items)
unfolding apply issue_code
apply-IsValid (issued now none) items named v = v
apply-IsValid (issued now (some code)) items named v = issue_code-IsValid now code items named v
apply-IsValid (redeemed now code) items named v = redeem-IsValid now code items v

unfoldable pub run_codes : List Call → HandoffStore → HandoffStore
run_codes [] items = items
run_codes (call ∷ calls) items = run_codes calls (apply call items)

-- Through any sequence of calls whose fresh codes are not empty, a well-formed table keeps its keys
-- distinct and not empty, and holds at most 32 codes.
pub run_codes-IsValid :
    (calls : List Call) (items : HandoffStore)
    → All Named calls
    → IsValid items
    → IsValid (run_codes calls items)
unfolding run_codes
run_codes-IsValid [] items named v = v
run_codes-IsValid (call ∷ calls) items (here, named) v =
    run_codes-IsValid calls (apply call items) named (apply-IsValid call items here v)
