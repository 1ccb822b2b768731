-- ===== src/Api/Handoff.antt =====
-- internal/api/session.go, lines 19 to 96: the store of one-time login codes.
pub mod Codes
pub mod Once
mod Tests
use wrtdeck.Api.Clock.{second, after, seconds}
use wrtdeck.Prelude.{
  leb, if◌then◌else◌, length, is_empty, Dict, put, delete, keep, Text, text_eq, nat_key, text_key,
  drop_oldest, ℕ, ◌+◌, ◌*◌, Bool, true, false, not, ◌&&◌, Option, none, some, [], ◌∷◌,
}

abbrev pub handoff_ttl : ℕ
handoff_ttl = 60 * second

abbrev pub handoff_max : ℕ
handoff_max = 32

-- A code with the time at which it expires.
abbrev pub HandoffStore : Type 0
HandoffStore = Dict Text ℕ

abbrev pub new_handoff_store : HandoffStore
new_handoff_store = []

abbrev pub is_current : ℕ → Text → ℕ → Bool
is_current now key expire_at = not (after now expire_at)

unfoldable pub drop_oldest_code : HandoffStore → HandoffStore
drop_oldest_code = drop_oldest (λ expire_at. expire_at)

abbrev pub bound_codes : HandoffStore → HandoffStore
bound_codes items = if leb handoff_max (length items) then drop_oldest_code items else items

-- `random_code` is an argument, `none` for its error.
unfoldable pub issue_code : ℕ → Option Text → HandoffStore → HandoffStore × Option (Text × ℕ)
issue_code now none items = (items, none)
issue_code now (some code) items = (
  put code (now + handoff_ttl) (bound_codes (keep (is_current now) items)),
  some (code, seconds handoff_ttl),
)

-- The loop of `redeem`: the last current key that equals the code. `found` begins empty.
unfoldable pub match_code : ℕ → Text → Text → HandoffStore → Text
match_code now code found [] = found
match_code now code found ((key, expire_at) ∷ m) =
    match_code now code (if is_current now key expire_at && text_eq key code then key else found) m

unfoldable pub redeem : ℕ → Text → HandoffStore → HandoffStore × Bool
redeem now code items =
    if is_empty code
    then (items, false)
    else (let found = match_code now code [] items in
        let current = keep (is_current now) items in
        if is_empty found then (current, false) else (delete found current, true))
