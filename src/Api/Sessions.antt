-- ===== src/Api/Sessions.antt =====
-- internal/api/session_store.go: the table of login sessions.
pub mod Invariant
pub mod Lifetime
mod Tests
use wrtdeck.Api.Clock.{hour, after, seconds}
use wrtdeck.Prelude.{
  leb, if◌then◌else◌, drop_oldest, length, is_empty, Dict, get, put, delete, keep, Text, text_eq,
  nat_key, text_key, ℕ, ◌+◌, ◌*◌, Bool, not, ◌&&◌, Option, none, some, [], ◌∷◌,
}

abbrev pub session_max : ℕ
session_max = 64

pub record Session : Type 0 where
  pub token : Text
  pub created : ℕ
  pub expires : ℕ
  pub remote : Text

pub record SessionStore : Type 0 where
  pub items : Dict Text Session
  pub ttl : ℕ

unfoldable pub new_session_store : ℕ → SessionStore
new_session_store ttl = record { items = []; ttl = if leb ttl 0 then 12 * hour else ttl }

-- The test of the loops that drop what has expired.
abbrev pub is_live : ℕ → Text → Session → Bool
is_live now key item = not (after now item.expires)

unfoldable pub prune : ℕ → SessionStore → SessionStore
prune now s = record s { items = keep (is_live now) s.items }

unfoldable pub drop_oldest_session : SessionStore → SessionStore
drop_oldest_session s = record s { items = drop_oldest (λ item. item.created) s.items }

abbrev pub make_room : SessionStore → SessionStore
make_room s = if leb session_max (length s.items) then drop_oldest_session s else s

-- `random_session_token` is an argument, `none` for its error. The answer is the token with its
-- seconds, or `none` for the error.
unfoldable pub issue : ℕ → Option Text → Text → SessionStore → SessionStore × Option (Text × ℕ)
unfolding prune drop_oldest_session
issue now none remote s = (s, none)
issue now (some token) remote s =
    let room = make_room (prune now s) in
    let item : Session = record {
      token = token;
      created = now;
      expires = now + s.ttl;
      remote = remote;
    } in
    (record room { items = put token item room.items }, some (token, seconds s.ttl))

-- The loop of `lookup`: the last key that is live and equals the token. `found` begins empty.
unfoldable pub match_key : ℕ → Text → Text → Dict Text Session → Text
match_key now token found [] = found
match_key now token found ((key, item) ∷ m) =
    match_key now token (if is_live now key item && text_eq key token then key else found) m

-- `nil_item` is the fault of reading a key that is not in the map.
pub data Answer : Type 0 where
  missing nil_item : Answer
  hit : Session → Answer

abbrev read_item : Option Session → Answer
read_item none = nil_item
read_item (some item) = hit item

unfoldable pub lookup : ℕ → Text → SessionStore → SessionStore × Answer
unfolding match_key prune
lookup now token s =
    if is_empty token
    then (s, missing)
    else (let found = match_key now token [] s.items in
        let live = prune now s in
        (live, if is_empty found then missing else read_item (get found live.items)))

unfoldable pub revoke : Text → SessionStore → SessionStore
revoke token s = record s { items = delete token s.items }

unfoldable pub clear : SessionStore → SessionStore
clear s = record s { items = [] }

unfoldable pub count : ℕ → SessionStore → SessionStore × ℕ
unfolding prune
count now s = let live = prune now s in (live, length live.items)
