-- ===== src/Api/Sessions/Lifetime.antt =====
-- When a token is accepted: from its issue until it expires, is revoked, cleared or displaced.
use wrtdeck.Api.Clock.{after}
use wrtdeck.Api.Sessions.{
  session_max, Session, SessionStore, is_live, prune, drop_oldest_session, make_room, issue,
  match_key, Answer, missing, hit, lookup, revoke, clear,
}
use wrtdeck.Api.Sessions.Invariant.{IsValid, prune-IsValid, issue-IsValid, revoke-IsValid}
use wrtdeck.Prelude.{
  ltb, leb, if◌then◌else◌, leb→le, Bool-cases, get-put, get-delete, get-keep, get_empty,
  drop_oldest_cases, length, Dict, get, keep, IsDistinct, Text, text_eq, text_eq_iff, nat_key,
  text_key, text_eq_refl, Oldest, ℕ, ◌+◌, ◌≤◌, ◌≡◌, refl, ◌∙◌, ◌≢◌, ◌⊎◌, inl, inr, Bool, false, not,
  ◌&&◌, Option, none, some, [], ◌∷◌, arith,
}

-- The answer that the binding of the token calls for.
abbrev pub answer_of : ℕ → Option Session → Answer
answer_of now none = missing
answer_of now (some item) = if after now item.expires then missing else hit item

abbrev alive : ℕ → Option Session → Bool
alive now none = false
alive now (some item) = not (after now item.expires)

match_key_lem :
    (now : ℕ) (token found : Text) (m : Dict Text Session)
    → IsDistinct m
    → match_key now token found m ≡ (if alive now (get token m) then token else found)
unfolding match_key get
match_key_lem now token found [] d = refl
match_key_lem now token found ((key, item) ∷ m) (fresh, d) = ground (
  arith,
  text_eq_iff key token,
  match_key_lem now token (if is_live now key item && text_eq key token then key else found) m d,
)

-- A lookup in a well-formed table answers with the session that the token is bound to, if that has
-- not expired, and otherwise that it is missing; it never reads a key that is not there.
pub lookup_lem :
    (now : ℕ) (token : Text) (s : SessionStore)
    → IsValid s
    → (lookup now token s).1 ≡ answer_of now (get token s.items)
unfolding lookup
lookup_lem now [] s v = rw (get_empty s.items v.table.named)
lookup_lem now (c ∷ cs) s v = ground (
  arith,
  match_key_lem now (c ∷ cs) [] s.items v.table.distinct,
  get-keep (is_live now) (c ∷ cs) s.items v.table.distinct,
)

abbrev new_item : ℕ → Text → Text → SessionStore → Session
new_item now token remote s = record {
  token = token;
  created = now;
  expires = now + s.ttl;
  remote = remote;
}

get-issue :
    (now : ℕ) (token j remote : Text) (s : SessionStore)
    → get j (issue now (some token) remote s).0.items ≡ (
        if text_eq token j
        then some (new_item now token remote s)
        else get j (make_room (prune now s)).items)
unfolding issue
get-issue now token j remote s =
    get-put j token (new_item now token remote s) (make_room (prune now s)).items

-- A fresh token that is not empty, issued by a well-formed table, is accepted with the data of its
-- issue up to `ttl` after it, and not later.
pub lookup-issue :
    (now later : ℕ) (token remote : Text) (s : SessionStore)
    → IsValid s
    → token ≢ []
    → (lookup later token (issue now (some token) remote s).0).1 ≡ (
        if ltb (now + s.ttl) later
        then missing
        else hit (record { token = token; created = now; expires = now + s.ttl; remote = remote }))
lookup-issue now later token remote s v named =
    lookup_lem later token _ (issue-IsValid now token remote s named v)
    ∙ rw (get-issue now token token remote s, text_eq_refl token)

get-prune :
    (now : ℕ) (j : Text) (item : Session) (s : SessionStore)
    → IsValid s
    → get j s.items ≡ some item
    → now ≤ item.expires
    → get j (prune now s).items ≡ some item
unfolding prune
get-prune now j item s v bound live =
    ground (arith, get-keep (is_live now) j s.items v.table.distinct)

-- Issuing a token that is not empty costs no other session of a well-formed table that is live at
-- both times, but for the oldest one where the table is full.
pub lookup-issue_other :
    (now later : ℕ) (token remote other : Text) (item : Session) (s : SessionStore)
    → IsValid s
    → token ≢ []
    → token ≢ other
    → get other s.items ≡ some item
    → now ≤ item.expires
    → later ≤ item.expires
    → ((lookup later other (issue now (some token) remote s).0).1 ≡ hit item)
      ⊎ (Oldest (λ i. i.created) other item (prune now s).items
          × (session_max ≤ length (prune now s).items))
lookup-issue_other now later token remote other item s v named ne bound live_now live_later =
    let valid = issue-IsValid now token remote s named v in
    let pruned : get other (prune now s).items ≡ some item =
      get-prune now other item s v bound live_now in
    elim (Bool-cases (leb session_max (length (prune now s).items))) [
      | inr room ↦ inl (
          lookup_lem later other _ valid
          ∙ rw (get-issue now token other remote s) (ground (arith, text_eq_iff token other)))
      | inl full ↦
          elim (drop_oldest_cases (λ i. i.created) (prune now s).items other item
            (prune-IsValid now s v).table pruned) [
              | inl stays ↦ inl (
                  lookup_lem later other _ valid
                  ∙ rw (get-issue now token other remote s)
                      (unfold drop_oldest_session in ground (arith, text_eq_iff token other)))
              | inr oldest ↦ inr (oldest, leb→le _ _ full)
            ]
    ]

-- After a token was revoked a lookup in a well-formed table misses it, and answers for every other
-- token as before.
pub lookup-revoke :
    (now : ℕ) (token other : Text) (s : SessionStore)
    → IsValid s
    → (lookup now other (revoke token s)).1
      ≡ (if text_eq token other then missing else (lookup now other s).1)
unfolding revoke
lookup-revoke now token other s v =
    let gone = lookup_lem now other (revoke token s) (revoke-IsValid token s v) in
    ground (arith, gone, lookup_lem now other s v, get-delete other token s.items)

-- After the table was cleared, as a change of password does, a lookup misses every token.
pub lookup-clear :
    (now : ℕ) (token : Text) (s : SessionStore) → (lookup now token (clear s)).1 ≡ missing
unfolding lookup clear prune match_key get keep
lookup-clear now [] s = refl
lookup-clear now (c ∷ cs) s = refl
