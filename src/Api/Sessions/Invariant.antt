-- ===== src/Api/Sessions/Invariant.antt =====
-- The table of sessions stays well formed, whatever is called.
use wrtdeck.Api.Sessions.{
  session_max, SessionStore, new_session_store, is_live, prune, drop_oldest_session, make_room,
  issue, lookup, revoke, clear, count,
}
use wrtdeck.Prelude.{
  leb, leb→le, Bool-cases, length-put, length-delete-le, length-keep-le, IsTable, put-IsTable,
  delete-IsTable, keep-IsTable, drop_oldest-IsTable, length-drop_oldest, length, All, Text, nat_key,
  text_key, ℕ, ◌+◌, ◌≤◌, ◌<◌, ◌≢◌, inl, inr, Option, none, some, List, [], ◌∷◌, arith,
}

pub record IsValid (s : SessionStore) : Type 0 where
  pub table : IsTable s.items
  pub bounded : length s.items ≤ session_max

pub prune-IsValid : (now : ℕ) (s : SessionStore) → IsValid s → IsValid (prune now s)
unfolding prune
prune-IsValid now s v = record {
  table = keep-IsTable (is_live now) s.items v.table;
  bounded = omega (arith, length-keep-le (is_live now) s.items, v.bounded);
}

-- What the calls of a server do to the table.
pub data Call : Type 0 where
  issued : ℕ → Option Text → Text → Call
  looked_up : ℕ → Text → Call
  revoked : Text → Call
  cleared : Call
  counted : ℕ → Call

unfoldable pub apply : Call → SessionStore → SessionStore
apply (issued now token remote) s = (issue now token remote s).0
apply (looked_up now token) s = (lookup now token s).0
apply (revoked token) s = revoke token s
apply cleared s = clear s
apply (counted now) s = (count now s).0

pub make_room-lt :
    (s : SessionStore)
    → IsValid s
    → IsTable (make_room s).items × (length (make_room s).items < session_max)
unfolding drop_oldest_session
make_room-lt s v = elim (Bool-cases (leb session_max (length s.items))) [
  | inl full ↦ rw full (
    drop_oldest-IsTable (λ item. item.created) s.items v.table,
    omega (
      arith,
      leb→le _ _ full,
      length-drop_oldest (λ item. item.created) s.items v.table,
      v.bounded,
    ),
  )
  | inr room ↦ rw room (v.table, ground arith)
]

-- A call whose fresh token, if it has one, is not empty.
abbrev pub Named : Call → Type 0
Named (issued now (some token) remote) = token ≢ []
Named _ = Unit

pub new_session_store-IsValid : (ttl : ℕ) → IsValid (new_session_store ttl)
unfolding new_session_store
new_session_store-IsValid ttl = record {
  table = record { distinct = tt; named = tt };
  bounded = omega arith;
}

pub apply-IsValid :
    (call : Call) (s : SessionStore) → Named call → IsValid s → IsValid (apply call s)
unfolding apply issue lookup count revoke clear
apply-IsValid (issued now (some token) remote) s named v =
    let (t, lt) = make_room-lt (prune now s) (prune-IsValid now s v) in
    record {
      table = put-IsTable token _ _ named t;
      bounded = ground (
        arith,
        length-put token
            (record { token = token; created = now; expires = now + s.ttl; remote = remote })
            (make_room (prune now s)).items,
      );
    }
apply-IsValid (issued now none remote) s named v = v
apply-IsValid (looked_up now token) s named v = ground (arith, prune-IsValid now s v)
apply-IsValid (revoked token) s named v = record {
  table = delete-IsTable token s.items v.table;
  bounded = omega (arith, length-delete-le token s.items, v.bounded);
}
apply-IsValid cleared s named v = record {
  table = record { distinct = tt; named = tt };
  bounded = omega arith;
}
apply-IsValid (counted now) s named v = prune-IsValid now s v

pub issue-IsValid :
    (now : ℕ) (token remote : Text) (s : SessionStore)
    → token ≢ []
    → IsValid s
    → IsValid (issue now (some token) remote s).0
unfolding apply
issue-IsValid now token remote s named v = apply-IsValid (issued now (some token) remote) s named v

pub revoke-IsValid : (token : Text) (s : SessionStore) → IsValid s → IsValid (revoke token s)
unfolding apply
revoke-IsValid token s v = apply-IsValid (revoked token) s tt v

-- A sequence of calls, one after the other.
unfoldable pub run_sessions : List Call → SessionStore → SessionStore
run_sessions [] s = s
run_sessions (call ∷ calls) s = run_sessions calls (apply call s)

pub run_from-IsValid :
    (calls : List Call) (s : SessionStore)
    → All Named calls
    → IsValid s
    → IsValid (run_sessions calls s)
unfolding run_sessions
run_from-IsValid [] s named v = v
run_from-IsValid (call ∷ calls) s (here, named) v =
    run_from-IsValid calls (apply call s) named (apply-IsValid call s here v)

-- Through any sequence of calls whose fresh tokens are not empty, a table that begins as
-- `new_session_store` makes it has no key twice, no empty key and at most 64 sessions.
pub run_sessions-IsValid :
    (ttl : ℕ) (calls : List Call)
    → All Named calls
    → IsValid (run_sessions calls (new_session_store ttl))
run_sessions-IsValid ttl calls named =
    run_from-IsValid calls (new_session_store ttl) named (new_session_store-IsValid ttl)
