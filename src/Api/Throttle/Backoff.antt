-- ===== src/Api/Throttle/Backoff.antt =====
-- What `Allow` forgets, and what that makes of the doubling of the locks.

use wrtdeck.Api.Throttle.{
  throttle_window, throttle_max_sources, AttemptRecord, LoginThrottle, add_duration, allow_source,
  lock_length,
}
use wrtdeck.Api.Throttle.Lockout.{fail_all, last_of, locked_at, IsFresh, fail_all_fresh}
use wrtdeck.Prelude.{
  ltb, leb, if◌then◌else◌, get-delete, length-delete, IsTable, length, All, get, Text, text_eq,
  text_eq_iff, nat_key, text_key, text_eq_refl, ℕ, suc, ◌+◌, ◌≤◌, ◌<◌, ◌≡◌, Bool, true, ◌||◌,
  Option, none, some, List, ◌∷◌, arith,
}

-- With the global gate open, what `Allow` answers a source, by its record.
abbrev pub verdict : ℕ → Option AttemptRecord → Bool
verdict now none = true
verdict now (some r) = leb r.blocked_until now

-- What `Allow` leaves of the record.
abbrev pub remembered : ℕ → Option AttemptRecord → Option AttemptRecord
remembered now none = none
remembered now (some r) =
    if ltb now r.blocked_until || leb now (r.first_fail + throttle_window) then some r else none

-- With the global gate open `Allow` lets a source through exactly when it has no record or its lock
-- is over; it then forgets the record if the window is over too, and keeps the other sources.
pub allow_source_lem :
    (remote other : Text) (now : ℕ) (t : LoginThrottle)
    → t.global.until ≤ now
    → ((allow_source remote now t).1 ≡ verdict now (get remote t.by_ip))
      × (get other (allow_source remote now t).0.by_ip ≡ (
          if text_eq remote other then remembered now (get other t.by_ip) else get other t.by_ip))
unfolding allow_source
allow_source_lem remote other now t open_gate =
    (ground arith, ground (arith, text_eq_iff remote other, get-delete other remote t.by_ip))

forgets_lock :
    (remote : Text) (now last streak : ℕ) (t : LoginThrottle)
    → IsTable t.by_ip
    → length t.by_ip < throttle_max_sources
    → t.global.until ≤ now
    → get remote t.by_ip ≡ some (locked_at t.lock_for streak last)
    → last + throttle_window ≤ add_duration last (lock_length t.lock_for (streak + 1))
    → add_duration last (lock_length t.lock_for (streak + 1)) < now
    → IsFresh remote (allow_source remote now t).0
unfolding allow_source
forgets_lock remote now last streak t table room open_gate bound long over = record {
  unknown = ground (arith, text_eq_refl remote, get-delete remote remote t.by_ip);
  room = ground (arith, length-delete remote t.by_ip table.distinct);
}

allow_source_limits :
    (remote : Text) (now : ℕ) (t : LoginThrottle)
    → ((allow_source remote now t).0.max ≡ t.max)
      × ((allow_source remote now t).0.lock_for ≡ t.lock_for)
unfolding allow_source
allow_source_limits remote now t = ground arith

-- A lock at least as long as the window is never followed by a longer one: for a source that was
-- locked at any streak, in a table with distinct named keys and room, and with the global gate
-- open, `Allow` forgets the lock once it is over, and as many failures as the limit, within one
-- window, then lock the source with the length of streak 1.
pub backoff_forgotten :
    (remote : Text) (last streak first : ℕ) (times : List ℕ) (t : LoginThrottle)
    → IsTable t.by_ip
    → length t.by_ip < throttle_max_sources
    → t.global.until ≤ first
    → get remote t.by_ip ≡ some (locked_at t.lock_for streak last)
    → last + throttle_window ≤ add_duration last (lock_length t.lock_for (streak + 1))
    → add_duration last (lock_length t.lock_for (streak + 1)) < first
    → All (λ x. x ≤ first + throttle_window) times
    → suc (length times) ≡ t.max
    → get remote (fail_all remote (first ∷ times) (allow_source remote first t).0).by_ip
      ≡ some (locked_at t.lock_for 0 (last_of first times))
backoff_forgotten remote last streak first times t table room open_gate bound long over all count =
    let (same_max, same_lock) = allow_source_limits remote first t in
    let fresh = forgets_lock remote first last streak t table room open_gate bound long over in
    let locked =
      fail_all_fresh remote first times (allow_source remote first t).0 fresh all
        (omega (arith, same_max)) in
    rw same_lock at locked
