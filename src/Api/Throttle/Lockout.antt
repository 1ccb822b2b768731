-- ===== src/Api/Throttle/Lockout.antt =====
-- When a source is locked out, for how long, and what the calls leave of the other sources.

use wrtdeck.Api.Throttle.Locks.{lock_length_lem, lock_length_bounds}
use wrtdeck.Api.Throttle.{
  throttle_window, throttle_max_lock, throttle_max_sources, AttemptRecord, LoginThrottle,
  add_duration, allow_source, new_record, lock_length, fail_record, bound_sources, fail_source,
}
use wrtdeck.Api.Throttle.Sources.{bound_sources_room, failed}
use wrtdeck.Prelude.{
  if◌then◌else◌, get-put, length-put, length, All, get, Text, text_eq, nat_key, text_key,
  text_eq_refl, ℕ, suc, ◌+◌, ◌^◌, ◌≤◌, ◌<◌, min, ◌≡◌, refl, ◌∙◌, false, none, some, List, [], ◌∷◌,
  arith,
}

get-fail_source :
    (remote j : Text) (now : ℕ) (t : LoginThrottle)
    → get j (fail_source remote now t).0.by_ip ≡ (
        if text_eq remote j
        then some (failed remote now t).0
        else get j (bound_sources now t.by_ip))
unfolding fail_source
get-fail_source remote j now t =
    get-put j remote (failed remote now t).0 (bound_sources now t.by_ip)

-- As many failures at the given times, with nothing else in between.
unfoldable pub fail_all : Text → List ℕ → LoginThrottle → LoginThrottle
fail_all remote [] t = t
fail_all remote (now ∷ times) t = fail_all remote times (fail_source remote now t).0

abbrev pub last_of : ℕ → List ℕ → ℕ
last_of time [] = time
last_of time (next ∷ times) = last_of next times

length-fail_source :
    (remote : Text) (now : ℕ) (t : LoginThrottle) (r : AttemptRecord)
    → length t.by_ip < throttle_max_sources
    → get remote t.by_ip ≡ some r
    → length (fail_source remote now t).0.by_ip ≡ length t.by_ip
unfolding fail_source
length-fail_source remote now t r room bound =
    ground (arith, length-put remote (failed remote now t).0 (bound_sources now t.by_ip))

-- One more failure that does not lock.
counted_once :
    (remote : Text) (now : ℕ) (t : LoginThrottle) (r : AttemptRecord)
    → length t.by_ip < throttle_max_sources
    → get remote t.by_ip ≡ some r
    → now ≤ r.first_fail + throttle_window
    → r.fails + 1 < t.max
    → get remote (fail_source remote now t).0.by_ip ≡ some (record r { fails = r.fails + 1 })
counted_once remote now t r room bound recent few =
    get-fail_source remote remote now t
    ∙ unfold fail_record in
      rw (text_eq_refl remote, bound_sources_room now t.by_ip room, bound) (ground arith)

-- The record of a source that is locked at `now`.
abbrev pub locked_at : ℕ → ℕ → ℕ → AttemptRecord
locked_at lock_for streak now = record {
  fails = 0;
  first_fail = now;
  streak = streak + 1;
  blocked_until = add_duration now (lock_length lock_for (streak + 1));
}

locked_once :
    (remote : Text) (now : ℕ) (t : LoginThrottle) (r : AttemptRecord)
    → length t.by_ip < throttle_max_sources
    → get remote t.by_ip ≡ some r
    → now ≤ r.first_fail + throttle_window
    → t.max ≤ r.fails + 1
    → get remote (fail_source remote now t).0.by_ip ≡ some (locked_at t.lock_for r.streak now)
locked_once remote now t r room bound recent many =
    get-fail_source remote remote now t
    ∙ unfold fail_record in
      rw (text_eq_refl remote, bound_sources_room now t.by_ip room, bound) (ground arith)

same_limits :
    (remote : Text) (now : ℕ) (t : LoginThrottle)
    → ((fail_source remote now t).0.max ≡ t.max)
      × ((fail_source remote now t).0.lock_for ≡ t.lock_for)
unfolding fail_source
same_limits remote now t = (refl, refl)

-- From the record on, the failures that are left to the limit lock the source at the last of them.
fail_all-locked :
    (remote : Text) (now : ℕ) (times : List ℕ) (t : LoginThrottle) (r : AttemptRecord)
    → length t.by_ip < throttle_max_sources
    → get remote t.by_ip ≡ some r
    → now ≤ r.first_fail + throttle_window
    → All (λ x. x ≤ r.first_fail + throttle_window) times
    → r.fails + suc (length times) ≡ t.max
    → get remote (fail_all remote (now ∷ times) t).by_ip
      ≡ some (locked_at t.lock_for r.streak (last_of now times))
unfolding fail_all
fail_all-locked remote now [] t r room bound recent all count =
    locked_once remote now t r room bound recent (omega arith)
fail_all-locked remote now (next ∷ times) t r room bound recent (soon, all) count =
    let (same_max, same_lock) = same_limits remote now t in
    let few : r.fails + 1 < t.max = omega arith in
    let counted = counted_once remote now t r room bound recent few in
    let later =
      fail_all-locked remote next times (fail_source remote now t).0
        (record r { fails = r.fails + 1 })
        (omega (arith, length-fail_source remote now t r room bound)) counted soon all
        (omega (arith, same_max)) in
    rw same_lock at later

-- A throttle on which the source has no record, and room for it.
pub record IsFresh (remote : Text) (t : LoginThrottle) : Type 0 where
  pub unknown : get remote t.by_ip ≡ none
  pub room : length t.by_ip + 1 < throttle_max_sources

first_counted :
    (remote : Text) (now : ℕ) (t : LoginThrottle)
    → IsFresh remote t
    → 1 < t.max
    → (get remote (fail_source remote now t).0.by_ip ≡ some (record (new_record now) { fails = 1 }))
      × (length (fail_source remote now t).0.by_ip < throttle_max_sources)
unfolding fail_source
first_counted remote now t f many = (
  get-put remote remote (failed remote now t).0 (bound_sources now t.by_ip)
      ∙ unfold fail_record in
        rw (text_eq_refl remote, bound_sources_room now t.by_ip (omega (arith, f.room)), f.unknown)
          (ground arith),
  ground (
    arith,
    f.room,
    f.unknown,
    length-put remote (failed remote now t).0 (bound_sources now t.by_ip),
  ),
)

first_locked :
    (remote : Text) (now : ℕ) (t : LoginThrottle)
    → IsFresh remote t
    → t.max ≡ 1
    → get remote (fail_source remote now t).0.by_ip ≡ some (locked_at t.lock_for 0 now)
first_locked remote now t f one =
    get-fail_source remote remote now t
    ∙ unfold fail_record in
      rw (text_eq_refl remote, bound_sources_room now t.by_ip (omega (arith, f.room)), f.unknown)
        (ground arith)

pub fail_all_fresh :
    (remote : Text) (first : ℕ) (times : List ℕ) (t : LoginThrottle)
    → IsFresh remote t
    → All (λ x. x ≤ first + throttle_window) times
    → suc (length times) ≡ t.max
    → get remote (fail_all remote (first ∷ times) t).by_ip
      ≡ some (locked_at t.lock_for 0 (last_of first times))
unfolding fail_all
fail_all_fresh remote first [] t f all count = first_locked remote first t f (omega arith)
fail_all_fresh remote first (next ∷ times) t f (soon, all) count =
    let (bound, room) = first_counted remote first t f (omega arith) in
    let (same_max, same_lock) = same_limits remote first t in
    let later =
      fail_all-locked remote next times (fail_source remote first t).0
        (record (new_record first) { fails = 1 }) room bound soon all (omega (arith, same_max)) in
    rw same_lock at later

allow_source_blocked :
    (remote : Text) (now : ℕ) (t : LoginThrottle) (r : AttemptRecord)
    → get remote t.by_ip ≡ some r
    → now < r.blocked_until
    → (allow_source remote now t).1 ≡ false
unfolding allow_source
allow_source_blocked remote now t r bound early = ground arith

-- As many failures as the limit, all within the window of the first, lock a source that had no
-- record in a throttle with room for one more: with a positive base below 2 ^ 57 nanoseconds,
-- `Allow` refuses the source until the length of the first lock, one hour at most, has passed since
-- the last failure.
pub allow_source-fail_all :
    (remote : Text) (first : ℕ) (times : List ℕ) (later : ℕ) (t : LoginThrottle)
    → IsFresh remote t
    → All (λ x. x ≤ first + throttle_window) times
    → suc (length times) ≡ t.max
    → 0 < t.lock_for
    → t.lock_for < 2 ^ 57
    → later < last_of first times + min t.lock_for throttle_max_lock
    → (allow_source remote later (fail_all remote (first ∷ times) t)).1 ≡ false
allow_source-fail_all remote first times later t f all count positive small early =
    allow_source_blocked remote later _ (locked_at t.lock_for 0 (last_of first times))
      (fail_all_fresh remote first times t f all count)
      (ground
        (arith, lock_length_lem t.lock_for 1 small, lock_length_bounds t.lock_for 1 positive small))
