-- ===== src/Api/Throttle.antt =====
-- internal/api/throttle.go: the limit on login attempts.
pub mod Locks
pub mod Sources
pub mod Lockout
pub mod Backoff
pub mod Gate
pub mod Networks
mod Tests
use wrtdeck.Api.Clock.{minute, hour, after, before, sub_exceeds}
use wrtdeck.Api.Ip.{v4, v6, IpText, mask64}
use wrtdeck.Prelude.{
  ltb, leb, if◌then◌else◌, length, Dict, get, put, delete, keep, Text, nat_key, text_key, codes,
  is_negative, mul_duration, exceeds, drop_oldest, ℕ, ◌+◌, ◌-◌, ◌*◌, ◌^◌, min, Bool, true, false,
  not, ◌&&◌, ◌||◌, Option, none, some, [], ◌++◌,
}

abbrev pub throttle_window : ℕ
throttle_window = 15 * minute

abbrev pub throttle_max_lock : ℕ
throttle_max_lock = hour

abbrev pub throttle_global_window : ℕ
throttle_global_window = minute

abbrev pub throttle_global_fails : ℕ
throttle_global_fails = 50

abbrev pub throttle_global_lock : ℕ
throttle_global_lock = minute

abbrev pub throttle_max_sources : ℕ
throttle_max_sources = 1024

pub record AttemptRecord : Type 0 where
  pub fails : ℕ
  pub first_fail : ℕ
  pub streak : ℕ
  pub blocked_until : ℕ

pub record GlobalRecord : Type 0 where
  pub fails : ℕ
  pub first_fail : ℕ
  pub until : ℕ

-- `lock_for` is the 64-bit pattern of a signed duration.
pub record LoginThrottle : Type 0 where
  pub by_ip : Dict Text AttemptRecord
  pub global : GlobalRecord
  pub max : ℕ
  pub lock_for : ℕ

-- `t.Add(d)`
abbrev pub add_duration : ℕ → ℕ → ℕ
add_duration t d = if is_negative d then t + d - 2 ^ 64 else t + d

unfoldable pub new_login_throttle : ℕ → ℕ → LoginThrottle
new_login_throttle max lock_for = record {
  by_ip = [];
  global = record { fails = 0; first_fail = 0; until = 0 };
  max = if leb max 0 then 5 else max;
  lock_for = if leb lock_for 0 || is_negative lock_for then 15 * minute else lock_for;
}

unfoldable pub normalize_source : IpText → Text → Text
normalize_source net remote = elim (net.parse remote) [
  | none ↦ remote
  | some (v4 n) ↦ net.show (v4 n)
  | some (v6 n) ↦ net.show (v6 (mask64 n)) ++ codes "/64"
]

-- `until.Sub(now)`, asked only where `now` precedes `until`; the difference stops at the largest
-- duration.
abbrev pub wait_until : ℕ → ℕ → ℕ
wait_until until now = min (until - now) (2 ^ 63 - 1)

-- The part of `Allow` that follows the global gate, on a normalised source.
unfoldable pub allow_record :
    Text → ℕ → Option AttemptRecord → LoginThrottle → LoginThrottle × Bool × ℕ
allow_record remote now none t = (t, true, 0)
allow_record remote now (some r) t =
    if before now r.blocked_until
    then (t, false, wait_until r.blocked_until now)
    else if sub_exceeds now r.first_fail throttle_window
    then (record t { by_ip = delete remote t.by_ip }, true, 0)
    else (t, true, 0)

-- `Allow` on a normalised source.
unfoldable pub allow_source : Text → ℕ → LoginThrottle → LoginThrottle × Bool × ℕ
unfolding allow_record
allow_source remote now t =
    if before now t.global.until
    then (t, false, wait_until t.global.until now)
    else allow_record remote now (get remote t.by_ip) t

unfoldable pub allow : IpText → Text → ℕ → LoginThrottle → LoginThrottle × Bool × ℕ
unfolding normalize_source
allow net remote now t = allow_source (normalize_source net remote) now t

-- What the first loop of `evict_oldest` leaves.
abbrev pub is_recent : ℕ → Text → AttemptRecord → Bool
is_recent now key r =
    not (after now r.blocked_until && sub_exceeds now r.first_fail throttle_window)

unfoldable pub evict_oldest : ℕ → Dict Text AttemptRecord → Dict Text AttemptRecord
evict_oldest now by_ip =
    let recent = keep (is_recent now) by_ip in
    if ltb (length recent) throttle_max_sources
    then recent
    else drop_oldest (λ r. r.first_fail) recent

unfoldable pub count_global : ℕ → GlobalRecord → GlobalRecord
count_global now g =
    let opened : GlobalRecord =
      if sub_exceeds now g.first_fail throttle_global_window
      then record g { fails = 0; first_fail = now }
      else g in
    let counted = record opened { fails = opened.fails + 1 } in
    if leb throttle_global_fails counted.fails
    then record { until = now + throttle_global_lock; fails = 0; first_fail = now }
    else counted

abbrev pub min_int : ℕ → ℕ → ℕ
min_int a b = if ltb a b then a else b

abbrev pub new_record : ℕ → AttemptRecord
new_record now = record { fails = 0; first_fail = now; streak = 0; blocked_until = 0 }

abbrev pub found_or_new : ℕ → Option AttemptRecord → AttemptRecord
found_or_new now none = new_record now
found_or_new now (some r) = r

-- The record once this failure is counted.
unfoldable pub count_failure : ℕ → AttemptRecord → AttemptRecord
count_failure now r =
    if sub_exceeds now r.first_fail throttle_window
    then record r { fails = 1; first_fail = now }
    else record r { fails = r.fails + 1 }

-- The length of a lock, `streak` being counted with it.
unfoldable pub lock_length : ℕ → ℕ → ℕ
lock_length lock_for streak =
    let lock = mul_duration lock_for (2 ^ min_int (streak - 1) 6) in
    if exceeds lock throttle_max_lock then throttle_max_lock else lock

-- The part of `Fail` on the record: the new record with the length of the lock, 0 for none.
unfoldable pub fail_record : ℕ → ℕ → ℕ → AttemptRecord → AttemptRecord × ℕ
unfolding count_failure lock_length
fail_record max lock_for now r =
    let counted = count_failure now r in
    let lock = lock_length lock_for (counted.streak + 1) in
    if ltb counted.fails max then (counted, 0) else (
      record {
        fails = 0;
        first_fail = now;
        streak = counted.streak + 1;
        blocked_until = add_duration now lock;
      },
      lock,
    )

abbrev pub bound_sources : ℕ → Dict Text AttemptRecord → Dict Text AttemptRecord
bound_sources now by_ip =
    if leb throttle_max_sources (length by_ip) then evict_oldest now by_ip else by_ip

-- `Fail` on a normalised source.
unfoldable pub fail_source : Text → ℕ → LoginThrottle → LoginThrottle × ℕ
unfolding count_global evict_oldest fail_record
fail_source remote now t =
    let sources = bound_sources now t.by_ip in
    let (r, lock) = fail_record t.max t.lock_for now (found_or_new now (get remote sources)) in
    (record t { by_ip = put remote r sources; global = count_global now t.global }, lock)

unfoldable pub fail : IpText → Text → ℕ → LoginThrottle → LoginThrottle × ℕ
unfolding normalize_source fail_source
fail net remote now t = fail_source (normalize_source net remote) now t

unfoldable pub succeed : IpText → Text → LoginThrottle → LoginThrottle
unfolding normalize_source
succeed net remote t = record t { by_ip = delete (normalize_source net remote) t.by_ip }
