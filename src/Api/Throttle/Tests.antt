-- ===== src/Api/Throttle/Tests.antt =====
-- Runs of the throttle, and the theorems at concrete inputs.

use wrtdeck.Api.Throttle.Sources.{IsValid}
use wrtdeck.Api.Throttle.Lockout.{fail_all, locked_at, IsFresh, allow_source-fail_all}
use wrtdeck.Api.Throttle.Backoff.{backoff_forgotten}
use wrtdeck.Api.Throttle.Gate.{fail_each, allow_source-fail_each}
use wrtdeck.Api.Clock.{minute, hour}
use wrtdeck.Api.Throttle.{
  LoginThrottle, new_login_throttle, allow_source, evict_oldest, count_failure, lock_length,
  fail_record, fail_source,
}
use wrtdeck.Prelude.{
  get, put, Text, nat_key, text_key, codes, is_negative, ℕ, zero, suc, ◌+◌, ◌*◌, ◌^◌, ◌≡◌, refl,
  true, false, some, List, [], ◌∷◌, arith,
}

abbrev start : LoginThrottle
start = record {
  by_ip = [];
  global = record { fails = 0; first_fail = 0; until = 0 };
  max = 3;
  lock_for = 15 * minute;
}

abbrev src : Text
src = codes "203.0.113.9"

begin : ℕ
begin = 100 * hour

start_run : new_login_throttle 3 0 ≡ start
unfolding new_login_throttle
start_run = refl

-- Three failures lock for the base length.
locked_run :
    get src (fail_all src (5 ∷ 6 ∷ 7 ∷ []) start).by_ip ≡ some (locked_at (15 * minute) 0 7)
unfolding fail_all fail_source fail_record lock_length count_failure evict_oldest get put
locked_run = refl

lengths_run :
    (lock_length (15 * minute) 2 ≡ 30 * minute)
    × (lock_length (15 * minute) 9 ≡ hour)
    × (is_negative (lock_length (2 ^ 57) 7) ≡ true)
unfolding lock_length
lengths_run = (refl, refl, refl)

start-IsValid : IsValid start
start-IsValid = record {
  table = record { distinct = tt; named = tt };
  bounded = omega arith;
  positive = omega arith;
  below = tt;
}

start-IsFresh : IsFresh src start
unfolding get
start-IsFresh = record { unknown = refl; room = omega arith }

allow_source-fail_all_example :
    (allow_source src minute (fail_all src (5 ∷ 6 ∷ 7 ∷ []) start)).1 ≡ false
allow_source-fail_all_example =
    allow_source-fail_all src 5 (6 ∷ 7 ∷ []) minute start start-IsFresh (omega arith) refl
      (omega arith) (omega arith) (omega arith)

abbrev locked : LoginThrottle
locked = record start { by_ip = (src, locked_at (15 * minute) 0 7) ∷ [] }

backoff_forgotten_example :
    get src (fail_all src (hour ∷ hour ∷ hour ∷ []) (allow_source src hour locked).0).by_ip
    ≡ some (locked_at (15 * minute) 0 hour)
unfolding get lock_length
backoff_forgotten_example =
    backoff_forgotten src 7 0 hour (hour ∷ hour ∷ []) locked
      (record { distinct = (refl, tt); named = ((λ e. cc), tt) }) (omega arith) (omega arith) refl
      (omega arith) (omega arith) (omega arith) refl

abbrev repeat : ℕ → List (Text × ℕ)
repeat zero = []
repeat (suc n) = (src, hour) ∷ repeat n

allow_source-fail_each_example :
    (allow_source (codes "other") (hour + 1) (fail_each (repeat 50) start)).1 ≡ false
allow_source-fail_each_example =
    allow_source-fail_each (codes "other") src hour (hour + 1) src hour (repeat 48) start
      (omega arith) (omega arith) refl (omega arith)
