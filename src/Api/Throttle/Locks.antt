-- ===== src/Api/Throttle/Locks.antt =====
-- The length of a lock.

use wrtdeck.Api.Throttle.{throttle_max_lock, min_int, lock_length}
use wrtdeck.Prelude.{nat_key, text_key, ℕ, zero, suc, ◌-◌, ◌*◌, ◌^◌, ◌≤◌, ◌<◌, min, ◌≡◌, arith}

pow_le : (k : ℕ) → k ≤ 6 → (1 ≤ 2 ^ k) × (2 ^ k ≤ 64)
pow_le zero h = omega arith
pow_le (suc zero) h = omega arith
pow_le (suc (suc zero)) h = omega arith
pow_le (suc (suc (suc zero))) h = omega arith
pow_le (suc (suc (suc (suc zero)))) h = omega arith
pow_le (suc (suc (suc (suc (suc zero))))) h = omega arith
pow_le (suc (suc (suc (suc (suc (suc zero)))))) h = omega arith
pow_le (suc (suc (suc (suc (suc (suc (suc k))))))) h = absurd (omega arith)

mul_bounds : (a p : ℕ) → 1 ≤ p → p ≤ 64 → (a ≤ a * p) × (a * p ≤ a * 64)
mul_bounds a p h k = grind arith

min_int-le : (a : ℕ) → min_int a 6 ≤ 6
min_int-le a = ground arith

-- A base below 2 ^ 57 nanoseconds, more than four years, is doubled with each lock of the streak up
-- to 64 times, and cut off at one hour.
pub lock_length_lem :
    (lock_for streak : ℕ)
    → lock_for < 2 ^ 57
    → lock_length lock_for streak ≡ min (lock_for * 2 ^ min_int (streak - 1) 6) throttle_max_lock
unfolding lock_length
lock_length_lem lock_for streak small =
    let k = min_int (streak - 1) 6 in
    let (one, most) = pow_le k (min_int-le (streak - 1)) in
    ground (arith, mul_bounds lock_for (2 ^ k) one most)

pub lock_length_bounds :
    (lock_for streak : ℕ)
    → 0 < lock_for
    → lock_for < 2 ^ 57
    → (0 < lock_length lock_for streak) × (lock_length lock_for streak ≤ throttle_max_lock)
lock_length_bounds lock_for streak positive small =
    let k = min_int (streak - 1) 6 in
    let (one, most) = pow_le k (min_int-le (streak - 1)) in
    omega (arith, mul_bounds lock_for (2 ^ k) one most, lock_length_lem lock_for streak small)
