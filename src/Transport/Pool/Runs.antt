-- ===== src/Transport/Pool/Runs.antt =====
-- The connections of a pool through any sequence of calls.

use wrtdeck.Prelude.{
  ◌==◌, if◌then◌else◌, ==_iff, Bool-cases, get-put, Dict, get, values, Text, nat_key, text_key, ℤ,
  ℕ, ◌≤◌, ◌≡◌, refl, sym, ap, ◌∙◌, inl, inr, Bool, true, false, Option, none, some, List, [], ◌∷◌,
  arith,
}
use wrtdeck.Registry.Model.{MqttSpec}
use wrtdeck.Registry.Mqtt.{Urls}
use wrtdeck.Transport.Pool.{
  Conn, Pool, new_pool, stop_idle, change_conn, at_conn, get_or_create, add_subscription,
  remove_subscription, arm_idle, start_timer, is_among, check_idle, forget_idle, end_conn,
  close_pool,
}

-- What is done to one connection.
pub data ConnCall : Type 0 where
  adds : (Dict Text ℤ → Bool) → Text → ℤ → ℕ → ConnCall
  removes : ℕ → ConnCall
  arms : ℕ → ConnCall

unfoldable pub call_conn : ConnCall → Conn → Conn
unfolding add_subscription remove_subscription arm_idle
call_conn (adds accepts topic qos handler) c = (add_subscription accepts topic qos handler c).0
call_conn (removes id) c = (remove_subscription id c).0
call_conn (arms now) c = arm_idle now c

pub data PoolCall : Type 0 where
  obtains : Option MqttSpec → PoolCall
  calls : ℕ → ConnCall → PoolCall
  starts_timer : (now n : ℕ) → PoolCall
  checks forgets ends : ℕ → PoolCall
  closes : PoolCall

unfoldable pub step_pool : Urls → PoolCall → Pool → Pool
unfolding get_or_create call_conn start_timer check_idle forget_idle end_conn close_pool
step_pool urls (obtains spec) p = (get_or_create urls spec p).0
step_pool urls (calls n call) p = at_conn (call_conn call) n p
step_pool urls (starts_timer now n) p = start_timer now n p
step_pool urls (checks n) p = check_idle n p
step_pool urls (forgets n) p = forget_idle n p
step_pool urls (ends n) p = end_conn n p
step_pool urls closes p = close_pool p

unfoldable pub run_pool : Urls → List PoolCall → Pool → Pool
unfolding step_pool
run_pool urls [] p = p
run_pool urls (call ∷ rest) p = run_pool urls rest (step_pool urls call p)

pub none-some {ℓ} : {A : Type ℓ} {a : A} → none ≡ some a → ⊥
none-some h = cc

-- The map holds connections that are open, each under its key, and none that is about to be shut
-- down.
pub record IsPool (p : Pool) : Type 0 where
  pub held :
      (key : Text) (n : ℕ)
      → get key p.conns ≡ some n
      → (c : Conn) × (get n p.heap ≡ some c) × (c.key ≡ key) × (c.closed ≡ false)
  pub away : (key : Text) (n : ℕ) → get key p.conns ≡ some n → is_among n p.ending ≡ false
  pub unbound : (n : ℕ) → p.next_conn ≤ n → is_among n (values p.conns) ≡ false
  pub unended : (n : ℕ) → p.next_conn ≤ n → is_among n p.ending ≡ false
  pub fresh : (n : ℕ) → p.next_conn ≤ n → get n p.heap ≡ none

pub new_pool-IsPool : IsPool new_pool
unfolding get is_among values
new_pool-IsPool = record {
  held = λ key n h. absurd (none-some h);
  away = λ key n h. refl;
  unbound = λ n h. refl;
  unended = λ n h. refl;
  fresh = λ n h. refl;
}

-- A change that leaves the key and whether the connection is closed.
pub record IsTame (f : Conn → Conn) : Type 0 where
  pub same_key : (c : Conn) → (f c).key ≡ c.key
  pub same_closed : (c : Conn) → (f c).closed ≡ c.closed

arm_idle-IsTame : (now : ℕ) → IsTame (arm_idle now)
unfolding arm_idle
arm_idle-IsTame now = record { same_key = λ c. ground arith; same_closed = λ c. ground arith }

pub stop_idle-IsTame : IsTame stop_idle
unfolding stop_idle
stop_idle-IsTame = record { same_key = λ c. refl; same_closed = λ c. refl }

pub call_conn-IsTame : (call : ConnCall) → IsTame (call_conn call)
unfolding call_conn add_subscription remove_subscription
call_conn-IsTame (adds accepts topic qos handler) = record {
  same_key = λ c. ground arith;
  same_closed = λ c. ground arith;
}
call_conn-IsTame (removes id) = record {
  same_key = λ c. ground arith;
  same_closed = λ c. ground arith;
}
call_conn-IsTame (arms now) = arm_idle-IsTame now

abbrev pub mapped : (Conn → Conn) → Option Conn → Option Conn
mapped f none = none
mapped f (some c) = some (f c)

mapped_shape :
    (f : Conn → Conn) (o : Option Conn) (d : Conn)
    → mapped f o ≡ some d
    → (c : Conn) × (o ≡ some c) × (f c ≡ d)
mapped_shape f none d h = absurd (none-some h)
mapped_shape f (some c) d h = (c, refl, cc)

get-change_conn :
    (f : Conn → Conn) (n j : ℕ) (heap : Dict ℕ Conn) (o : Option Conn)
    → get n heap ≡ o
    → get j (change_conn f n o heap) ≡ (if n == j then mapped f (get j heap) else get j heap)
get-change_conn f n j heap o e = elim (Bool-cases (n == j)) [
  | inr other ↦ rw other (unchanged o other)
  | inl same ↦ rw same (changed o (ap (λ (k : ℕ). get k heap) (sym ((==_iff n j).0 same)) ∙ e) same)
]
  where
    unchanged : (o : Option Conn) → (n == j) ≡ false → get j (change_conn f n o heap) ≡ get j heap
    unchanged none other = refl
    unchanged (some c) other =
        get-put j n (f c) heap ∙ ap (λ (b : Bool). if b then some (f c) else get j heap) other

    changed :
        (o : Option Conn)
        → get j heap ≡ o
        → (n == j) ≡ true
        → get j (change_conn f n o heap) ≡ mapped f (get j heap)
    changed none found same = found ∙ ap (mapped f) (sym found)
    changed (some c) found same =
        get-put j n (f c) heap
        ∙ ap (λ (b : Bool). if b then some (f c) else get j heap) same
        ∙ ap (mapped f) (sym found)

-- What is found after one connection has changed.
pub get-at_conn :
    (f : Conn → Conn) (n j : ℕ) (p : Pool)
    → get j (at_conn f n p).heap ≡ (if n == j then mapped f (get j p.heap) else get j p.heap)
get-at_conn f n j p = get-change_conn f n j p.heap (get n p.heap) refl

-- Where something is found, it was found before, and may have changed.
pub get-at_conn-some :
    (f : Conn → Conn) (n j : ℕ) (p : Pool) (d : Conn)
    → get j (at_conn f n p).heap ≡ some d
    → (c : Conn) × (get j p.heap ≡ some c) × ((if n == j then f c else c) ≡ d)
get-at_conn-some f n j p d h = by_test (n == j) (sym (get-at_conn f n j p) ∙ h)
  where
    by_test :
        (b : Bool)
        → (if b then mapped f (get j p.heap) else get j p.heap) ≡ some d
        → (c : Conn) × (get j p.heap ≡ some c) × ((if b then f c else c) ≡ d)
    by_test true e = mapped_shape f (get j p.heap) d e
    by_test false e = (d, e, refl)
