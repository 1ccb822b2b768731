-- ===== src/Transport/Pool/Once.antt =====
-- The connection that a pool hands out, after any sequence of calls.
use mathlib.Core.Path.{subst}
use wrtdeck.Prelude.{
  if◌then◌else◌, get-put, get, Text, nat_key, text_key, text_eq_refl, ℕ, ◌≡◌, refl, sym, ap, ◌∙◌,
  Bool, true, false, Option, none, some, List, [], ◌∷◌,
}
use wrtdeck.Registry.Mqtt.{Urls, normalize_broker_url}
use wrtdeck.Registry.Model.{MqttSpec}
use wrtdeck.Registry.Problem.{Checked, ok, err}
use wrtdeck.Transport.Pool.{
  Conn, Pool, new_pool, conn_key, stop_idle, at_conn, dial, take_conn, get_with_broker,
  get_or_create, runs_out, start_timer, is_among, without_one, is_idle, check_idle,
}
use wrtdeck.Transport.Pool.Runs.{
  call_conn, PoolCall, obtains, calls, starts_timer, checks, forgets, ends, closes, step_pool,
  run_pool, none-some, IsPool, new_pool-IsPool, IsTame, stop_idle-IsTame, call_conn-IsTame,
}
use wrtdeck.Transport.Pool.Dialled.{at_conn-IsPool, dial-IsPool}
use wrtdeck.Transport.Pool.Ended.{forget_idle-IsPool, end_conn-IsPool, close_pool-IsPool}

get_with_broker-IsPool :
    (spec : MqttSpec) (p : Pool) (broker : Checked Text)
    → IsPool p
    → IsPool (get_with_broker spec p broker).0
unfolding get_with_broker
get_with_broker-IsPool spec p (err e) v = v
get_with_broker-IsPool spec p (ok broker) v = by_end p.closed
  where
    key : Text
    key = conn_key broker spec.username spec.password spec.client_id

    by_map : (o : Option ℕ) → get key p.conns ≡ o → IsPool (take_conn broker key spec p o).0
    by_map none absent = dial-IsPool broker key spec p absent v
    by_map (some n) found = at_conn-IsPool stop_idle n p stop_idle-IsTame v

    by_end :
        (b : Bool)
        → IsPool (if b then (p, none) else take_conn broker key spec p (get key p.conns)).0
    by_end true = v
    by_end false = by_map (get key p.conns) refl

timer_off-IsTame : IsTame (λ c. record c { fires = false })
timer_off-IsTame = record { same_key = λ c. refl; same_closed = λ c. refl }

-- The lists of the functions that run do not matter.
relisted-IsPool :
    (p : Pool) (started checked : List ℕ)
    → IsPool p
    → IsPool (record p { started = started; checked = checked })
relisted-IsPool p started checked v = record {
  held = v.held;
  away = v.away;
  unbound = v.unbound;
  unended = v.unended;
  fresh = v.fresh;
}

start_timer-IsPool : (now n : ℕ) (p : Pool) → IsPool p → IsPool (start_timer now n p)
unfolding start_timer
start_timer-IsPool now n p v = by_test (runs_out now (get n p.heap))
  where
    stopped : Pool
    stopped = at_conn (λ c. record c { fires = false }) n p

    by_test : (b : Bool) → IsPool (if b then record stopped { started = n ∷ p.started } else p)
    by_test true =
        relisted-IsPool stopped (n ∷ p.started) p.checked (at_conn-IsPool _ n p timer_off-IsTame v)
    by_test false = v

check_idle-IsPool : (n : ℕ) (p : Pool) → IsPool p → IsPool (check_idle n p)
unfolding check_idle
check_idle-IsPool n p v = by_test (is_among n p.started)
  where
    left : List ℕ
    left = if is_idle (get n p.heap) then n ∷ p.checked else p.checked

    by_test :
        (b : Bool)
        → IsPool (if b then record p { started = without_one n p.started; checked = left } else p)
    by_test true = relisted-IsPool p (without_one n p.started) left v
    by_test false = v

step_pool-IsPool :
    (urls : Urls) (call : PoolCall) (p : Pool) → IsPool p → IsPool (step_pool urls call p)
unfolding step_pool get_or_create
step_pool-IsPool urls (obtains none) p v = v
step_pool-IsPool urls (obtains (some spec)) p v =
    get_with_broker-IsPool spec p (normalize_broker_url urls spec.broker) v
step_pool-IsPool urls (calls n call) p v =
    at_conn-IsPool (call_conn call) n p (call_conn-IsTame call) v
step_pool-IsPool urls (starts_timer now n) p v = start_timer-IsPool now n p v
step_pool-IsPool urls (checks n) p v = check_idle-IsPool n p v
step_pool-IsPool urls (forgets n) p v = forget_idle-IsPool n p v
step_pool-IsPool urls (ends n) p v = end_conn-IsPool n p v
step_pool-IsPool urls closes p v = close_pool-IsPool p v

run_pool-IsPool :
    (urls : Urls) (cs : List PoolCall) (p : Pool) → IsPool p → IsPool (run_pool urls cs p)
unfolding run_pool
run_pool-IsPool urls [] p v = v
run_pool-IsPool urls (call ∷ cs) p v =
    run_pool-IsPool urls cs (step_pool urls call p) (step_pool-IsPool urls call p v)

-- What holds of the connection that a pool hands out for a specification, and of the pool then.
pub record IsServed (urls : Urls) (spec : MqttSpec) (p : Pool) (n : ℕ) : Type 0 where
  pub broker : Text
  pub normalised : normalize_broker_url urls spec.broker ≡ ok broker
  pub conn : Conn
  pub found : get n p.heap ≡ some conn
  pub named : conn.key ≡ conn_key broker spec.username spec.password spec.client_id
  pub is_open : conn.closed ≡ false
  pub held : get conn.key p.conns ≡ some n
  pub shared : (get_or_create urls (some spec) p).1 ≡ some n

-- The answer for a broker that is normalised.
module _ (urls : Urls) (spec : MqttSpec) (broker : Text) (n : ℕ) (q : Pool)
    (normal : normalize_broker_url urls spec.broker ≡ ok broker) where
  abbrev spec_key : Text
  spec_key = conn_key broker spec.username spec.password spec.client_id

  served : IsPool q → get spec_key q.conns ≡ some n → q.closed ≡ false → IsServed urls spec q n
  unfolding get_or_create get_with_broker
  served v bound lasts =
      let (c, found, same, o) = v.held spec_key n bound in
      record {
        broker = broker;
        normalised = normal;
        conn = c;
        found = found;
        named = same;
        is_open = o;
        held = ap (λ (k : Text). get k q.conns) same ∙ bound;
        shared =
            ap (λ (b : Checked Text). (get_with_broker spec q b).1) normal
            ∙ ap
                (λ (b : Bool).
                  (if b
                    then (q, none)
                    else take_conn broker spec_key spec q (get spec_key q.conns)).1)
                lasts
            ∙ ap (λ (o : Option ℕ). (take_conn broker spec_key spec q o).1) bound;
      }

  taken :
      (p : Pool) (o : Option ℕ)
      → get spec_key p.conns ≡ o
      → p.closed ≡ false
      → take_conn broker spec_key spec p o ≡ (q, some n)
      → (get spec_key q.conns ≡ some n) × (q.closed ≡ false)
  taken p none at lasts h =
      let made : (dial broker spec_key spec p).0 ≡ q = ap (λ (a : Pool × Option ℕ). a.0) h in
      let number : some p.next_conn ≡ some n = ap (λ (a : Pool × Option ℕ). a.1) h in
      (
        ap (λ (r : Pool). get spec_key r.conns) (sym made)
            ∙ get-put spec_key spec_key p.next_conn p.conns
            ∙ ap (λ (b : Bool). if b then some p.next_conn else get spec_key p.conns)
                (text_eq_refl spec_key)
            ∙ number,
        ap (λ (r : Pool). r.closed) (sym made) ∙ lasts,
      )
  taken p (some m) at lasts h =
      let made : at_conn stop_idle m p ≡ q = ap (λ (a : Pool × Option ℕ). a.0) h in
      let number : some m ≡ some n = ap (λ (a : Pool × Option ℕ). a.1) h in
      (
        ap (λ (r : Pool). get spec_key r.conns) (sym made) ∙ at ∙ number,
        ap (λ (r : Pool). r.closed) (sym made) ∙ lasts,
      )

  by_end :
      (p : Pool) (b : Bool)
      → p.closed ≡ b
      → (if b then (p, none) else take_conn broker spec_key spec p (get spec_key p.conns))
        ≡ (q, some n)
      → (get spec_key q.conns ≡ some n) × (q.closed ≡ false)
  by_end p true e h = absurd (none-some (ap (λ (a : Pool × Option ℕ). a.1) h))
  by_end p false e h = taken p (get spec_key p.conns) refl e h

get_with_broker-IsServed :
    (urls : Urls) (spec : MqttSpec) (p q : Pool) (n : ℕ) (b : Checked Text)
    → normalize_broker_url urls spec.broker ≡ b
    → IsPool q
    → get_with_broker spec p b ≡ (q, some n)
    → IsServed urls spec q n
unfolding get_with_broker
get_with_broker-IsServed urls spec p q n (err e) normal v h =
    absurd (none-some (ap (λ (a : Pool × Option ℕ). a.1) h))
get_with_broker-IsServed urls spec p q n (ok broker) normal v h =
    let (bound, lasts) = by_end urls spec broker n q normal p p.closed refl h in
    served urls spec broker n q normal v bound lasts

-- After any steps on a new pool, in any order of requests for connections, changes of
-- subscriptions, the separate steps of the functions of timers and of shutdowns, and the end of the
-- pool, a connection that is handed out for a specification is not closed, has the key of its
-- credentials and its normalised broker, and is the one that the pool keeps under that key: the
-- next request for the same specification gets the same one.
pub get_or_create-IsServed :
    (urls : Urls) (cs : List PoolCall) (spec : MqttSpec) (n : ℕ) (q : Pool)
    → get_or_create urls (some spec) (run_pool urls cs new_pool) ≡ (q, some n)
    → IsServed urls spec q n
unfolding get_or_create
get_or_create-IsServed urls cs spec n q h =
    let p = run_pool urls cs new_pool in
    let v = run_pool-IsPool urls cs new_pool new_pool-IsPool in
    let after : IsPool (get_or_create urls (some spec) p).0 =
      get_with_broker-IsPool spec p (normalize_broker_url urls spec.broker) v in
    get_with_broker-IsServed urls spec p q n (normalize_broker_url urls spec.broker) refl
      (subst IsPool (ap (λ (a : Pool × Option ℕ). a.0) h) after) h
