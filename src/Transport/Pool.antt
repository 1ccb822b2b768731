-- ===== src/Transport/Pool.antt =====
-- internal/transport/mqttpool.go and mqtttopic.go: the connections that entries share, by their keys. A
-- connection is named by a number, since calls hold it while the map forgets it. The client of each
-- connection is that of internal/mqtt, of which only the answer of `SetSubscriptions` matters here.
pub mod Desired
pub mod Runs
pub mod Dialled
pub mod Ended
pub mod Once
use wrtdeck.Prelude.{
  ltb, leb, ◌==◌, if◌then◌else◌, is_some, length, is_empty, Dict, get, put, delete, values, Text,
  nat_key, text_key, codes, ℤ, ltz, join, bytes_of, ℕ, zero, suc, ◌+◌, ◌-◌, ◌*◌, ◌/◌, ◌%◌, ◌^◌,
  bit_and, Bool, true, false, not, ◌&&◌, ◌||◌, Option, none, some, List, [], ◌∷◌, ◌++◌,
}
use wrtdeck.Registry.Model.{MqttSpec}
use wrtdeck.Registry.Problem.{Checked, ok, err}
use wrtdeck.Registry.Mqtt.{Urls, normalize_broker_url}
use wrtdeck.Mqtt.Topic.{topic_matches}

abbrev pub mqtt_idle_timeout : ℕ
mqtt_idle_timeout = 60000000000

-- A handler is a number of the caller's.
pub record Subscription : Type 0 where
  pub topic : Text
  pub qos : ℤ
  pub handler : ℕ

-- `idle` is the time at which the timer runs out, and `fires` whether it still will.
pub record Conn : Type 0 where
  pub key : Text
  pub url : Text
  pub client_id : Text
  pub next_sub : ℕ
  pub subs : Dict ℕ Subscription
  pub idle : Option ℕ
  pub fires : Bool
  pub closed : Bool

-- The function of a timer locks three times. `started` holds the connections whose function runs,
-- `checked` those that it found idle and `ending` those that it, or the end of the pool, has taken from the
-- map and is about to shut down.
pub record Pool : Type 0 where
  pub heap : Dict ℕ Conn
  pub next_conn : ℕ
  pub conns : Dict Text ℕ
  pub closed : Bool
  pub started : List ℕ
  pub checked : List ℕ
  pub ending : List ℕ

abbrev pub new_pool : Pool
new_pool = record {
  heap = [];
  next_conn = 0;
  conns = [];
  closed = false;
  started = [];
  checked = [];
  ending = [];
}

-- `a ^ b` on bytes and words.
abbrev pub bit_xor : ℕ → ℕ → ℕ
bit_xor a b = a + b - 2 * bit_and a b

-- FNV-1a with 32 bits.
unfoldable pub fnv_from : ℕ → List ℕ → ℕ
fnv_from h [] = h
fnv_from h (b ∷ bytes) = fnv_from (bit_xor h b * 16777619 % 2 ^ 32) bytes

abbrev pub hex_lower : ℕ → ℕ
hex_lower n = if ltb n 10 then b'0' + n else b'a' + (n - 10)

-- `%08x`
unfoldable pub hex_digits : ℕ → ℕ → Text
hex_digits zero n = []
hex_digits (suc width) n = hex_digits width (n / 16) ++ hex_lower (n % 16) ∷ []

unfoldable pub derive_client_id : Text → Text
unfolding fnv_from hex_digits bytes_of
derive_client_id key = codes "wrtdeck-" ++ hex_digits 8 (fnv_from 2166136261 (bytes_of key))

unfoldable pub conn_key : Text → Text → Text → Text → Text
conn_key broker username password client_id = join 0 (broker ∷ username ∷ password ∷ client_id ∷ [])

-- `dial`
abbrev pub new_conn : Text → Text → MqttSpec → Conn
new_conn broker key spec = record {
  key = key;
  url = broker;
  client_id = if is_empty spec.client_id then derive_client_id key else spec.client_id;
  next_sub = 0;
  subs = [];
  idle = none;
  fires = false;
  closed = false;
}

unfoldable pub stop_idle : Conn → Conn
stop_idle c = record c { idle = none; fires = false }

abbrev pub change_conn : (Conn → Conn) → ℕ → Option Conn → Dict ℕ Conn → Dict ℕ Conn
change_conn f n none heap = heap
change_conn f n (some c) heap = put n (f c) heap

-- Changes one connection.
abbrev pub at_conn : (Conn → Conn) → ℕ → Pool → Pool
at_conn f n p = record p { heap = change_conn f n (get n p.heap) p.heap }

abbrev pub dial : Text → Text → MqttSpec → Pool → Pool × Option ℕ
dial broker key spec p = (
  record p {
    heap = put p.next_conn (new_conn broker key spec) p.heap;
    next_conn = p.next_conn + 1;
    conns = put key p.next_conn p.conns;
  },
  some p.next_conn,
)

abbrev pub take_conn : Text → Text → MqttSpec → Pool → Option ℕ → Pool × Option ℕ
take_conn broker key spec p none = dial broker key spec p
take_conn broker key spec p (some n) = (at_conn stop_idle n p, some n)

unfoldable pub get_with_broker : MqttSpec → Pool → Checked Text → Pool × Option ℕ
unfolding conn_key stop_idle derive_client_id
get_with_broker spec p (err e) = (p, none)
get_with_broker spec p (ok broker) =
    let key = conn_key broker spec.username spec.password spec.client_id in
    if p.closed then (p, none) else take_conn broker key spec p (get key p.conns)

unfoldable pub get_or_create : Urls → Option MqttSpec → Pool → Pool × Option ℕ
unfolding get_with_broker normalize_broker_url
get_or_create urls none p = (p, none)
get_or_create urls (some spec) p = get_with_broker spec p (normalize_broker_url urls spec.broker)

-- `qos, ok := out[sub.topic]; !ok || sub.qos > qos`
abbrev pub raises : ℤ → Option ℤ → Bool
raises qos none = true
raises qos (some old) = ltz old qos

unfoldable pub desired_from : Dict Text ℤ → Dict ℕ Subscription → Dict Text ℤ
desired_from out [] = out
desired_from out ((id, sub) ∷ subs) =
    desired_from (if raises sub.qos (get sub.topic out) then put sub.topic sub.qos out else out)
      subs

unfoldable pub desired_locked : Conn → Dict Text ℤ
unfolding desired_from
desired_locked c = desired_from [] c.subs

-- The answer is the identifier, where the broker took the subscriptions that are wanted now.
unfoldable pub add_subscription : (Dict Text ℤ → Bool) → Text → ℤ → ℕ → Conn → Conn × Option ℕ
unfolding desired_locked
add_subscription accepts topic qos handler c =
    if c.closed
    then (c, none)
    else let id = c.next_sub + 1 in
      let sub : Subscription = record { topic = topic; qos = qos; handler = handler } in
      let added = record c { next_sub = id; subs = put id sub c.subs } in
      if accepts (desired_locked added)
      then (added, some id)
      else (record added { subs = delete id added.subs }, none)

-- The subscriptions that are asked for afterwards, where there was one to remove.
unfoldable pub remove_subscription : ℕ → Conn → Conn × Option (Dict Text ℤ)
unfolding desired_locked
remove_subscription id c =
    let removed = record c { subs = delete id c.subs } in
    if is_some (get id c.subs) then (removed, some (desired_locked removed)) else (c, none)

-- The handlers that a message reaches.
unfoldable pub matching : Text → Dict ℕ Subscription → List ℕ
unfolding topic_matches
matching topic [] = []
matching topic ((id, sub) ∷ subs) =
    let rest = matching topic subs in
    if topic_matches sub.topic topic then sub.handler ∷ rest else rest

unfoldable pub on_message : Text → Conn → List ℕ
unfolding matching
on_message topic c = matching topic c.subs

unfoldable pub arm_idle : ℕ → Conn → Conn
arm_idle now c =
    if c.closed || not (is_empty c.subs) || is_some c.idle
    then c
    else record c { idle = some (now + mqtt_idle_timeout); fires = true }

unfoldable pub shutdown : Conn → Conn
shutdown c = if c.closed then c else record c { closed = true; idle = none; fires = false }

unfoldable pub forget : Text → Pool → Pool
forget key p = record p { conns = delete key p.conns }

abbrev pub is_ripe : ℕ → Option ℕ → Bool
is_ripe now none = false
is_ripe now (some at) = leb at now

abbrev pub runs_out : ℕ → Option Conn → Bool
runs_out now none = false
runs_out now (some c) = c.fires && is_ripe now c.idle

-- The timer runs out, and its function starts. `Stop` no longer keeps it from running.
unfoldable pub start_timer : ℕ → ℕ → Pool → Pool
start_timer now n p =
    if runs_out now (get n p.heap)
    then record (at_conn (λ c. record c { fires = false }) n p) { started = n ∷ p.started }
    else p

unfoldable pub is_among : ℕ → List ℕ → Bool
is_among n [] = false
is_among n (m ∷ ms) = (m == n) || is_among n ms

unfoldable pub without_one : ℕ → List ℕ → List ℕ
without_one n [] = []
without_one n (m ∷ ms) = let rest = without_one n ms in if m == n then ms else m ∷ rest

abbrev pub is_idle : Option Conn → Bool
is_idle none = false
is_idle (some c) = is_empty c.subs

-- `idle_now`
unfoldable pub check_idle : ℕ → Pool → Pool
unfolding is_among without_one
check_idle n p =
    if is_among n p.started
    then record p {
      started = without_one n p.started;
      checked = if is_idle (get n p.heap) then n ∷ p.checked else p.checked;
    }
    else p

abbrev pub forget_found : ℕ → Pool → Option Conn → Pool
forget_found n p none = p
forget_found n p (some c) = record (forget c.key p) {
  checked = without_one n p.checked;
  ending = n ∷ p.ending;
}

-- `c.pool.forget(c.key)`
unfoldable pub forget_idle : ℕ → Pool → Pool
unfolding is_among without_one forget
forget_idle n p = if is_among n p.checked then forget_found n p (get n p.heap) else p

-- `c.shutdown()`
unfoldable pub end_conn : ℕ → Pool → Pool
unfolding is_among without_one shutdown
end_conn n p =
    if is_among n p.ending
    then record (at_conn shutdown n p) { ending = without_one n p.ending }
    else p

unfoldable pub conn_count : Pool → ℕ
conn_count p = length p.conns

-- The connections of the map are shut down one by one, each by a step of its own.
unfoldable pub close_pool : Pool → Pool
close_pool p = record p { closed = true; conns = []; ending = values p.conns ++ p.ending }
