-- ===== src/Config/Settings/Repaired.antt =====
-- What the repair of a configuration gives.
use mathlib.Core.Path.{subst}
use wrtdeck.Prelude.{
  if◌then◌else◌, is_empty, Text, nat_key, text_key, ℤ, is_positive, Reading, not_exist, unreadable,
  contents, ℕ, ◌<◌, ◌≡◌, refl, Bool, true, false, Option, none, some, [], ◌∷◌, arith,
}
use wrtdeck.Config.Settings.{
  default_listen, Config, default_config, or_fallback, normalize, ConfigCodec, normalized,
  parse_config, at_path, load_config,
}

-- The limits that the rest of the program counts on.
pub record IsUsable (c : Config) : Type 0 where
  pub listens : is_empty c.listen ≡ false
  pub sources : is_positive c.workers.source ≡ true
  pub actions : is_positive c.workers.action ≡ true
  pub bodies : is_positive c.limits.max_body_bytes ≡ true
  pub requests : is_positive c.limits.max_request_bytes ≡ true
  pub timeouts : is_positive c.limits.default_timeout_ms ≡ true
  pub intervals : is_positive c.limits.min_interval_ms ≡ true
  pub keepalive : is_positive c.mqtt.keepalive_seconds ≡ true
  pub connects : is_positive c.mqtt.connect_timeout_ms ≡ true
  pub reconnects : is_positive c.mqtt.max_reconnect_delay_ms ≡ true

is_positive-or_fallback :
    (fallback : ℕ) (n : ℤ) → 0 < fallback → is_positive (or_fallback fallback n) ≡ true
is_positive-or_fallback fallback n h = ground arith

-- A value that is positive is kept.
or_fallback_positive : (fallback : ℕ) (n : ℤ) → is_positive n ≡ true → or_fallback fallback n ≡ n
or_fallback_positive fallback n h = rw h refl

listen_lem : (t : Text) → is_empty (if is_empty t then default_listen else t) ≡ false
listen_lem [] = refl
listen_lem (c ∷ t) = refl

pub normalize-IsUsable : (c : Config) → IsUsable (normalize c)
unfolding normalize
normalize-IsUsable c = record {
  listens = listen_lem c.listen;
  sources = is_positive-or_fallback 4 c.workers.source (omega arith);
  actions = is_positive-or_fallback 4 c.workers.action (omega arith);
  bodies = is_positive-or_fallback 262144 c.limits.max_body_bytes (omega arith);
  requests = is_positive-or_fallback 65536 c.limits.max_request_bytes (omega arith);
  timeouts = is_positive-or_fallback 5000 c.limits.default_timeout_ms (omega arith);
  intervals = is_positive-or_fallback 1000 c.limits.min_interval_ms (omega arith);
  keepalive = is_positive-or_fallback 30 c.mqtt.keepalive_seconds (omega arith);
  connects = is_positive-or_fallback 5000 c.mqtt.connect_timeout_ms (omega arith);
  reconnects = is_positive-or_fallback 30000 c.mqtt.max_reconnect_delay_ms (omega arith);
}

listen_kept : (t : Text) → is_empty t ≡ false → (if is_empty t then default_listen else t) ≡ t
listen_kept [] h = cc
listen_kept (c ∷ t) h = refl

-- A usable configuration is left as it is.
normalize_usable : (c : Config) → IsUsable c → normalize c ≡ c
unfolding normalize
normalize_usable c v = λ i. record c {
  listen = listen_kept c.listen v.listens i;
  workers = record {
    source = or_fallback_positive 4 c.workers.source v.sources i;
    action = or_fallback_positive 4 c.workers.action v.actions i;
  };
  limits = record {
    max_body_bytes = or_fallback_positive 262144 c.limits.max_body_bytes v.bodies i;
    max_request_bytes = or_fallback_positive 65536 c.limits.max_request_bytes v.requests i;
    default_timeout_ms = or_fallback_positive 5000 c.limits.default_timeout_ms v.timeouts i;
    min_interval_ms = or_fallback_positive 1000 c.limits.min_interval_ms v.intervals i;
    history_limit = c.limits.history_limit;
  };
  mqtt = record {
    keepalive_seconds = or_fallback_positive 30 c.mqtt.keepalive_seconds v.keepalive i;
    connect_timeout_ms = or_fallback_positive 5000 c.mqtt.connect_timeout_ms v.connects i;
    max_reconnect_delay_ms =
        or_fallback_positive 30000 c.mqtt.max_reconnect_delay_ms v.reconnects i;
  };
}

IsUsable-path : (path : Bool) (c : Config) → IsUsable c → IsUsable (record c { path = path })
IsUsable-path path c v = record {
  listens = v.listens;
  sources = v.sources;
  actions = v.actions;
  bodies = v.bodies;
  requests = v.requests;
  timeouts = v.timeouts;
  intervals = v.intervals;
  keepalive = v.keepalive;
  connects = v.connects;
  reconnects = v.reconnects;
}

read-IsUsable :
    (path : Bool) (o : Option Config) (c : Config)
    → at_path path (normalized o) ≡ some c
    → (IsUsable c) × (normalize c ≡ c)
read-IsUsable path none c e = cc
read-IsUsable path (some d) c e =
    let same : record (normalize d) { path = path } ≡ c = cc in
    let v = subst IsUsable same (IsUsable-path path (normalize d) (normalize-IsUsable d)) in
    (v, normalize_usable c v)

default_config-IsUsable : IsUsable default_config
unfolding default_config
default_config-IsUsable = record {
  listens = refl;
  sources = refl;
  actions = refl;
  bodies = refl;
  requests = refl;
  timeouts = refl;
  intervals = refl;
  keepalive = refl;
  connects = refl;
  reconnects = refl;
}

written-IsUsable :
    (path saved : Bool) (c : Config)
    → (if saved then some (record default_config { path = path }) else none) ≡ some c
    → (IsUsable c) × (normalize c ≡ c)
written-IsUsable path false c e = cc
written-IsUsable path true c e =
    let same : record default_config { path = path } ≡ c = cc in
    let v = subst IsUsable same (IsUsable-path path default_config default_config-IsUsable) in
    (v, normalize_usable c v)

-- A configuration that is loaded, from a file or as the defaults, has an address to listen at, and
-- positive counts of workers for sources and for actions, a positive limit of the bytes of a body
-- and of a request, a positive default timeout and least interval, and a positive keepalive,
-- connect timeout and reconnect delay of MQTT; `normalize` leaves it as it is.
pub load_config-IsUsable :
    (codec : ConfigCodec) (written path : Bool) (reading : Reading) (c : Config)
    → (load_config codec written path reading).0 ≡ some c
    → (IsUsable c) × (normalize c ≡ c)
unfolding load_config parse_config
load_config-IsUsable codec written path not_exist c e = written-IsUsable path _ c e
load_config-IsUsable codec written path unreadable c e = cc
load_config-IsUsable codec written path (contents content) c e =
    read-IsUsable path (codec.decode content default_config) c e
