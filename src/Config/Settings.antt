-- ===== src/Config/Settings.antt =====
-- internal/config/config.go: the settings of the daemon, their defaults and their repair. A flag that may
-- be left out is an `Option`; a duration is the pattern of a signed 64-bit count of nanoseconds.
pub mod Repaired
use wrtdeck.Prelude.{
  ◌==◌, if◌then◌else◌, is_empty, Text, text_eq, nat_key, text_key, codes, ℤ, pos, nat_of,
  is_positive, mul_duration, trim_space, contains, Reading, not_exist, unreadable, contents, ℕ,
  Bool, true, false, ◌||◌, Option, none, some, List, [], ◌∷◌, ◌++◌, reverse,
}

abbrev pub default_listen : Text
default_listen = codes "127.0.0.1:8080"

abbrev pub default_session_ttl_minutes : ℕ
default_session_ttl_minutes = 720

abbrev pub default_max_login_attempts : ℕ
default_max_login_attempts = 5

abbrev pub default_lockout_minutes : ℕ
default_lockout_minutes = 15

abbrev pub default_gateway_timeout_ms : ℕ
default_gateway_timeout_ms = 15000

pub record AuthConfig : Type 0 where
  pub disabled : Bool
  pub token_env : Text
  pub session_ttl_minutes : ℤ
  pub max_login_attempts : ℤ
  pub lockout_minutes : ℤ
  pub trusted_proxies : List Text
  pub allowed_hosts : List Text

pub record TlsConfig : Type 0 where
  pub enabled : Bool
  pub cert_file : Text
  pub key_file : Text
  pub auto_self_signed : Option Bool
  pub redirect_listen : Text

pub record GatewayConfig : Type 0 where
  pub upstream : Text
  pub verify_luci_session : Option Bool
  pub inject_token : Option Bool
  pub timeout_ms : ℤ

pub record ExecConfig : Type 0 where
  pub enabled : Bool
  pub blocklist : List Text
  pub allowlist : List Text

pub record LimitsConfig : Type 0 where
  pub max_body_bytes : ℤ
  pub max_request_bytes : ℤ
  pub default_timeout_ms : ℤ
  pub min_interval_ms : ℤ
  pub history_limit : ℤ

pub record WorkerConfig : Type 0 where
  pub source : ℤ
  pub action : ℤ

pub record MqttConfig : Type 0 where
  pub keepalive_seconds : ℤ
  pub connect_timeout_ms : ℤ
  pub max_reconnect_delay_ms : ℤ

-- `path` is whether there is a file to save to.
pub record Config : Type 0 where
  pub listen : Text
  pub data_dir : Text
  pub seed_demo : Bool
  pub auth : AuthConfig
  pub tls : TlsConfig
  pub gateway : GatewayConfig
  pub exec : ExecConfig
  pub limits : LimitsConfig
  pub workers : WorkerConfig
  pub mqtt : MqttConfig
  pub path : Bool

-- `p == nil || *p`
abbrev pub is_on : Option Bool → Bool
is_on none = true
is_on (some b) = b

unfoldable pub self_signed_enabled : TlsConfig → Bool
self_signed_enabled t = is_on t.auto_self_signed

-- A number that is not positive is the default.
abbrev pub nat_or : ℕ → ℤ → ℕ
nat_or fallback n = if is_positive n then nat_of n else fallback

unfoldable pub session_ttl : AuthConfig → ℕ
session_ttl a = mul_duration (nat_or default_session_ttl_minutes a.session_ttl_minutes) 60000000000

unfoldable pub max_attempts : AuthConfig → ℕ
max_attempts a = nat_or default_max_login_attempts a.max_login_attempts

unfoldable pub lockout : AuthConfig → ℕ
lockout a = mul_duration (nat_or default_lockout_minutes a.lockout_minutes) 60000000000

unfoldable pub verify_luci : GatewayConfig → Bool
verify_luci g = is_on g.verify_luci_session

unfoldable pub inject : GatewayConfig → Bool
inject g = is_on g.inject_token

unfoldable pub gateway_timeout : GatewayConfig → ℕ
gateway_timeout g = mul_duration (nat_or default_gateway_timeout_ms g.timeout_ms) 1000000

-- `strings.TrimRight(s, "/")`
abbrev pub drop_slashes : Text → Text
drop_slashes [] = []
drop_slashes (c ∷ s) = if c == b'/' then drop_slashes s else c ∷ s

abbrev pub trim_slashes : Text → Text
trim_slashes s = reverse (drop_slashes (reverse s))

-- `net.JoinHostPort`
abbrev pub join_host_port : Text → Text → Text
join_host_port host port =
    if contains b':' host then b'[' ∷ host ++ b']' ∷ b':' ∷ port else host ++ b':' ∷ port

abbrev pub loopback_of : Text → Text
loopback_of host =
    if is_empty host
      || text_eq host (codes "0.0.0.0")
      || text_eq host (codes "::")
      || text_eq host (codes "[::]")
    then codes "127.0.0.1"
    else host

abbrev pub upstream_at : Text → Option (Text × Text) → Text
upstream_at scheme none = scheme ++ codes "://127.0.0.1:8080"
upstream_at scheme (some (host, port)) =
    scheme ++ codes "://" ++ join_host_port (loopback_of host) port

-- The first argument is `net.SplitHostPort`.
unfoldable pub upstream_url : (Text → Option (Text × Text)) → Config → Text
upstream_url split_host_port c =
    let base = trim_space c.gateway.upstream in
    if is_empty base
    then upstream_at (if c.tls.enabled then codes "https" else codes "http")
        (split_host_port c.listen)
    else trim_slashes base

unfoldable pub default_config : Config
default_config = record {
  listen = default_listen;
  data_dir = [];
  seed_demo = false;
  auth = record {
    disabled = false;
    token_env = [];
    session_ttl_minutes = pos 0;
    max_login_attempts = pos 0;
    lockout_minutes = pos 0;
    trusted_proxies = [];
    allowed_hosts = [];
  };
  tls = record {
    enabled = false;
    cert_file = [];
    key_file = [];
    auto_self_signed = none;
    redirect_listen = [];
  };
  gateway = record {
    upstream = [];
    verify_luci_session = none;
    inject_token = none;
    timeout_ms = pos 0;
  };
  exec = record { enabled = false; blocklist = []; allowlist = [] };
  limits = record {
    max_body_bytes = pos 262144;
    max_request_bytes = pos 65536;
    default_timeout_ms = pos 5000;
    min_interval_ms = pos 1000;
    history_limit = pos 0;
  };
  workers = record { source = pos 4; action = pos 4 };
  mqtt = record {
    keepalive_seconds = pos 30;
    connect_timeout_ms = pos 5000;
    max_reconnect_delay_ms = pos 30000;
  };
  path = false;
}

-- A number that is not positive becomes the default.
abbrev pub or_fallback : ℕ → ℤ → ℤ
or_fallback fallback n = if is_positive n then n else pos fallback

unfoldable pub normalize : Config → Config
normalize c = record c {
  listen = if is_empty c.listen then default_listen else c.listen;
  workers = record {
    source = or_fallback 4 c.workers.source;
    action = or_fallback 4 c.workers.action;
  };
  limits = record {
    max_body_bytes = or_fallback 262144 c.limits.max_body_bytes;
    max_request_bytes = or_fallback 65536 c.limits.max_request_bytes;
    default_timeout_ms = or_fallback 5000 c.limits.default_timeout_ms;
    min_interval_ms = or_fallback 1000 c.limits.min_interval_ms;
    history_limit = c.limits.history_limit;
  };
  mqtt = record {
    keepalive_seconds = or_fallback 30 c.mqtt.keepalive_seconds;
    connect_timeout_ms = or_fallback 5000 c.mqtt.connect_timeout_ms;
    max_reconnect_delay_ms = or_fallback 30000 c.mqtt.max_reconnect_delay_ms;
  };
}

-- What `encoding/json` writes of a configuration, and reads from a text over a configuration.
pub record ConfigCodec : Type 0 where
  pub encode : Config → Text
  pub decode : Text → Config → Option Config

abbrev pub normalized : Option Config → Option Config
normalized none = none
normalized (some c) = some (normalize c)

unfoldable pub parse_config : ConfigCodec → Text → Option Config
unfolding default_config normalize
parse_config codec content = normalized (codec.decode content default_config)

-- The file, where there is one, and whether there was no error.
unfoldable pub save_config : ConfigCodec → Bool → Config → Option Text → Option Text × Bool
save_config codec written c file =
    if c.path
    then (if written then (some (codec.encode c ++ 10 ∷ []), true) else (file, false))
    else (file, true)

abbrev pub at_path : Bool → Option Config → Option Config
at_path path none = none
at_path path (some c) = some (record c { path = path })

-- Where there is no file, the defaults are written. The answer is the configuration and the file.
unfoldable pub load_config : ConfigCodec → Bool → Bool → Reading → Option Config × Option Text
unfolding parse_config save_config
load_config codec written path not_exist =
    let c = record default_config { path = path } in
    let (file, saved) = save_config codec written c none in (if saved then some c else none, file)
load_config codec written path unreadable = (none, none)
load_config codec written path (contents content) =
    (at_path path (parse_config codec content), some content)
