-- ===== src/Registry/Validate.antt =====
-- internal/registry/validate.go: the check of an entry, which also fills in its defaults. The compiler of
-- regular expressions is a parameter. Of an entry with an error only the error is kept.
pub mod Legal
mod Referred
mod Shape
mod Broker
mod Carried
mod Sourced
pub mod Accepted
use wrtdeck.Prelude.{
  leb, ◌==◌, if◌then◌else◌, length, is_empty, Dict, Text, text_eq, nat_key, text_key, codes, pos,
  is_positive, less_float, ℕ, Bool, true, false, not, ◌&&◌, ◌||◌, Option, none, some, [], ◌∷◌,
}
use wrtdeck.Registry.Model.{
  kind_source, kind_action, param_string, param_number, param_boolean, param_select, param_secret,
  transport_http, transport_tcp, transport_udp, transport_mqtt, transport_exec, extract_raw,
  extract_json, extract_regex, ParamSpec, HttpSpec, TcpSpec, UdpSpec, MqttSpec, is_blank, ExecSpec,
  TransportSpec, ScheduleSpec, ExtractSpec, Entry, interval_ms,
}
use wrtdeck.Registry.Problem.{
  no_entry, bad_id, bad_kind, empty_name, bad_transport, bad_range, no_options, bad_param_type,
  no_url, no_tcp_address, no_udp_address, no_executable, no_path, bad_pattern, bad_extract,
  bad_value_type, Checked, ok, err, ◌>>=◌, check,
}
use wrtdeck.Registry.Mqtt.{Urls, normalize_broker_url, validate_mqtt}
use wrtdeck.Registry.Refs.{check_template_refs}

abbrev pub is_id_head : ℕ → Bool
is_id_head c = (leb b'a' c && leb c b'z') || (leb b'0' c && leb c b'9')

abbrev pub is_id_char : ℕ → Bool
is_id_char c = is_id_head c || c == b'_' || c == b'-'

unfoldable pub all_chars : (ℕ → Bool) → Text → Bool
all_chars p [] = true
all_chars p (c ∷ s) = p c && all_chars p s

-- `id_pattern`
unfoldable pub is_id : Text → Bool
unfolding all_chars
is_id [] = false
is_id (c ∷ s) = is_id_head c && all_chars is_id_char s && leb (length s) 63

unfoldable pub is_supported_kind : Text → Bool
is_supported_kind kind = text_eq kind kind_source || text_eq kind kind_action

unfoldable pub is_supported_transport : Text → Bool
is_supported_transport t =
    text_eq t transport_http
    || text_eq t transport_tcp
    || text_eq t transport_udp
    || text_eq t transport_mqtt
    || text_eq t transport_exec

-- `*p.Min > *p.Max`
abbrev pub is_inverted : Option ℕ → Option ℕ → Bool
is_inverted (some low) (some high) = less_float high low
is_inverted _ _ = false

unfoldable pub validate_param : Text → ParamSpec → Checked {0} Unit
unfolding less_float
validate_param name p =
    if text_eq p.type param_string || text_eq p.type param_secret
    then ok tt
    else if text_eq p.type param_number
    then check (not (is_inverted p.min_value p.max_value)) (bad_range name)
    else if text_eq p.type param_boolean
    then ok tt
    else if text_eq p.type param_select
    then check (not (is_empty p.options)) (no_options name)
    else err (bad_param_type name)

-- In the order in which the loop visits the map.
unfoldable pub validate_params : Dict Text ParamSpec → Checked {0} Unit
unfolding validate_param
validate_params [] = ok tt
validate_params ((name, p) ∷ m) = validate_param name p >>= (λ _. validate_params m)

abbrev pub http_url : Option HttpSpec → Text
http_url none = []
http_url (some h) = h.url

abbrev pub tcp_address : Option TcpSpec → Text
tcp_address none = []
tcp_address (some t) = t.address

abbrev pub udp_address : Option UdpSpec → Text
udp_address none = []
udp_address (some u) = u.address

abbrev pub exec_path : Option ExecSpec → Text
exec_path none = []
exec_path (some x) = x.executable

-- The broker with its scheme and port written out, where there is no error.
abbrev pub with_broker : Checked Text → MqttSpec → MqttSpec
with_broker (ok broker) m = record m { broker = broker }
with_broker (err e) m = m

abbrev pub normalized_mqtt : Urls → Option MqttSpec → Option MqttSpec
normalized_mqtt urls none = none
normalized_mqtt urls (some m) = some (with_broker (normalize_broker_url urls m.broker) m)

unfoldable pub validate_transport : Urls → Text → TransportSpec → Checked TransportSpec
unfolding validate_mqtt
validate_transport urls kind t =
    if text_eq t.type transport_http
    then check (not (is_blank (http_url t.http))) no_url >>= (λ _. ok t)
    else if text_eq t.type transport_tcp
    then check (not (is_blank (tcp_address t.tcp))) no_tcp_address >>= (λ _. ok t)
    else if text_eq t.type transport_udp
    then check (not (is_blank (udp_address t.udp))) no_udp_address >>= (λ _. ok t)
    else if text_eq t.type transport_mqtt
    then validate_mqtt urls t.mqtt kind
      >>= (λ _. ok (record t { mqtt = normalized_mqtt urls t.mqtt }))
    else if text_eq t.type transport_exec
    then check (not (is_blank (exec_path t.exec))) no_executable >>= (λ _. ok t)
    else ok t

abbrev pub check_value_type : Text → Checked {0} Unit
check_value_type v =
    check
      (is_empty v || text_eq v param_string || text_eq v param_number || text_eq v param_boolean)
      bad_value_type

abbrev pub check_extract_type : (Text → Bool) → ExtractSpec → Checked {0} Unit
check_extract_type compiles x =
    if text_eq x.type extract_raw || is_empty x.type
    then ok tt
    else if text_eq x.type extract_json
    then check (not (is_blank x.path)) no_path
    else if text_eq x.type extract_regex
    then check (compiles x.pattern) bad_pattern
    else err bad_extract

unfoldable pub validate_extract : (Text → Bool) → ExtractSpec → Checked {0} Unit
validate_extract compiles x = check_extract_type compiles x >>= (λ _. check_value_type x.value_type)

abbrev pub default_ui : Entry → Entry
default_ui e =
    if is_empty e.ui.type
    then record e {
      ui = record e.ui {
        type = if text_eq e.kind kind_action then codes "button" else codes "metric";
      };
    }
    else e

abbrev pub default_schedule : Option ScheduleSpec → ScheduleSpec
default_schedule none = record { interval_ms = pos 5000 }
default_schedule (some s) =
    if is_positive s.interval_ms then s else record { interval_ms = pos 5000 }

abbrev pub default_extract : Option ExtractSpec → ExtractSpec
default_extract none = record {
  type = extract_raw;
  path = [];
  pattern = [];
  group = pos 0;
  value_type = [];
}
default_extract (some x) = x

unfoldable pub validate_source : (Text → Bool) → Entry → Checked Entry
unfolding validate_extract
validate_source compiles e =
    if text_eq e.kind kind_source
    then (validate_extract compiles (default_extract e.extract) >>= (λ _. ok (record e {
      schedule = some (default_schedule e.schedule);
      extract = some (default_extract e.extract);
    })))
    else ok e

abbrev pub check_shape : Entry → Checked {0} Unit
check_shape e = check (is_id e.id) bad_id >>= (λ _.
    check (is_supported_kind e.kind) bad_kind >>= (λ _.
      check (not (is_blank e.name)) empty_name
      >>= (λ _. check (is_supported_transport e.transport.type) bad_transport)))

-- What is left once the transport is checked.
abbrev pub validate_rest : (Text → Bool) → Entry → Checked Entry
validate_rest compiles e =
    validate_source compiles e >>= (λ whole. check_template_refs whole >>= (λ _. ok whole))

unfoldable pub validate : (Text → Bool) → Urls → Option Entry → Checked Entry
unfolding is_id is_supported_kind is_supported_transport validate_params validate_transport
    validate_source check_template_refs
validate compiles urls none = err no_entry
validate compiles urls (some e) = check_shape e >>= (λ _. validate_params e.params >>= (λ _.
    validate_transport urls e.kind e.transport
    >>= (λ t. validate_rest compiles (record (default_ui e) { transport = t }))))
