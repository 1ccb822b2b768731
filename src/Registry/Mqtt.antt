-- ===== src/Registry/Mqtt.antt =====
-- internal/registry/mqtt.go: the check of an MQTT transport. What `net/url` reads of an address and
-- prints of one is a parameter.
use wrtdeck.Registry.Problem.{
  empty_broker, bad_broker, no_host, no_mqtt, empty_topic, subscribing_action, bad_mode, bad_scheme,
  bad_qos, retained_subscription, bad_encoding, Checked, ok, err, ◌>>=◌, check,
}
use wrtdeck.Prelude.{
  leb, if◌then◌else◌, is_empty, Dict, get, Text, text_eq, nat_key, text_key, text_ltb, sort_by,
  codes, ℤ, pos, negsuc, trim_space, join, has_infix, lower_text, Bool, false, not, ◌&&◌, ◌||◌,
  Option, none, some, List, [], ◌∷◌, ◌++◌,
}
use wrtdeck.Registry.Model.{
  kind_action, mode_publish, mode_subscribe, MqttSpec, is_blank, effective_mode, is_subscribe,
}

-- A parsed address: `hostname` and `port` are the parts of `host`.
pub record Url : Type 0 where
  pub scheme : Text
  pub host : Text
  pub hostname : Text
  pub port : Text
  pub rest : Text

pub record Urls : Type 0 where
  pub parse : Text → Option Url
  pub print : Url → Text

unfoldable pub mqtt_default_ports : Dict Text Text
mqtt_default_ports =
    (codes "mqtt", codes "1883")
    ∷ (codes "tcp", codes "1883")
    ∷ (codes "mqtts", codes "8883")
    ∷ (codes "ssl", codes "8883")
    ∷ (codes "tls", codes "8883")
    ∷ (codes "ws", codes "80")
    ∷ (codes "wss", codes "443")
    ∷ []

unfoldable pub has_template : Text → Bool
has_template text = has_infix text (codes "${")

abbrev scheme_names : Dict Text Text → List Text
scheme_names [] = []
scheme_names ((name, port) ∷ m) = name ∷ scheme_names m

unfoldable pub supported_scheme_list : Text
unfolding mqtt_default_ports
supported_scheme_list = join 0x3001 (sort_by text_ltb (scheme_names mqtt_default_ports))

abbrev pub with_scheme : Text → Text
with_scheme raw = if has_infix raw (codes "://") then raw else codes "mqtt://" ++ raw

abbrev pub with_port : Text → Url → Url
with_port port u =
    if is_empty u.port then record u { host = u.hostname ++ codes ":" ++ port } else u

unfoldable pub normalize_url : Urls → Option Url → Checked Text
unfolding mqtt_default_ports
normalize_url urls none = err bad_broker
normalize_url urls (some u) =
    let scheme = lower_text u.scheme in
    elim (get scheme mqtt_default_ports) [
      | none ↦ err (bad_scheme scheme supported_scheme_list)
      | some port ↦ if is_empty u.hostname then err no_host else ok (urls.print (with_port port u))
    ]

unfoldable pub normalize_broker_url : Urls → Text → Checked Text
unfolding has_template normalize_url
normalize_broker_url urls broker =
    let raw = trim_space broker in
    if is_empty raw
    then err empty_broker
    else if has_template raw
    then ok raw
    else normalize_url urls (urls.parse (with_scheme raw))

unfoldable pub is_supported_encoding : Text → Bool
is_supported_encoding encoding =
    is_empty encoding
    || text_eq encoding (codes "text")
    || text_eq encoding (codes "json")
    || text_eq encoding (codes "hex")
    || text_eq encoding (codes "base64")

unfoldable pub validate_encoding : Text → Checked {0} Unit
unfolding is_supported_encoding
validate_encoding encoding =
    check (is_supported_encoding (lower_text (trim_space encoding))) bad_encoding

abbrev pub validate_mode : Text → Text → Checked {0} Unit
validate_mode mode kind =
    if text_eq mode mode_publish
    then ok tt
    else if text_eq mode mode_subscribe
    then check (not (text_eq kind kind_action)) subscribing_action
    else err bad_mode

-- `qos < 0 || qos > 2` is false.
abbrev pub is_qos : ℤ → Bool
is_qos (pos n) = leb n 2
is_qos (negsuc n) = false

unfoldable pub validate_mqtt : Urls → Option MqttSpec → Text → Checked {0} Unit
unfolding normalize_broker_url validate_encoding is_subscribe
validate_mqtt urls none kind = err no_mqtt
validate_mqtt urls (some m) kind = do
  broker ← normalize_broker_url urls m.broker
  topic ← check (not (is_blank m.topic)) empty_topic
  mode ← validate_mode (effective_mode (some m)) kind
  qos ← check (is_qos m.qos) bad_qos
  retain ← check (not (m.retain && is_subscribe (some m))) retained_subscription
  validate_encoding m.encoding
