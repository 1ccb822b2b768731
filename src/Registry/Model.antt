-- ===== src/Registry/Model.antt =====
-- internal/registry/model.go: an entry of the registry and its parts. A text field that is left out is
-- empty, and a pointer that may be nil is an `Option`.
use wrtdeck.Prelude.{
  if◌then◌else◌, is_empty, Dict, Text, text_eq, nat_key, text_key, codes, ℤ, is_positive,
  trim_space, Value, ℕ, Bool, ◌&&◌, Option, none, some, List,
}

abbrev pub kind_source : Text
kind_source = codes "source"

abbrev pub kind_action : Text
kind_action = codes "action"

abbrev pub param_string : Text
param_string = codes "string"

abbrev pub param_number : Text
param_number = codes "number"

abbrev pub param_boolean : Text
param_boolean = codes "boolean"

abbrev pub param_select : Text
param_select = codes "select"

abbrev pub param_secret : Text
param_secret = codes "secret"

abbrev pub transport_http : Text
transport_http = codes "http"

abbrev pub transport_tcp : Text
transport_tcp = codes "tcp"

abbrev pub transport_udp : Text
transport_udp = codes "udp"

abbrev pub transport_mqtt : Text
transport_mqtt = codes "mqtt"

abbrev pub transport_exec : Text
transport_exec = codes "exec"

abbrev pub extract_raw : Text
extract_raw = codes "raw"

abbrev pub extract_json : Text
extract_json = codes "json"

abbrev pub extract_regex : Text
extract_regex = codes "regex"

-- A `default` of nil is `null`; the bounds are floats by their patterns.
pub record ParamSpec : Type 0 where
  pub type : Text
  pub label : Text
  pub required : Bool
  pub default : Value
  pub min_value : Option ℕ
  pub max_value : Option ℕ
  pub options : List Text

pub record HttpSpec : Type 0 where
  pub method : Text
  pub url : Text
  pub headers : Dict Text Text
  pub body : Text
  pub timeout_ms : ℤ

pub record TcpSpec : Type 0 where
  pub address : Text
  pub payload : Text
  pub encoding : Text
  pub timeout_ms : ℤ
  pub expect_reply : Bool

pub record UdpSpec : Type 0 where
  pub address : Text
  pub payload : Text
  pub encoding : Text
  pub timeout_ms : ℤ
  pub expect_reply : Bool

abbrev pub mode_publish : Text
mode_publish = codes "publish"

abbrev pub mode_subscribe : Text
mode_subscribe = codes "subscribe"

pub record MqttSpec : Type 0 where
  pub broker : Text
  pub mode : Text
  pub client_id : Text
  pub username : Text
  pub password : Text
  pub topic : Text
  pub qos : ℤ
  pub retain : Bool
  pub payload : Text
  pub encoding : Text
  pub timeout_ms : ℤ

-- `TrimSpace` leaves nothing.
abbrev pub is_blank : Text → Bool
is_blank s = is_empty (trim_space s)

unfoldable pub effective_mode : Option MqttSpec → Text
effective_mode none = mode_publish
effective_mode (some m) = if is_blank m.mode then mode_publish else m.mode

unfoldable pub is_subscribe : Option MqttSpec → Bool
unfolding effective_mode
is_subscribe m = text_eq (effective_mode m) mode_subscribe

pub record ExecSpec : Type 0 where
  pub executable : Text
  pub args : List Text
  pub timeout_ms : ℤ

pub record TransportSpec : Type 0 where
  pub type : Text
  pub http : Option HttpSpec
  pub tcp : Option TcpSpec
  pub udp : Option UdpSpec
  pub mqtt : Option MqttSpec
  pub exec : Option ExecSpec

pub record ScheduleSpec : Type 0 where
  pub interval_ms : ℤ

pub record ExtractSpec : Type 0 where
  pub type : Text
  pub path : Text
  pub pattern : Text
  pub group : ℤ
  pub value_type : Text

pub record ConfirmSpec : Type 0 where
  pub enabled : Bool
  pub title : Text
  pub message : Text

pub record UiSpec : Type 0 where
  pub type : Text
  pub unit : Text
  pub label : Text
  pub precision : ℤ
  pub variant : Text
  pub order : ℤ
  pub confirm : Option ConfirmSpec

pub record Entry : Type 0 where
  pub id : Text
  pub kind : Text
  pub name : Text
  pub group : Text
  pub enabled : Bool
  pub params : Dict Text ParamSpec
  pub transport : TransportSpec
  pub schedule : Option ScheduleSpec
  pub extract : Option ExtractSpec
  pub ui : UiSpec

unfoldable pub subscribes : Entry → Bool
unfolding is_subscribe
subscribes e = text_eq e.transport.type transport_mqtt && is_subscribe e.transport.mqtt

abbrev pub interval_or : ℤ → Option ScheduleSpec → ℤ
interval_or fallback none = fallback
interval_or fallback (some s) = if is_positive s.interval_ms then s.interval_ms else fallback

unfoldable pub interval_ms : ℤ → Entry → ℤ
interval_ms fallback e = interval_or fallback e.schedule
