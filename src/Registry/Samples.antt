-- ===== src/Registry/Samples.antt =====
-- Entries for the tests.
use wrtdeck.Prelude.{Text, nat_key, text_key, codes, pos, null, true, none, some, [], ◌∷◌}
use wrtdeck.Registry.Model.{
  kind_source, kind_action, param_number, transport_http, ParamSpec, TransportSpec, UiSpec, Entry,
}
use wrtdeck.Registry.Mqtt.{Urls}

abbrev pub over_http : Text → TransportSpec
over_http url = record {
  type = transport_http;
  http = some (record { method = []; url = url; headers = []; body = []; timeout_ms = pos 0 });
  tcp = none;
  udp = none;
  mqtt = none;
  exec = none;
}

abbrev pub plain_ui : UiSpec
plain_ui = record {
  type = [];
  unit = [];
  label = [];
  precision = pos 0;
  variant = [];
  order = pos 0;
  confirm = none;
}

-- A source without a period.
abbrev pub lamp : Entry
lamp = record {
  id = codes "lamp";
  kind = kind_source;
  name = codes "Lamp";
  group = [];
  enabled = true;
  params = [];
  transport = over_http (codes "http://lamp");
  schedule = none;
  extract = none;
  ui = plain_ui;
}

abbrev pub level : ParamSpec
level = record {
  type = param_number;
  label = [];
  required = true;
  default = null;
  min_value = none;
  max_value = none;
  options = [];
}

-- An action with one parameter.
abbrev pub dim : Entry
dim = record lamp {
  id = codes "dim";
  kind = kind_action;
  name = codes "Dim";
  params = (codes "level", level) ∷ [];
  transport = over_http (codes "http://lamp?l=${params.level}");
}

-- No address is read.
abbrev pub no_urls : Urls
no_urls = record { parse = λ t. none; print = λ u. [] }
