-- ===== src/Registry/Refs.antt =====
-- internal/registry/refs.go: the references of an entry.
use wrtdeck.Prelude.{
  if◌then◌else◌, length, is_empty, drop, Dict, Text, nat_key, text_key, codes, has_prefix, ℕ, zero,
  suc, ◌-◌, not, ◌&&◌, Option, none, some, List, [], ◌∷◌, ◌++◌,
}
use wrtdeck.Template.{is_word, span, before, scan_filters, skip_white, expect, ◌>>=◌}
use wrtdeck.Template.Render.{Ref}
use wrtdeck.Template.Refs.{check_refs}
use wrtdeck.Registry.Model.{ParamSpec, HttpSpec, TcpSpec, UdpSpec, MqttSpec, ExecSpec, Entry}
use wrtdeck.Registry.Problem.{undeclared, Checked, ok, err}

-- `secret\.[a-zA-Z0-9_]+`
unfoldable pub after_secret : Text → Option Text
unfolding span
after_secret t =
    let (name, rest) = span is_word (drop 7 t) in
    if has_prefix t (codes "secret.") && not (is_empty name) then some rest else none

-- `secret_ref_pattern` at the beginning of a text, and what is left.
unfoldable pub scan_secret : Text → Option Text
unfolding expect skip_white scan_filters after_secret
scan_secret s = do
  dollar ← expect b'$' s
  open_brace ← expect b'{' dollar
  name ← after_secret (skip_white open_brace)
  (filters, end) ← scan_filters before (skip_white name)
  expect b'}' end

-- The first number is how many characters belong to the last match.
unfoldable pub strip_from : ℕ → Text → Text
unfolding scan_secret
strip_from n [] = []
strip_from (suc n) (c ∷ s) = strip_from n s
strip_from zero (c ∷ s) = elim (scan_secret (c ∷ s)) [
  | none ↦ c ∷ strip_from zero s
  | some rest ↦ strip_from (length s - length rest) s
]

unfoldable pub strip_secret_refs : Text → Text
unfolding strip_from
strip_secret_refs s = strip_from 0 s

abbrev pub header_texts : Dict Text Text → List Text
header_texts [] = []
header_texts ((k, v) ∷ m) = k ∷ v ∷ header_texts m

abbrev pub http_texts : Option HttpSpec → List Text
http_texts none = []
http_texts (some h) = h.url ∷ h.body ∷ header_texts h.headers

abbrev pub tcp_texts : Option TcpSpec → List Text
tcp_texts none = []
tcp_texts (some t) = t.address ∷ t.payload ∷ []

abbrev pub udp_texts : Option UdpSpec → List Text
udp_texts none = []
udp_texts (some u) = u.address ∷ u.payload ∷ []

abbrev pub mqtt_texts : Option MqttSpec → List Text
mqtt_texts none = []
mqtt_texts (some m) = m.broker ∷ m.topic ∷ m.payload ∷ m.username ∷ m.password ∷ []

abbrev pub exec_texts : Option ExecSpec → List Text
exec_texts none = []
exec_texts (some x) = x.executable ∷ x.args

unfoldable pub template_texts : Entry → List Text
template_texts e =
    http_texts e.transport.http
    ++ tcp_texts e.transport.tcp
    ++ udp_texts e.transport.udp
    ++ mqtt_texts e.transport.mqtt
    ++ exec_texts e.transport.exec

-- The names that a template may use: `params.` and the name of a parameter.
unfoldable pub declared_names : Dict Text ParamSpec → List Text
declared_names [] = []
declared_names ((name, spec) ∷ m) = (codes "params." ++ name) ∷ declared_names m

abbrev pub undeclared_as : Option Ref → Checked {0} Unit → Checked {0} Unit
undeclared_as none rest = rest
undeclared_as (some r) rest = err (undeclared r.namespace r.name)

unfoldable pub check_texts : List Text → List Text → Checked {0} Unit
unfolding check_refs strip_secret_refs
check_texts names [] = ok tt
check_texts names (s ∷ ss) =
    undeclared_as (check_refs (strip_secret_refs s) names) (check_texts names ss)

unfoldable pub check_template_refs : Entry → Checked {0} Unit
unfolding check_texts template_texts declared_names
check_template_refs e = check_texts (declared_names e.params) (template_texts e)
