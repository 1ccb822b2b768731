-- ===== src/Engine/Render.antt =====
-- internal/engine/render.go: the templates of a transport. The first error ends the rendering.
use wrtdeck.Prelude.{
  if◌then◌else◌, Dict, put, Text, text_eq, nat_key, text_key, Printing, ◌⊎◌, inl, inr, Option, none,
  some, List, [], ◌∷◌,
}
use wrtdeck.Template.Render.{Scope, RenderError, render}
use wrtdeck.Registry.Model.{
  transport_http, transport_tcp, transport_udp, transport_mqtt, transport_exec, HttpSpec, TcpSpec,
  UdpSpec, MqttSpec, ExecSpec, TransportSpec,
}

abbrev pub Rendering {ℓ} : Type ℓ → Type ℓ
Rendering A = RenderError ⊎ A

infixl 5 ◌>>=◌
abbrev pub ◌>>=◌ {ℓ κ} : {A : Type ℓ} {B : Type κ} → Rendering A → (A → Rendering B) → Rendering B
inl e >>= f = inl e
inr a >>= f = f a

abbrev pub checked : Text × Option RenderError → Rendering Text
checked (out, none) = inr out
checked (out, some e) = inl e

module _ (printing : Printing) (scope : Scope) where
  abbrev pub rendered : Text → Rendering Text
  rendered s = checked (render printing s scope)

  -- The headers in the order of the map, over those that are rendered.
  unfoldable pub render_headers : Dict Text Text → Dict Text Text → Rendering (Dict Text Text)
  unfolding render
  render_headers [] out = inr out
  render_headers ((k, v) ∷ m) out = do
    key ← rendered k
    value ← rendered v
    render_headers m (put key value out)

  unfoldable pub render_http : HttpSpec → Rendering HttpSpec
  unfolding render render_headers
  render_http cfg = do
    url ← rendered cfg.url
    body ← rendered cfg.body
    headers ← render_headers cfg.headers []
    inr (record cfg { url = url; body = body; headers = headers })

  unfoldable pub render_tcp : TcpSpec → Rendering TcpSpec
  unfolding render
  render_tcp cfg = do
    address ← rendered cfg.address
    payload ← rendered cfg.payload
    inr (record cfg { address = address; payload = payload })

  unfoldable pub render_udp : UdpSpec → Rendering UdpSpec
  unfolding render
  render_udp cfg = do
    address ← rendered cfg.address
    payload ← rendered cfg.payload
    inr (record cfg { address = address; payload = payload })

  unfoldable pub render_mqtt : MqttSpec → Rendering MqttSpec
  unfolding render
  render_mqtt cfg = do
    broker ← rendered cfg.broker
    topic ← rendered cfg.topic
    payload ← rendered cfg.payload
    username ← rendered cfg.username
    password ← rendered cfg.password
    inr (record cfg {
      broker = broker;
      topic = topic;
      payload = payload;
      username = username;
      password = password;
    })

  unfoldable pub render_args : List Text → Rendering (List Text)
  unfolding render
  render_args [] = inr []
  render_args (arg ∷ args) = do first ← rendered arg; rest ← render_args args; inr (first ∷ rest)

  unfoldable pub render_exec : ExecSpec → Rendering ExecSpec
  unfolding render render_args
  render_exec cfg = do
    executable ← rendered cfg.executable
    args ← render_args cfg.args
    inr (record cfg { executable = executable; args = args })

  -- A part that is there is rendered.
  abbrev pub render_part {ℓ} : {A : Type ℓ} → (A → Rendering A) → Option A → Rendering (Option A)
  render_part f none = inr none
  render_part f (some cfg) = f cfg >>= (λ out. inr (some out))

  abbrev pub only_type : TransportSpec → TransportSpec
  only_type spec = record spec { http = none; tcp = none; udp = none; mqtt = none; exec = none }

  unfoldable pub render_transport : TransportSpec → Rendering TransportSpec
  unfolding render_http render_tcp render_udp render_mqtt render_exec
  render_transport spec =
      if text_eq spec.type transport_http
      then (render_part render_http spec.http
          >>= (λ part. inr (record (only_type spec) { http = part })))
      else if text_eq spec.type transport_tcp
      then (render_part render_tcp spec.tcp
          >>= (λ part. inr (record (only_type spec) { tcp = part })))
      else if text_eq spec.type transport_udp
      then (render_part render_udp spec.udp
          >>= (λ part. inr (record (only_type spec) { udp = part })))
      else if text_eq spec.type transport_mqtt
      then (render_part render_mqtt spec.mqtt
          >>= (λ part. inr (record (only_type spec) { mqtt = part })))
      else if text_eq spec.type transport_exec
      then (render_part render_exec spec.exec
          >>= (λ part. inr (record (only_type spec) { exec = part })))
      else inr (only_type spec)
