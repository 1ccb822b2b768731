-- ===== src/Registry/Validate/Referred.antt =====
-- The references of an entry that passes the check of its texts.
use wrtdeck.Prelude.{
  if◌then◌else◌, is_some, Dict, get, Text, text_eq, text_eq_iff, nat_key, text_key, text_eq_refl,
  has_text, codes, ◌≡◌, refl, sym, ap, Bool, true, false, Option, none, some, List, [], ◌∷◌, ◌++◌,
}
use wrtdeck.Registry.Model.{ParamSpec, HttpSpec, TcpSpec, UdpSpec, MqttSpec, ExecSpec, Entry}
use wrtdeck.Registry.Problem.{Checked, ok}
use wrtdeck.Registry.Refs.{
  strip_secret_refs, header_texts, http_texts, tcp_texts, udp_texts, mqtt_texts, exec_texts,
  template_texts, declared_names, undeclared_as, check_texts, check_template_refs,
}
use wrtdeck.Registry.Validate.Legal.{
  Every, NamesParam, Refers, RefersHeaders, WhereGiven, LegalRefs,
}
use wrtdeck.Template.{Piece, literal, variable, pieces}
use wrtdeck.Template.Render.{Ref}
use wrtdeck.Template.Refs.{key_of, ref_of, check_refs}
use wrtdeck.Template.Declared.{AllDeclared, check_refs-AllDeclared}

module _ (params : Dict Text ParamSpec) where
  -- A name in the list of the declared ones.
  declared_lem :
      (m : Dict Text ParamSpec) (key : Text)
      → has_text key (declared_names m) ≡ true
      → (name : Text) × (key ≡ codes "params." ++ name) × (is_some (get name m) ≡ true)
  unfolding has_text declared_names get
  declared_lem [] key h = cc
  declared_lem ((k, spec) ∷ m) key h =
      by_key (text_eq (codes "params." ++ k) key) refl h (declared_lem m key)
    where
      kept_some :
          (b : Bool) (o : Option ParamSpec)
          → is_some o ≡ true
          → is_some (if b then some spec else o) ≡ true
      kept_some true o e = refl
      kept_some false o e = e

      by_key :
          (b : Bool)
          → text_eq (codes "params." ++ k) key ≡ b
          → (if b then true else has_text key (declared_names m)) ≡ true
          → (has_text key (declared_names m) ≡ true
              → (name : Text) × (key ≡ codes "params." ++ name) × (is_some (get name m) ≡ true))
          → (name : Text) × (key ≡ codes "params." ++ name)
            × (is_some (if text_eq k name then some spec else get name m) ≡ true)
      by_key true same e later = (
        k,
        sym ((text_eq_iff (codes "params." ++ k) key).0 same),
        ap (λ (b : Bool). is_some (if b then some spec else get k m)) (text_eq_refl k),
      )
      by_key false other e later =
          let (name, named, there) = later e in
          (name, named, kept_some (text_eq k name) (get name m) there)

  Every-AllDeclared :
      (ps : List Piece) → AllDeclared (declared_names params) ps → Every (NamesParam params) ps
  Every-AllDeclared [] d = tt
  Every-AllDeclared (literal c ∷ ps) d = (tt, Every-AllDeclared ps d)
  Every-AllDeclared (variable v ∷ ps) (named, d) =
      (declared_lem params (key_of (ref_of v)) named, Every-AllDeclared ps d)

  Refers-check_refs :
      (t : Text) → check_refs (strip_secret_refs t) (declared_names params) ≡ none → Refers params t
  Refers-check_refs t h =
      Every-AllDeclared (pieces (strip_secret_refs t))
        (check_refs-AllDeclared (declared_names params) (strip_secret_refs t) h)

  both_referred :
      (o : Option Ref) (rest : Checked Unit)
      → undeclared_as o rest ≡ ok tt
      → (o ≡ none) × (rest ≡ ok tt)
  both_referred none rest h = (refl, h)
  both_referred (some r) rest h = cc

  -- Every text of a list that is accepted.
  Every-check_texts :
      (ts : List Text) → check_texts (declared_names params) ts ≡ ok tt → Every (Refers params) ts
  unfolding check_texts
  Every-check_texts [] h = tt
  Every-check_texts (t ∷ ts) h =
      let (one, rest) = both_referred _ _ h in (Refers-check_refs t one, Every-check_texts ts rest)

  Every-append :
      (ts us : List Text)
      → Every (Refers params) (ts ++ us)
      → Every (Refers params) ts × Every (Refers params) us
  Every-append [] us v = (tt, v)
  Every-append (t ∷ ts) us (one, v) =
      let (left, right) = Every-append ts us v in ((one, left), right)

  headers_lem :
      (m : Dict Text Text) → Every (Refers params) (header_texts m) → RefersHeaders params m
  headers_lem [] v = tt
  headers_lem ((k, w) ∷ m) (name, (value, v)) = (name, value, headers_lem m v)

  http_lem :
      (o : Option HttpSpec)
      → Every (Refers params) (http_texts o)
      → WhereGiven
          (λ (h : HttpSpec).
            Refers params h.url × Refers params h.body × RefersHeaders params h.headers)
          o
  http_lem none v = tt
  http_lem (some h) (url, (body, v)) = (url, body, headers_lem h.headers v)

  tcp_lem :
      (o : Option TcpSpec)
      → Every (Refers params) (tcp_texts o)
      → WhereGiven (λ (s : TcpSpec). Refers params s.address × Refers params s.payload) o
  tcp_lem none v = tt
  tcp_lem (some s) (address, (payload, v)) = (address, payload)

  udp_lem :
      (o : Option UdpSpec)
      → Every (Refers params) (udp_texts o)
      → WhereGiven (λ (s : UdpSpec). Refers params s.address × Refers params s.payload) o
  udp_lem none v = tt
  udp_lem (some s) (address, (payload, v)) = (address, payload)

  mqtt_lem :
      (o : Option MqttSpec)
      → Every (Refers params) (mqtt_texts o)
      → WhereGiven
          (λ (m : MqttSpec).
            Refers params m.broker
            × Refers params m.topic
            × Refers params m.payload
            × Refers params m.username
            × Refers params m.password)
          o
  mqtt_lem none v = tt
  mqtt_lem (some m) (broker, (topic, (payload, (username, (password, v))))) =
      (broker, topic, payload, username, password)

  exec_lem :
      (o : Option ExecSpec)
      → Every (Refers params) (exec_texts o)
      → WhereGiven (λ (x : ExecSpec). Refers params x.executable × Every (Refers params) x.args) o
  exec_lem none v = tt
  exec_lem (some x) v = v

pub LegalRefs-check_template_refs :
    (e : Entry) → check_template_refs e ≡ ok tt → LegalRefs e.params e.transport
unfolding check_template_refs template_texts
LegalRefs-check_template_refs e h =
    let t = e.transport in
    let all = Every-check_texts e.params (template_texts e) h in
    let http_first = http_texts t.http in
    let tcp_first = http_first ++ tcp_texts t.tcp in
    let udp_first = tcp_first ++ udp_texts t.udp in
    let (v1, exec) =
      Every-append e.params (udp_first ++ mqtt_texts t.mqtt) (exec_texts t.exec) all in
    let (v2, mqtt) = Every-append e.params udp_first (mqtt_texts t.mqtt) v1 in
    let (v3, udp) = Every-append e.params tcp_first (udp_texts t.udp) v2 in
    let (http, tcp) = Every-append e.params http_first (tcp_texts t.tcp) v3 in
    record {
      http = http_lem e.params t.http http;
      tcp = tcp_lem e.params t.tcp tcp;
      udp = udp_lem e.params t.udp udp;
      mqtt = mqtt_lem e.params t.mqtt mqtt;
      exec = exec_lem e.params t.exec exec;
    }
