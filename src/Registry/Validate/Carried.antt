-- ===== src/Registry/Validate/Carried.antt =====
-- A transport that passes its check is legal.
use wrtdeck.Prelude.{
  if◌then◌else◌, Text, text_eq, text_eq_iff, nat_key, text_key, trim_space, ◌≡◌, refl, sym, ap, ◌∙◌,
  inl, inr, Bool, true, false, not, ◌||◌, Option, none, some, [],
}
use wrtdeck.Registry.Model.{
  transport_http, transport_tcp, transport_udp, transport_mqtt, transport_exec, MqttSpec, is_blank,
  TransportSpec,
}
use wrtdeck.Registry.Problem.{
  Problem, no_url, no_tcp_address, no_udp_address, no_executable, ok, ◌>>=◌, check,
}
use wrtdeck.Registry.Mqtt.{Urls, validate_mqtt}
use wrtdeck.Registry.Validate.{
  is_supported_transport, http_url, tcp_address, udp_address, exec_path, normalized_mqtt,
  validate_transport,
}
use wrtdeck.Registry.Validate.Legal.{LegalTransport}
use wrtdeck.Registry.Validate.Broker.{mqtt_lem}
use wrtdeck.Registry.Validate.Shape.{ok_inj, check_lem, bind-ok, not-true}

-- A part with a text that is not blank is there.
part_lem {ℓ} :
    {A : Type ℓ} (text_of : Option A → Text) (o : Option A) (e : Problem) {u : Unit {0}}
    → text_of none ≡ []
    → check (not (is_blank (text_of o))) e ≡ ok u
    → (x : A) × (o ≡ some x) × (is_blank (text_of (some x)) ≡ false)
unfolding trim_space
part_lem text_of none e empty h =
    let blank : is_blank (text_of none) ≡ true = ap is_blank empty in
    let shown = not-true (is_blank (text_of none)) (check_lem _ _ h) in cc
part_lem text_of (some x) e empty h =
    (x, refl, not-true (is_blank (text_of (some x))) (check_lem _ _ h))

pub LegalTransport-validate_transport :
    (urls : Urls) (kind : Text) (given t : TransportSpec)
    → is_supported_transport given.type ≡ true
    → validate_transport urls kind given ≡ ok t
    → LegalTransport urls kind given t
unfolding validate_transport is_supported_transport
LegalTransport-validate_transport urls kind given t known h =
    by_type (text_eq given.type transport_http) (text_eq given.type transport_tcp)
      (text_eq given.type transport_udp) (text_eq given.type transport_mqtt)
      (text_eq given.type transport_exec) refl refl refl refl refl known h
  where
    by_type :
        (a b c d e : Bool)
        → text_eq given.type transport_http ≡ a
        → text_eq given.type transport_tcp ≡ b
        → text_eq given.type transport_udp ≡ c
        → text_eq given.type transport_mqtt ≡ d
        → text_eq given.type transport_exec ≡ e
        → (a || b || c || d || e) ≡ true
        → (if a
            then check (not (is_blank (http_url given.http))) no_url >>= (λ _. ok given)
            else if b
            then check (not (is_blank (tcp_address given.tcp))) no_tcp_address >>= (λ _. ok given)
            else if c
            then check (not (is_blank (udp_address given.udp))) no_udp_address >>= (λ _. ok given)
            else if d
            then validate_mqtt urls given.mqtt kind
              >>= (λ _. ok (record given { mqtt = normalized_mqtt urls given.mqtt }))
            else if e
            then check (not (is_blank (exec_path given.exec))) no_executable >>= (λ _. ok given)
            else ok given)
          ≡ ok t
        → LegalTransport urls kind given t
    by_type true b c d e ea eb ec ed ee one r =
        let (u, checked, same) =
          bind-ok (check (not (is_blank (http_url given.http))) no_url) _ r in
        let (part, there, shown) = part_lem http_url given.http no_url refl checked in
        inl ((text_eq_iff given.type transport_http).0 ea, sym (ok_inj same), part, there, shown)
    by_type false true c d e ea eb ec ed ee one r =
        let (u, checked, same) =
          bind-ok (check (not (is_blank (tcp_address given.tcp))) no_tcp_address) _ r in
        let (part, there, shown) = part_lem tcp_address given.tcp no_tcp_address refl checked in
        inr
          (inl ((text_eq_iff given.type transport_tcp).0 eb, sym (ok_inj same), part, there, shown))
    by_type false false true d e ea eb ec ed ee one r =
        let (u, checked, same) =
          bind-ok (check (not (is_blank (udp_address given.udp))) no_udp_address) _ r in
        let (part, there, shown) = part_lem udp_address given.udp no_udp_address refl checked in
        inr (
          inr (
            inl
              ((text_eq_iff given.type transport_udp).0 ec, sym (ok_inj same), part, there, shown)))
    by_type false false false true e ea eb ec ed ee one r =
        let (u, checked, same) = bind-ok (validate_mqtt urls given.mqtt kind) _ r in
        let (g, m, there, made, legal) = mqtt_lem urls kind given.mqtt checked in
        let whole : t ≡ record given { mqtt = some m } =
          sym (ok_inj same) ∙ ap (λ (o : Option MqttSpec). record given { mqtt = o }) made in
        inr (
          inr (inr (inl ((text_eq_iff given.type transport_mqtt).0 ed, g, m, there, whole, legal))))
    by_type false false false false true ea eb ec ed ee one r =
        let (u, checked, same) =
          bind-ok (check (not (is_blank (exec_path given.exec))) no_executable) _ r in
        let (part, there, shown) = part_lem exec_path given.exec no_executable refl checked in
        inr (
          inr (
            inr (
              inr (
                (text_eq_iff given.type transport_exec).0 ee,
                sym (ok_inj same),
                part,
                there,
                shown,
              ))))
    by_type false false false false false ea eb ec ed ee one r = cc
