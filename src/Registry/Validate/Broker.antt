-- ===== src/Registry/Validate/Broker.antt =====
-- An MQTT transport that passes its check is legal.
use wrtdeck.Prelude.{
  if◌then◌else◌, kept, is_empty, Text, text_eq, text_eq_iff, nat_key, text_key, ne_of_text_eq,
  codes, ℤ, pos, negsuc, trim_space, lower_text, ℕ, ◌≤◌, ◌≡◌, refl, ap, inl, inr, Bool, true, false,
  not, ◌&&◌, ◌||◌, Option, none, some, arith,
}
use wrtdeck.Registry.Model.{
  kind_action, mode_publish, mode_subscribe, MqttSpec, is_blank, effective_mode, is_subscribe,
}
use wrtdeck.Registry.Problem.{
  empty_topic, subscribing_action, bad_mode, bad_qos, retained_subscription, Checked, ok, err,
  ◌>>=◌, check,
}
use wrtdeck.Registry.Mqtt.{
  Urls, normalize_broker_url, is_supported_encoding, validate_encoding, validate_mode, is_qos,
  validate_mqtt,
}
use wrtdeck.Registry.Validate.{with_broker, normalized_mqtt}
use wrtdeck.Registry.Validate.Legal.{LegalMode, LegalEncoding, LegalMqtt}
use wrtdeck.Registry.Validate.Shape.{check_lem, bind-ok, or_either, not-true, empty_lem}

qos_lem : (z : ℤ) → is_qos z ≡ true → (n : ℕ) × (z ≡ pos n) × (n ≤ 2)
qos_lem (pos n) h = (n, refl, ground arith)
qos_lem (negsuc n) h = cc

encoding_lem : (t : Text) → is_supported_encoding t ≡ true → LegalEncoding t
unfolding is_supported_encoding
encoding_lem t h =
    let text : Bool = text_eq t (codes "text") in
    let json : Bool = text_eq t (codes "json") in
    let hex : Bool = text_eq t (codes "hex") in
    elim (or_either (is_empty t || text || json || hex) (text_eq t (codes "base64")) h) [
      | inr e ↦ inr (inr (inr (inr ((text_eq_iff t (codes "base64")).0 e))))
      | inl h1 ↦ elim (or_either (is_empty t || text || json) hex h1) [
        | inr e ↦ inr (inr (inr (inl ((text_eq_iff t (codes "hex")).0 e))))
        | inl h2 ↦ elim (or_either (is_empty t || text) json h2) [
          | inr e ↦ inr (inr (inl ((text_eq_iff t (codes "json")).0 e)))
          | inl h3 ↦ elim (or_either (is_empty t) text h3) [
            | inr e ↦ inr (inl ((text_eq_iff t (codes "text")).0 e))
            | inl e ↦ inl (empty_lem t e)
          ]
        ]
      ]
    ]

mode_lem :
    (kind : Text) (m : MqttSpec) {u : Unit {0}}
    → validate_mode (effective_mode (some m)) kind ≡ ok u
    → not (m.retain && is_subscribe (some m)) ≡ true
    → LegalMode kind m
unfolding effective_mode is_subscribe
mode_lem kind m h kept = by_blank (is_blank m.mode) refl h kept
  where
    by_mode :
        (b c : Bool) {u : Unit {0}}
        → text_eq m.mode mode_publish ≡ b
        → text_eq m.mode mode_subscribe ≡ c
        → (if b
            then ok tt
            else if c
            then check (not (text_eq kind kind_action)) subscribing_action
            else err bad_mode)
          ≡ ok u
        → not (m.retain && c) ≡ true
        → LegalMode kind m
    by_mode true c eb ec r k = inr (inl ((text_eq_iff m.mode mode_publish).0 eb))
    by_mode false false eb ec r k = cc
    by_mode false true eb ec r k =
        let other = not-true (text_eq kind kind_action) (check_lem _ _ r) in
        inr (
          inr (
            (text_eq_iff m.mode mode_subscribe).0 ec,
            ne_of_text_eq kind kind_action other,
            not_both m.retain k,
          ))
      where
        not_both : (b : Bool) → not (b && true) ≡ true → b ≡ false
        not_both true k = cc
        not_both false k = refl

    by_blank :
        (a : Bool) {u : Unit {0}}
        → is_blank m.mode ≡ a
        → validate_mode (if a then mode_publish else m.mode) kind ≡ ok u
        → not (m.retain && text_eq (if a then mode_publish else m.mode) mode_subscribe) ≡ true
        → LegalMode kind m
    by_blank true ea r k = inl ea
    by_blank false ea r k =
        by_mode (text_eq m.mode mode_publish) (text_eq m.mode mode_subscribe) refl refl r k

broker_step :
    (urls : Urls) (kind : Text) (m : MqttSpec) {u : Unit {0}}
    → validate_mqtt urls (some m) kind ≡ ok u
    → (broker : Text) × (normalize_broker_url urls m.broker ≡ ok broker)
      × LegalMqtt urls kind m (record m { broker = broker })
unfolding validate_mqtt validate_encoding
broker_step urls kind m h =
    let encoding : Unit {0} → Checked {0} Unit = λ _. validate_encoding m.encoding in
    let retain : Unit {0} → Checked {0} Unit =
      λ _. check (not (m.retain && is_subscribe (some m))) retained_subscription >>= encoding in
    let qos : Unit {0} → Checked {0} Unit = λ _. check (is_qos m.qos) bad_qos >>= retain in
    let mode : Unit {0} → Checked {0} Unit =
      λ _. validate_mode (effective_mode (some m)) kind >>= qos in
    let topic : Text → Checked {0} Unit =
      λ _. check (not (is_blank m.topic)) empty_topic >>= mode in
    let (broker, normal, h1) = bind-ok (normalize_broker_url urls m.broker) topic h in
    let (u1, shown, h2) = bind-ok (check (not (is_blank m.topic)) empty_topic) mode h1 in
    let (u2, moded, h3) = bind-ok (validate_mode (effective_mode (some m)) kind) qos h2 in
    let (u3, level, h4) = bind-ok (check (is_qos m.qos) bad_qos) retain h3 in
    let (u4, kept, h5) =
      bind-ok (check (not (m.retain && is_subscribe (some m))) retained_subscription) encoding h4 in
    let (n, exact, small) = qos_lem m.qos (check_lem _ _ level) in
    (
      broker,
      normal,
      record {
        broker = broker;
        normalised = normal;
        same = refl;
        topic = not-true (is_blank m.topic) (check_lem _ _ shown);
        mode = mode_lem kind m moded (check_lem _ _ kept);
        level = n;
        qos = exact;
        small = small;
        encoding = encoding_lem (lower_text (trim_space m.encoding)) (check_lem _ _ h5);
      },
    )

pub mqtt_lem :
    (urls : Urls) (kind : Text) (o : Option MqttSpec) {u : Unit {0}}
    → validate_mqtt urls o kind ≡ ok u
    → (g : MqttSpec) × (m : MqttSpec) × (o ≡ some g)
      × (normalized_mqtt urls o ≡ some m)
      × LegalMqtt urls kind g m
unfolding validate_mqtt
mqtt_lem urls kind none h = cc
mqtt_lem urls kind (some g) h =
    let (broker, normal, v) = broker_step urls kind g h in
    (
      g,
      record g { broker = broker },
      refl,
      ap (λ (b : Checked Text). some (with_broker b g)) normal,
      v,
    )
