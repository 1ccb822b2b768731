-- ===== src/Mqtt/Client/Once.antt =====
-- That a message of QoS 2 is handed over once.
use wrtdeck.Mqtt.Decoder.Reads.{read_uint16-append}
use wrtdeck.Mqtt.Client.Receive.{Outcome-receive_by_qos, handle-publish_body}
use wrtdeck.Mqtt.Build.{publish_body}
use wrtdeck.Prelude.{
  get-put, get-delete, length, All, get, Text, nat_key, text_key, ℕ, ◌/◌, ◌^◌, ◌<◌, bit_and, ◌≡◌,
  ap, true, Option, none, some, List, [], ◌∷◌, ◌++◌, append-nil, arith,
}
use wrtdeck.Mqtt.Packet.{packet_publish, packet_pubrel, Packet, append_uint16}
use wrtdeck.Mqtt.Decoder.{Decoder, read_uint16}
use wrtdeck.Mqtt.Client.{
  Client, send, decoder_of, hand_over, receive_qos2, receive_by_qos, handle_pubrel, handle,
}
use wrtdeck.Mqtt.Client.Known.{IsKnown, NotReleased, handle_all, IsKnown-handle_all}

abbrev pub publish_packet : ℕ → Text → Text → ℕ → Packet
publish_packet flags topic payload id = record {
  ptype = packet_publish;
  flags = flags;
  body = publish_body topic payload 2 id;
}

abbrev pub pubrel_packet : ℕ → Packet
pubrel_packet id = record { ptype = packet_pubrel; flags = 2; body = append_uint16 [] id }

IsKnown-receive_qos2 :
    (id : ℕ) (topic payload : Text) (c : Client) → IsKnown id (receive_by_qos 2 id topic payload c)
unfolding receive_by_qos receive_qos2 send hand_over
IsKnown-receive_qos2 id topic payload c = ground (arith, get-put id id true c.inbound_qos2)

module _ (id flags : ℕ) (topic payload : Text) (small : length topic < 2 ^ 16)
    (id_small : id < 2 ^ 16) (level : bit_and (flags / 2) 3 ≡ 2) where
  handle-publish_packet :
      (c : Client)
      → handle (publish_packet flags topic payload id) c ≡ receive_by_qos 2 id topic payload c
  handle-publish_packet c = handle-publish_body flags 2 id topic payload c small id_small level

  known_delivers_nothing :
      (c : Client)
      → IsKnown id c
      → (handle (publish_packet flags topic payload id) c).delivered ≡ c.delivered
  known_delivers_nothing c k =
      rw (handle-publish_packet c)
        (ground (arith, k, (Outcome-receive_by_qos 2 id topic payload c (omega arith)).handed_over))

read_released :
    (id : ℕ) → id < 2 ^ 16 → (read_uint16 (decoder_of (append_uint16 [] id))).1 ≡ some id
read_released id id_small =
    let back = read_uint16-append [] [] id id_small in
    let bytes : append_uint16 [] id ++ [] ≡ append_uint16 [] id =
      append-nil (append_uint16 [] id) in
    rw (← bytes) (ap (λ (p : Decoder × Option ℕ). p.1) back)

-- What a PUBREL leaves.
record Released (id : ℕ) (c d : Client) : Type 0 where
  unknown : get id d.inbound_qos2 ≡ none
  same_delivered : d.delivered ≡ c.delivered
  same_callback : d.on_message ≡ c.on_message

Released-handle : (id : ℕ) (c : Client) → id < 2 ^ 16 → Released id c (handle (pubrel_packet id) c)
unfolding handle handle_pubrel send
Released-handle id c id_small =
    rw (read_released id id_small) (ground (arith, get-delete id id c.inbound_qos2))

module _ (id flags : ℕ) (topic payload : Text) (small : length topic < 2 ^ 16)
    (id_small : id < 2 ^ 16) (level : bit_and (flags / 2) 3 ≡ 2) where
  -- Once a PUBLISH of QoS 2 with an identifier was handled, a second one with the same identifier
  -- hands nothing over, whatever packets were handled in between that are no PUBREL for it. Both
  -- topics are shorter than 65536 bytes, the identifier below 65536, and the flags of both say QoS
  -- 2.
  pub qos2_once :
      (later_flags : ℕ) (later_topic later_payload : Text) (pkts : List Packet) (c : Client)
      → length later_topic < 2 ^ 16
      → bit_and (later_flags / 2) 3 ≡ 2
      → All (NotReleased id) pkts
      → (handle
          (publish_packet later_flags later_topic later_payload id)
          (handle_all pkts (handle (publish_packet flags topic payload id) c))).delivered
        ≡ (handle_all pkts (handle (publish_packet flags topic payload id) c)).delivered
  qos2_once later_flags later_topic later_payload pkts c later_small later_level kept_ids =
      let before = handle_all pkts (handle (publish_packet flags topic payload id) c) in
      let first : IsKnown id (handle (publish_packet flags topic payload id) c) =
        rw (handle-publish_packet id flags topic payload small id_small level c)
          (IsKnown-receive_qos2 id topic payload c) in
      known_delivers_nothing id later_flags later_topic later_payload later_small id_small
        later_level before
        (IsKnown-handle_all id pkts (handle (publish_packet flags topic payload id) c) kept_ids
          first)

  -- After the PUBREL for an identifier a PUBLISH of QoS 2 with that identifier is handed over,
  -- where the callback is set, the topic is shorter than 65536 bytes and the identifier below
  -- 65536.
  pub qos2_released :
      (c : Client)
      → c.on_message ≡ true
      → (handle (publish_packet flags topic payload id) (handle (pubrel_packet id) c)).delivered
        ≡ c.delivered ++ (topic, payload) ∷ []
  qos2_released c set =
      let d = handle (pubrel_packet id) c in
      let r = Released-handle id c id_small in
      let o = Outcome-receive_by_qos 2 id topic payload d (omega arith) in
      rw (handle-publish_packet id flags topic payload small id_small level d)
        (ground (arith, r.unknown, r.same_delivered, r.same_callback, o.handed_over))
