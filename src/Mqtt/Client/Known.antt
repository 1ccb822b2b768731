-- ===== src/Mqtt/Client/Known.antt =====
-- That an identifier of QoS 2 stays known until it is released.

use wrtdeck.Mqtt.Build.{build_ack}
use wrtdeck.Prelude.{
  ltb, ◌==◌, if◌then◌else◌, Bool-cases, Option-cases, is_some, get-put, get-delete, All, get,
  delete, Text, nat_key, text_key, ℕ, ◌/◌, bit_and, ◌≡◌, refl, ◌≢◌, inl, inr, true, Option, none,
  some, List, [], ◌∷◌, arith,
}
use wrtdeck.Mqtt.Packet.{packet_pubrel, packet_pubcomp, Packet}
use wrtdeck.Mqtt.Decoder.{Decoder, remaining, read_byte, read_uint16, read_string, read_rest}
use wrtdeck.Mqtt.Client.{
  Client, send, deliver, decoder_of, resolve, hand_over, receive_qos2, receive_by_qos,
  publish_numbered, publish_named, handle_publish, handle_pubrec, handle_pubrel, suback_with,
  handle_suback, handle,
}

inbound-send : (bytes : Text) (c : Client) → (send bytes c).0.inbound_qos2 ≡ c.inbound_qos2
unfolding send
inbound-send bytes c = ground arith

inbound-deliver : (id code : ℕ) (c : Client) → (deliver id code c).inbound_qos2 ≡ c.inbound_qos2
unfolding deliver
inbound-deliver id code c = ground arith

inbound-hand_over :
    (topic payload : Text) (c : Client) → (hand_over topic payload c).inbound_qos2 ≡ c.inbound_qos2
unfolding hand_over
inbound-hand_over topic payload c = ground arith

inbound-resolve :
    (body : Text) (code : ℕ) (c : Client) → (resolve body code c).inbound_qos2 ≡ c.inbound_qos2
unfolding resolve
inbound-resolve body code c = elim (Option-cases (read_uint16 (decoder_of body)).1) [
  | inl e ↦ rw e
  | inr (id, e) ↦ rw e (inbound-deliver id code c)
]

-- The identifier is known.
abbrev pub IsKnown : ℕ → Client → Type 0
IsKnown id c = is_some (get id c.inbound_qos2) ≡ true

IsKnown-same :
    (id : ℕ) (c d : Client) → d.inbound_qos2 ≡ c.inbound_qos2 → IsKnown id c → IsKnown id d
IsKnown-same id c d e k = rw e k

IsKnown-receive_by_qos :
    (id qos other : ℕ) (topic payload : Text) (c : Client)
    → IsKnown id c
    → IsKnown id (receive_by_qos qos other topic payload c)
unfolding receive_by_qos receive_qos2 send hand_over
IsKnown-receive_by_qos id qos other topic payload c k =
    ground (arith, get-put id other true c.inbound_qos2)

-- The packet does not release `id`.
abbrev pub NotReleased : ℕ → Packet → Type 0
NotReleased id pkt = pkt.ptype ≡ packet_pubrel → (read_uint16 (decoder_of pkt.body)).1 ≢ some id

IsKnown-numbered :
    (id qos : ℕ) (topic : Text) (p : Decoder × Option ℕ) (c : Client)
    → IsKnown id c
    → IsKnown id (publish_numbered qos topic p c)
IsKnown-numbered id qos topic (d, none) c k = k
IsKnown-numbered id qos topic (d, some other) c k =
    IsKnown-receive_by_qos id qos other topic (read_rest d).1 c k

IsKnown-named :
    (id qos : ℕ) (p : Decoder × Option Text) (c : Client)
    → IsKnown id c
    → IsKnown id (publish_named qos p c)
IsKnown-named id qos (d, none) c k = k
IsKnown-named id qos (d, some topic) c k =
    IsKnown-numbered id qos topic (if ltb 0 qos then read_uint16 d else (d, some 0)) c k

IsKnown-handle_publish :
    (id : ℕ) (pkt : Packet) (c : Client) → IsKnown id c → IsKnown id (handle_publish pkt c)
unfolding handle_publish
IsKnown-handle_publish id pkt c k =
    IsKnown-named id (bit_and (pkt.flags / 2) 3) (read_string (decoder_of pkt.body)) c k

inbound-handle_pubrec :
    (pkt : Packet) (c : Client) → (handle_pubrec pkt c).inbound_qos2 ≡ c.inbound_qos2
unfolding handle_pubrec
inbound-handle_pubrec pkt c = elim (Option-cases (read_uint16 (decoder_of pkt.body)).1) [
  | inl e ↦ rw e
  | inr (id, e) ↦
      let sent = send (build_ack packet_pubrel id 0x02) c in
      rw (e, inbound-deliver id 1 sent.0) (inbound-send (build_ack packet_pubrel id 0x02) c)
]

inbound-suback_with :
    (body : Text) (p : Decoder × Option ℕ) (c : Client)
    → (suback_with body p c).inbound_qos2 ≡ c.inbound_qos2
inbound-suback_with body (d, none) c = refl
inbound-suback_with body (d, some id) c = elim (Bool-cases (remaining d == 0)) [
  | inl bare ↦ rw bare (inbound-resolve body 0 c)
  | inr coded ↦ elim (Option-cases (read_byte d).1) [
    | inl e ↦ rw (coded, e)
    | inr (code, e) ↦ rw (coded, e) (inbound-deliver id code c)
  ]
]

inbound-handle_suback :
    (pkt : Packet) (c : Client) → (handle_suback pkt c).inbound_qos2 ≡ c.inbound_qos2
unfolding handle_suback
inbound-handle_suback pkt c = inbound-suback_with pkt.body (read_uint16 (decoder_of pkt.body)) c

IsKnown-handle_pubrel :
    (id : ℕ) (pkt : Packet) (c : Client)
    → (read_uint16 (decoder_of pkt.body)).1 ≢ some id
    → IsKnown id c
    → IsKnown id (handle_pubrel pkt c)
unfolding handle_pubrel
IsKnown-handle_pubrel id pkt c kept_id k =
    elim (Option-cases (read_uint16 (decoder_of pkt.body)).1) [
      | inl e ↦ rw e k
      | inr (other, e) ↦
          let different : other ≢ id = λ same. kept_id (cc (e, same)) in
          let dropped = record c { inbound_qos2 = delete other c.inbound_qos2 } in
          let still : IsKnown id dropped =
            ground (arith, different, get-delete id other c.inbound_qos2) in
          rw e (
            IsKnown-same id dropped (send (build_ack packet_pubcomp other 0) dropped).0
              (inbound-send (build_ack packet_pubcomp other 0) dropped) still)
    ]

IsKnown-handle :
    (id : ℕ) (pkt : Packet) (c : Client)
    → NotReleased id pkt
    → IsKnown id c
    → IsKnown id (handle pkt c)
unfolding handle
IsKnown-handle id pkt c kept_id k =
    let pubrel : pkt.ptype ≡ packet_pubrel → IsKnown id (handle_pubrel pkt c) =
      λ e. IsKnown-handle_pubrel id pkt c (kept_id e) k in
    ground (
      arith,
      pubrel,
      IsKnown-handle_publish id pkt c k,
      inbound-resolve pkt.body 0 c,
      inbound-resolve pkt.body 2 c,
      inbound-handle_pubrec pkt c,
      inbound-handle_suback pkt c,
    )

-- The packets one after the other.
unfoldable pub handle_all : List Packet → Client → Client
unfolding handle
handle_all [] c = c
handle_all (pkt ∷ pkts) c = handle_all pkts (handle pkt c)

pub IsKnown-handle_all :
    (id : ℕ) (pkts : List Packet) (c : Client)
    → All (NotReleased id) pkts
    → IsKnown id c
    → IsKnown id (handle_all pkts c)
unfolding handle_all
IsKnown-handle_all id [] c kept_ids k = k
IsKnown-handle_all id (pkt ∷ pkts) c (here, kept_ids) k =
    IsKnown-handle_all id pkts (handle pkt c) kept_ids (IsKnown-handle id pkt c here k)
