-- ===== src/Mqtt/Client/Receive.antt =====
-- What a PUBLISH does to the client that receives it, from its bytes on.
use wrtdeck.Mqtt.Packet.Frames.{max_length, read_packet-wrap}
use wrtdeck.Mqtt.Packet.{
  packet_publish, packet_puback, packet_pubrec, Packet, ok, read_packet, wrap, append_uint16,
  append_string,
}
use wrtdeck.Prelude.{
  ltb, ◌==◌, if◌then◌else◌, lt→ltb, is_some, length, drop-length_append, get, Text, nat_key,
  text_key, ℕ, zero, suc, ◌/◌, ◌%◌, ◌^◌, ◌≤◌, ◌<◌, bit_and, ◌≡◌, refl, ap, ◌∙◌, Bool, true, false,
  not, ◌&&◌, ◌||◌, Option, List, [], ◌∷◌, ◌++◌, append-nil, append_assoc, arith,
}
use wrtdeck.Mqtt.Build.{publish_flags, publish_body, build_publish, build_ack}
use wrtdeck.Mqtt.Decoder.{Decoder, read_string, read_rest}
use wrtdeck.Mqtt.Decoder.Reads.{decoder_at, read_uint16-append, read_string-append}
use wrtdeck.Mqtt.Client.{
  Client, send, decoder_of, hand_over, receive_qos2, receive_by_qos, publish_named, handle_publish,
  handle,
}

-- The flags of each level are four bits, and the level is read back.
record FlagsOf (qos : ℕ) (retain dup : Bool) : Type 0 where
  bounded : publish_flags qos retain dup < 16
  level : bit_and (publish_flags qos retain dup / 2) 3 ≡ qos

flags_lem : (qos : ℕ) (retain dup : Bool) → qos ≤ 2 → FlagsOf qos retain dup
flags_lem zero false false h = record { bounded = omega arith; level = refl }
flags_lem zero false true h = record { bounded = omega arith; level = refl }
flags_lem zero true false h = record { bounded = omega arith; level = refl }
flags_lem zero true true h = record { bounded = omega arith; level = refl }
flags_lem (suc zero) false false h = record { bounded = omega arith; level = refl }
flags_lem (suc zero) false true h = record { bounded = omega arith; level = refl }
flags_lem (suc zero) true false h = record { bounded = omega arith; level = refl }
flags_lem (suc zero) true true h = record { bounded = omega arith; level = refl }
flags_lem (suc (suc zero)) false false h = record { bounded = omega arith; level = refl }
flags_lem (suc (suc zero)) false true h = record { bounded = omega arith; level = refl }
flags_lem (suc (suc zero)) true false h = record { bounded = omega arith; level = refl }
flags_lem (suc (suc zero)) true true h = record { bounded = omega arith; level = refl }
flags_lem (suc (suc (suc n))) retain dup h = absurd (omega (arith, h))

read_rest-decoder_at : (done rest : Text) → (read_rest (decoder_at done rest)).1 ≡ rest
unfolding read_rest
read_rest-decoder_at done rest = drop-length_append done rest

uint16_assoc :
    (named payload : Text) (id : ℕ)
    → append_uint16 named id ++ payload ≡ named ++ (append_uint16 [] id ++ payload)
unfolding append_uint16
uint16_assoc named payload id = append_assoc named ((id / 256 % 256) ∷ (id % 256) ∷ []) payload

module _ (topic payload : Text) (id : ℕ) (c : Client) (small : length topic < 2 ^ 16)
    (id_small : id < 2 ^ 16) where
  abbrev named_bytes : Text
  named_bytes = append_string [] topic

  publish_named-numbered :
      (qos : ℕ)
      → ltb 0 qos ≡ true
      → publish_named qos (read_string (decoder_of (publish_body topic payload qos id))) c
        ≡ receive_by_qos qos id topic payload c
  publish_named-numbered qos positive =
      rw (positive, uint16_assoc named_bytes payload id)
        (ap (λ (p : Decoder × Option Text). publish_named qos p c)
            (read_string-append [] topic (append_uint16 [] id ++ payload) small)
          ∙ rw (positive, read_uint16-append named_bytes payload id id_small)
              (ap (λ (t : Text). receive_by_qos qos id topic t c)
                (read_rest-decoder_at (named_bytes ++ append_uint16 [] id) payload)))

  publish_named-plain :
      publish_named 0 (read_string (decoder_of (publish_body topic payload 0 id))) c
      ≡ receive_by_qos 0 id topic payload c
  unfolding receive_by_qos
  publish_named-plain =
      ap (λ (p : Decoder × Option Text). publish_named 0 p c)
        (read_string-append [] topic payload small)
      ∙ ap (λ (t : Text). receive_by_qos 0 id topic t c) (read_rest-decoder_at named_bytes payload)

  publish_named_lem :
      (qos : ℕ)
      → publish_named qos (read_string (decoder_of (publish_body topic payload qos id))) c
        ≡ receive_by_qos qos id topic payload c
  publish_named_lem zero = publish_named-plain
  publish_named_lem (suc qos) = publish_named-numbered (suc qos) (ground arith)

-- What is answered to a PUBLISH.
abbrev pub acks : ℕ → ℕ → List Text
acks zero id = []
acks (suc zero) id = build_ack packet_puback id 0 ∷ []
acks (suc (suc n)) id = build_ack packet_pubrec id 0 ∷ []

abbrev pub is_duplicate : ℕ → ℕ → Client → Bool
is_duplicate qos id c = qos == 2 && is_some (get id c.inbound_qos2)

pub record Outcome (qos id : ℕ) (topic payload : Text) (c d : Client) : Type 0 where
  pub handed_over : d.delivered ≡ (
      if is_duplicate qos id c || not c.on_message
      then c.delivered
      else c.delivered ++ (topic, payload) ∷ [])
  pub answered :
      d.written ≡ (if c.connected && c.writable then c.written ++ acks qos id else c.written)

pub Outcome-receive_by_qos :
    (qos id : ℕ) (topic payload : Text) (c : Client)
    → qos ≤ 2
    → Outcome qos id topic payload c (receive_by_qos qos id topic payload c)
unfolding receive_by_qos receive_qos2 send hand_over
Outcome-receive_by_qos zero id topic payload c h = ground (arith, append-nil c.written)
Outcome-receive_by_qos (suc zero) id topic payload c h = ground arith
Outcome-receive_by_qos (suc (suc zero)) id topic payload c h = ground arith
Outcome-receive_by_qos (suc (suc (suc n))) id topic payload c h = absurd (omega (arith, h))

pub handle-publish_body :
    (flags qos id : ℕ) (topic payload : Text) (c : Client)
    → length topic < 2 ^ 16
    → id < 2 ^ 16
    → bit_and (flags / 2) 3 ≡ qos
    → handle
        (record { ptype = packet_publish; flags = flags; body = publish_body topic payload qos id })
        c
      ≡ receive_by_qos qos id topic payload c
unfolding handle handle_publish
handle-publish_body flags qos id topic payload c small id_small level =
    rw level (publish_named_lem topic payload id c small id_small qos)

-- A PUBLISH that was built of a topic shorter than 65536 bytes, a level up to 2, an identifier
-- below 65536 and any payload, with a body below 128 ^ 4 bytes, is read back from a stream, and its
-- handling hands the topic and the payload over, unless there is no callback or it repeats a known
-- identifier of QoS 2, and answers with the packet of its level, if the connection takes it.
pub handle-build_publish :
    (topic payload rest : Text) (qos id : ℕ) (retain dup : Bool) (c : Client)
    → qos ≤ 2
    → id < 2 ^ 16
    → length topic < 2 ^ 16
    → length (publish_body topic payload qos id) < max_length
    → (pkt : Packet) × (read_packet (build_publish topic payload qos retain id dup ++ rest)
        ≡ ok (pkt, rest))
      × Outcome qos id topic payload c (handle pkt c)
unfolding build_publish
handle-build_publish topic payload rest qos id retain dup c low id_small small fits =
    let f = flags_lem qos retain dup low in
    let body = publish_body topic payload qos id in
    let flags = publish_flags qos retain dup in
    let pkt : Packet = record { ptype = packet_publish; flags = flags; body = body } in
    let read : read_packet (wrap packet_publish flags body ++ rest) ≡ ok (pkt, rest) =
      rw (lt→ltb _ _ fits) at
        (read_packet-wrap packet_publish flags body rest (omega arith) f.bounded) in
    (
      pkt,
      read,
      rw (handle-publish_body flags qos id topic payload c small id_small f.level)
          (Outcome-receive_by_qos qos id topic payload c low),
    )
