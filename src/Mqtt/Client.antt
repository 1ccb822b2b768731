-- ===== src/Mqtt/Client.antt =====
-- internal/mqtt/client.go, session.go and publish.go: the state of a connection, the packets it
-- receives, and the requests that wait for an answer.
pub mod Register
pub mod Free
pub mod Receive
pub mod Known
pub mod Once
pub mod Connect
pub mod Subscriptions
pub mod Converge
pub mod Reconcile
mod Tests
use wrtdeck.Prelude.{
  ltb, ◌==◌, if◌then◌else◌, is_some, length, Dict, get, put, delete, Text, nat_key, text_key, pos,
  ℕ, ◌/◌, bit_and, Bool, true, false, ◌&&◌, Option, none, some, List, [], ◌∷◌, ◌++◌,
}
use wrtdeck.Mqtt.Packet.{
  packet_publish, packet_puback, packet_pubrec, packet_pubrel, packet_pubcomp, packet_suback,
  packet_unsuback, packet_disconnect, Packet, wrap,
}
use wrtdeck.Mqtt.Build.{build_ack}
use wrtdeck.Mqtt.Decoder.{Decoder, remaining, read_byte, read_uint16, read_string, read_rest}

-- `conn`, `writer`, `reader` and `link` are set and reset together: `connected`. `writable` is whether
-- a write on the connection succeeds, `on_message` whether the option is set. `pending` holds the codes
-- that wait in each channel. `written` and `delivered` are what the connection and the callback were
-- given so far, the last at the end.
pub record Client : Type 0 where
  pub connected : Bool
  pub writable : Bool
  pub closed : Bool
  pub on_message : Bool
  pub next_id : ℕ
  pub pending : Dict ℕ Text
  pub inbound_qos2 : Dict ℕ Bool
  pub wanted : Dict Text ℕ
  pub applied : Dict Text ℕ
  pub written : List Text
  pub delivered : List (Text × Text)

unfoldable pub new_client : Bool → Client
new_client on_message = record {
  connected = false;
  writable = false;
  closed = false;
  on_message = on_message;
  next_id = 0;
  pending = [];
  inbound_qos2 = [];
  wanted = [];
  applied = [];
  written = [];
  delivered = [];
}

-- A new connection has no subscription yet. A client that was closed drops it.
unfoldable pub attach : Client → Client
attach c =
    if c.closed
    then c
    else record c { connected = true; writable = true; applied = []; written = [] }

-- `detach`: the table of requests is emptied, and the closing of `link` wakes them.
unfoldable pub detach : Client → Client
detach c = record c {
  connected = false;
  writable = false;
  pending = [];
  inbound_qos2 = [];
  applied = [];
}

-- The answer is whether it was sent.
unfoldable pub send : Text → Client → Client × Bool
send bytes c =
    if c.connected && c.writable
    then (record c { written = c.written ++ bytes ∷ [] }, true)
    else (c, false)

unfoldable pub close : Client → Client
unfolding send wrap detach
close c =
    if c.closed
    then c
    else detach (send (wrap packet_disconnect 0 []) (record c { closed = true })).0

-- A channel holds two codes, and drops what comes to it full.
unfoldable pub push : Text → ℕ → Text
push ch code = if ltb (length ch) 2 then ch ++ code ∷ [] else ch

abbrev pub delivered_to : ℕ → ℕ → Option Text → Client → Client
delivered_to packet_id code none c = c
delivered_to packet_id code (some ch) c = record c {
  pending = put packet_id (push ch code) c.pending;
}

unfoldable pub deliver : ℕ → ℕ → Client → Client
unfolding push
deliver packet_id code c = delivered_to packet_id code (get packet_id c.pending) c

abbrev pub decoder_of : Text → Decoder
decoder_of body = record { buf = body; pos = 0 }

abbrev pub resolve_with : Option ℕ → ℕ → Client → Client
resolve_with none code c = c
resolve_with (some packet_id) code c = deliver packet_id code c

unfoldable pub resolve : Text → ℕ → Client → Client
unfolding read_uint16
resolve body code c = resolve_with (read_uint16 (decoder_of body)).1 code c

-- `OnMessage`, where it is set.
unfoldable pub hand_over : Text → Text → Client → Client
hand_over topic payload c =
    if c.on_message then record c { delivered = c.delivered ++ (topic, payload) ∷ [] } else c

-- Every value of `inbound_qos2` is `true`. A packet of QoS 2 whose identifier is known already is acknowledged again and not handed over.
unfoldable pub receive_qos2 : ℕ → Text → Text → Client → Client
unfolding send build_ack
receive_qos2 packet_id topic payload c =
    let duplicate = is_some (get packet_id c.inbound_qos2) in
    let marked = record c { inbound_qos2 = put packet_id true c.inbound_qos2 } in
    let answered = (send (build_ack packet_pubrec packet_id 0) marked).0 in
    if duplicate then answered else hand_over topic payload answered

-- The end of `handle_publish`, by the level.
unfoldable pub receive_by_qos : ℕ → ℕ → Text → Text → Client → Client
unfolding receive_qos2 send build_ack hand_over
receive_by_qos qos packet_id topic payload c =
    if qos == 2
    then receive_qos2 packet_id topic payload c
    else if qos == 1
    then hand_over topic payload (send (build_ack packet_puback packet_id 0) c).0
    else hand_over topic payload c

abbrev pub publish_numbered : ℕ → Text → Decoder × Option ℕ → Client → Client
publish_numbered qos topic (d, none) c = c
publish_numbered qos topic (d, some packet_id) c =
    receive_by_qos qos packet_id topic (read_rest d).1 c

abbrev pub publish_named : ℕ → Decoder × Option Text → Client → Client
publish_named qos (d, none) c = c
publish_named qos (d, some topic) c =
    publish_numbered qos topic (if ltb 0 qos then read_uint16 d else (d, some 0)) c

unfoldable pub handle_publish : Packet → Client → Client
unfolding read_string read_uint16 read_rest receive_by_qos
handle_publish pkt c =
    publish_named (bit_and (pkt.flags / 2) 0x03) (read_string (decoder_of pkt.body)) c

abbrev pub pubrec_with : Option ℕ → Client → Client
pubrec_with none c = c
pubrec_with (some packet_id) c =
    deliver packet_id 1 (send (build_ack packet_pubrel packet_id 0x02) c).0

unfoldable pub handle_pubrec : Packet → Client → Client
unfolding read_uint16 send build_ack deliver
handle_pubrec pkt c = pubrec_with (read_uint16 (decoder_of pkt.body)).1 c

abbrev pub pubrel_with : Option ℕ → Client → Client
pubrel_with none c = c
pubrel_with (some packet_id) c =
    (send (build_ack packet_pubcomp packet_id 0)
      (record c { inbound_qos2 = delete packet_id c.inbound_qos2 })).0

unfoldable pub handle_pubrel : Packet → Client → Client
unfolding read_uint16 send build_ack
handle_pubrel pkt c = pubrel_with (read_uint16 (decoder_of pkt.body)).1 c

abbrev pub suback_coded : ℕ → Option ℕ → Client → Client
suback_coded packet_id none c = c
suback_coded packet_id (some code) c = deliver packet_id code c

abbrev pub suback_with : Text → Decoder × Option ℕ → Client → Client
suback_with body (d, none) c = c
suback_with body (d, some packet_id) c =
    if remaining d == 0 then resolve body 0 c else suback_coded packet_id (read_byte d).1 c

unfoldable pub handle_suback : Packet → Client → Client
unfolding read_uint16 remaining resolve read_byte deliver
handle_suback pkt c = suback_with pkt.body (read_uint16 (decoder_of pkt.body)) c

-- A packet of any other type changes nothing.
unfoldable pub handle : Packet → Client → Client
unfolding handle_publish resolve handle_pubrec handle_pubrel handle_suback
handle pkt c =
    if pkt.ptype == packet_publish
    then handle_publish pkt c
    else if pkt.ptype == packet_puback
    then resolve pkt.body 0 c
    else if pkt.ptype == packet_pubrec
    then handle_pubrec pkt c
    else if pkt.ptype == packet_pubrel
    then handle_pubrel pkt c
    else if pkt.ptype == packet_pubcomp
    then resolve pkt.body 2 c
    else if pkt.ptype == packet_suback
    then handle_suback pkt c
    else if pkt.ptype == packet_unsuback
    then resolve pkt.body 0 c
    else c
