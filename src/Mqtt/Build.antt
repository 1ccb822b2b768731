-- ===== src/Mqtt/Build.antt =====
-- internal/mqtt/packet.go: the packets that the client sends.
use wrtdeck.Mqtt.Packet.{
  packet_connect, packet_publish, packet_subscribe, packet_unsubscribe, protocol_level, wrap,
  append_uint16, append_string,
}
use wrtdeck.Prelude.{
  ltb, if◌then◌else◌, is_empty, Text, nat_key, text_key, codes, ℕ, ◌*◌, ◌%◌, bit_and, bit_or, Bool,
  [], ◌∷◌, ◌++◌,
}

abbrev connect_flags : Bool → Text → Text → ℕ
connect_flags clean_session username password =
    let clean = if clean_session then bit_or 0 0x02 else 0 in
    let named = if is_empty username then clean else bit_or clean 0x80 in
    if is_empty password then named else bit_or named 0x40

unfoldable pub build_connect : Text → Text → Text → ℕ → Bool → Text
unfolding append_string append_uint16 wrap
build_connect client_id username password keepalive clean_session =
    let protocol = append_string [] (codes "MQTT") ++ protocol_level ∷ [] in
    let flagged = protocol ++ connect_flags clean_session username password ∷ [] in
    let timed = append_uint16 flagged keepalive in
    let client = append_string timed client_id in
    let user = if is_empty username then client else append_string client username in
    let body = if is_empty password then user else append_string user password in
    wrap packet_connect 0 body

abbrev pub publish_flags : ℕ → Bool → Bool → ℕ
publish_flags qos retain dup =
    let retained = if retain then bit_or 0 0x01 else 0 in
    let leveled = bit_or retained (bit_and qos 0x03 * 2 % 256) in
    if dup then bit_or leveled 0x08 else leveled

abbrev pub publish_body : Text → Text → ℕ → ℕ → Text
publish_body topic payload qos packet_id =
    let named = append_string [] topic in
    let numbered = if ltb 0 qos then append_uint16 named packet_id else named in numbered ++ payload

unfoldable pub build_publish : Text → Text → ℕ → Bool → ℕ → Bool → Text
unfolding append_string append_uint16 wrap
build_publish topic payload qos retain packet_id dup =
    wrap packet_publish (publish_flags qos retain dup) (publish_body topic payload qos packet_id)

unfoldable pub build_ack : ℕ → ℕ → ℕ → Text
unfolding append_uint16 wrap
build_ack ptype packet_id flags = wrap ptype flags (append_uint16 [] packet_id)

unfoldable pub build_subscribe : ℕ → Text → ℕ → Text
unfolding append_string append_uint16 wrap
build_subscribe packet_id topic qos =
    wrap packet_subscribe 0x02
      (append_string (append_uint16 [] packet_id) topic ++ bit_and qos 0x03 ∷ [])

unfoldable pub build_unsubscribe : ℕ → Text → Text
unfolding append_string append_uint16 wrap
build_unsubscribe packet_id topic =
    wrap packet_unsubscribe 0x02 (append_string (append_uint16 [] packet_id) topic)
