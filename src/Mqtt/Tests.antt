-- ===== src/Mqtt/Tests.antt =====
-- Runs of the packet codec and of the topic filters, and the theorems at concrete inputs.

use wrtdeck.Mqtt.Packet.{eof, ok, err, length_loop, append_remaining_length, read_packet, wrap}
use wrtdeck.Mqtt.Packet.Length.{append_remaining_length_enough}
use wrtdeck.Prelude.{
  Text, nat_key, text_key, codes, trim_space, split, has_prefix, ◌≡◌, refl, ◌↔◌, true, [], ◌∷◌,
  ◌++◌, arith,
}
use wrtdeck.Mqtt.Packet.Frames.{read_packet-wrap}
use wrtdeck.Mqtt.Packet.Truncated.{read_packet_truncated}
use wrtdeck.Mqtt.Topic.{match_levels, topic_matches}
use wrtdeck.Mqtt.Topic.Levels.{TopicMatches, topic_matches_iff}

read_packet-wrap_example :
    read_packet (wrap 3 2 (codes "abc") ++ 9 ∷ [])
    ≡ ok (record { ptype = 3; flags = 2; body = codes "abc" }, 9 ∷ [])
read_packet-wrap_example = read_packet-wrap 3 2 (codes "abc") (9 ∷ []) (omega arith) (omega arith)

abbrev ack_front : Text
ack_front = 64 ∷ 2 ∷ 0 ∷ []

ack_bytes : wrap 4 0 (0 ∷ 7 ∷ []) ≡ ack_front ++ 7 ∷ []
unfolding wrap append_remaining_length length_loop
ack_bytes = refl

read_packet_truncated_example : read_packet ack_front ≡ err eof
read_packet_truncated_example =
    read_packet_truncated 4 0 7 (0 ∷ 7 ∷ []) ack_front [] (omega arith) (omega arith) (omega arith)
      ack_bytes

home_matches : topic_matches (codes " home/+/# ") (codes "home/lamp") ≡ true
unfolding topic_matches match_levels split has_prefix trim_space
home_matches = refl

topic_matches_iff_example :
    (topic_matches (codes " home/+/# ") (codes "home/lamp") ≡ true)
    ↔ TopicMatches (trim_space (codes " home/+/# ")) (codes "home/lamp")
topic_matches_iff_example = topic_matches_iff (codes " home/+/# ") (codes "home/lamp")

append_remaining_length_enough_example : length_loop 1000 [] 300 ≡ append_remaining_length [] 300
append_remaining_length_enough_example = append_remaining_length_enough 1000 [] 300 (omega arith)
