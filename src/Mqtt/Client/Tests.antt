-- ===== src/Mqtt/Client/Tests.antt =====
-- Runs of the client, and the theorems at concrete inputs.

use wrtdeck.Mqtt.Client.Known.{NotReleased, handle_all}
use wrtdeck.Mqtt.Decoder.{read_uint16}
use wrtdeck.Prelude.{
  ◌==◌, if◌then◌else◌, Bool-cases, is_some, length, get, put, IsDistinct, Text, text_eq,
  text_eq_iff, nat_key, text_key, codes, trim_space, split, contains, byte_length, ℕ, ◌≤◌, ◌<◌, ◌≡◌,
  refl, inl, inr, true, false, none, some, [], ◌∷◌, ◌++◌, arith,
}
use wrtdeck.Mqtt.Packet.{Packet, ok, read_packet, append_uint16, append_string}
use wrtdeck.Mqtt.Packet.Frames.{max_length}
use wrtdeck.Mqtt.Build.{publish_body, build_publish}
use wrtdeck.Mqtt.Topic.{valid_levels, valid_topic_filter}
use wrtdeck.Mqtt.Client.{Client, push, deliver, handle}
use wrtdeck.Mqtt.Client.Register.{register_loop, registered, register}
use wrtdeck.Mqtt.Client.Free.{register_lem}
use wrtdeck.Mqtt.Client.Receive.{Outcome, handle-build_publish}
use wrtdeck.Mqtt.Client.Once.{publish_packet, pubrel_packet, qos2_once}
use wrtdeck.Mqtt.Client.Subscriptions.{reconcile}
use wrtdeck.Mqtt.Client.Converge.{IsReady}
use wrtdeck.Mqtt.Client.Reconcile.{reconcile_lem}

abbrev lamp : Text
lamp = codes "home/lamp"

abbrev door : Text
door = codes "home/door"

-- Identifier 65535 was the last, and 1 is waited for.
abbrev online : Client
online = record {
  connected = true;
  writable = true;
  closed = false;
  on_message = true;
  next_id = 65535;
  pending = (1, []) ∷ [];
  inbound_qos2 = [];
  wanted = (lamp, 1) ∷ [];
  applied = (door, 0) ∷ [];
  written = [];
  delivered = [];
}

register_run :
    (register_loop 3 65535 online.pending ≡ (2, true))
    × (get 1 (deliver 1 0 online).pending ≡ some (0 ∷ []))
unfolding register_loop deliver get put push
register_run = (refl, refl)

online-IsDistinct : IsDistinct online.pending
unfolding get
online-IsDistinct = (refl, tt)

register_lem_example :
    (id : ℕ) × ((register online).1 ≡ registered id)
    × (1 ≤ id)
    × (id ≤ 65535)
    × (get id online.pending ≡ none)
    × ((j : ℕ)
        → get j (register online).0.pending ≡ (if id == j then some [] else get j online.pending))
register_lem_example = register_lem online refl online-IsDistinct (omega arith) (omega arith)

body_fits : length (publish_body lamp (codes "on") 2 7) < max_length
unfolding append_string append_uint16
body_fits = omega arith

handle-build_publish_example :
    (pkt : Packet) × (read_packet (build_publish lamp (codes "on") 2 true 7 false ++ 9 ∷ [])
      ≡ ok (pkt, 9 ∷ []))
    × Outcome 2 7 lamp (codes "on") online (handle pkt online)
handle-build_publish_example =
    handle-build_publish lamp (codes "on") (9 ∷ []) 2 7 true false online (omega arith)
      (omega arith) (omega arith) body_fits

others : NotReleased 7 (pubrel_packet 8)
unfolding read_uint16 append_uint16
others h e = let bad : some 8 ≡ some 7 = e in ground (arith, bad)

qos2_once_example :
    (handle (publish_packet 12 lamp (codes "on") 7) (
      handle_all
        (pubrel_packet 8 ∷ [])
        (handle (publish_packet 4 lamp (codes "on") 7) online))).delivered
    ≡ (handle_all
        (pubrel_packet 8 ∷ [])
        (handle (publish_packet 4 lamp (codes "on") 7) online)).delivered
qos2_once_example =
    qos2_once 7 4 lamp (codes "on") (omega arith) (omega arith) refl 12 lamp (codes "on")
      (pubrel_packet 8 ∷ []) online (omega arith) refl (others, tt)

online-IsReady : IsReady online
online-IsReady = record {
  up = refl;
  accepts = refl;
  distinct = online-IsDistinct;
  room = omega arith;
  small = omega arith;
}

wanted-IsDistinct : IsDistinct online.wanted
unfolding get
wanted-IsDistinct = (refl, tt)

applied-IsDistinct : IsDistinct online.applied
unfolding get
applied-IsDistinct = (refl, tt)

lamp_is_valid : valid_topic_filter lamp ≡ true
unfolding valid_topic_filter valid_levels split contains trim_space byte_length
lamp_is_valid = refl

lamp_valid : (t : Text) → is_some (get t online.wanted) ≡ true → valid_topic_filter t ≡ true
unfolding get
lamp_valid t h = elim (Bool-cases (text_eq lamp t)) [
  | inl same ↦ let here : lamp ≡ t = (text_eq_iff lamp t).0 same in rw (← here) lamp_is_valid
  | inr other ↦ let bad : false ≡ true = rw other at h in cc bad
]

reconcile_lem_example :
    ((reconcile (λ t. some 1) (λ t. some 0) online).1 ≡ true)
    × ((t : Text)
        → get t (reconcile (λ t. some 1) (λ t. some 0) online).0.applied ≡ get t online.wanted)
    × ((reconcile (λ t. some 1) (λ t. some 0) online).0.wanted ≡ online.wanted)
reconcile_lem_example =
    reconcile_lem (λ t. some 1) (λ t. some 0) (λ t. refl) (λ t. refl) online online-IsReady
      wanted-IsDistinct applied-IsDistinct lamp_valid
