-- ===== src/Engine/Subscriber/Events.antt =====
-- internal/engine/subscriber.go: what the pool and the clock tell the manager, and its end.

use wrtdeck.Prelude.{
  ltb, if◌then◌else◌, length, take, Dict, get, put, Text, text_eq, nat_key, text_key, codes, ℤ,
  nat_of, is_positive, Printing, ℕ, Bool, true, false, not, ◌&&◌, Option, none, some, List, [], ◌∷◌,
  ◌++◌,
}
use wrtdeck.State.Store.{Status, error, stale}
use wrtdeck.Engine.Executor.{Executor, World}
use wrtdeck.Engine.Executor.Commands.{
  apply_message, mark_source_waiting, mark_source_error, source_status,
}
use wrtdeck.Engine.Subscriber.{
  MqttSub, SubscriberManager, Managed, report, cancel_all, Broker, attach_all,
}

unfoldable pub sub_numbers : Dict Text ℕ → List ℕ
sub_numbers [] = []
sub_numbers ((id, n) ∷ active) = n ∷ sub_numbers active

abbrev pub is_due : ℕ → Option ℕ → Bool
is_due now none = false
is_due now (some at) = ltb at now

-- The subscriptions to try again, whose times are cleared.
unfoldable pub take_due : ℕ → List ℕ → Dict ℕ MqttSub → Dict ℕ MqttSub × List ℕ
take_due now [] subs = (subs, [])
take_due now (n ∷ ns) subs = elim (get n subs) [
  | none ↦ take_due now ns subs
  | some sub ↦
      let cleared = take_due now ns (put n (record sub { next_try = none }) subs) in
      let skipped = take_due now ns subs in
      if is_due now sub.next_try then (cleared.0, n ∷ cleared.1) else skipped
]

abbrev pub attach_due :
    Broker → Printing → ℕ → SubscriberManager → Executor → Dict ℕ MqttSub × List ℕ → Managed
attach_due world printing now m x (subs, pending) =
    attach_all world printing now pending (record m { subs = subs }, x)

unfoldable pub retry : Broker → Printing → ℕ → SubscriberManager × Executor → Managed
unfolding take_due attach_all
retry world printing now (m, x) =
    if m.closed
    then some (m, x)
    else attach_due world printing now m x (take_due now (sub_numbers m.active) m.subs)

abbrev pub is_failing : Status → Bool
is_failing error = true
is_failing stale = true
is_failing _ = false

abbrev pub then_announce : Option Executor → (Executor → Option Executor) → Option Executor
then_announce none f = none
then_announce (some x) f = f x

-- What the change of a connection means for one subscription.
unfoldable pub change_one : ℕ → Text → Bool → MqttSub → Text → Executor → Option Executor
unfolding mark_source_error mark_source_waiting source_status
change_one now broker up sub reason x =
    if not up
    then mark_source_error now sub.entry (codes "broker 连接断开") reason x
    else if is_failing (source_status sub.entry.id x)
    then mark_source_waiting now sub.entry (codes "已重连 " ++ broker ++ codes "，等待消息") x
    else some x

abbrev pub change_found : ℕ → Text → Bool → Option MqttSub → Text → Executor → Option Executor
change_found now broker up none reason x = some x
change_found now broker up (some sub) reason x =
    if text_eq sub.broker broker then change_one now broker up sub reason x else some x

unfoldable pub change_all :
    ℕ → Text → Bool → List ℕ → Text → Dict ℕ MqttSub → Executor → Option Executor
unfolding change_one
change_all now broker up [] reason subs x = some x
change_all now broker up (n ∷ ns) reason subs x =
    then_announce (change_found now broker up (get n subs) reason x)
      (change_all now broker up ns reason subs)

-- The mark of a source changes no broker, so that the targets are found on the way.
unfoldable pub on_connection_change : ℕ → Text → Bool → SubscriberManager × Executor → Managed
unfolding change_all
on_connection_change now broker up (m, x) =
    if m.closed
    then some (m, x)
    else report m
        (change_all now broker up (sub_numbers m.active) (broker ++ codes " 连接已断开，等待自动重连") m.subs x)

-- `payload[:limit]`, over the bytes.
abbrev pub cut_payload : ℤ → Text → Text
cut_payload limit payload =
    if is_positive limit && ltb (nat_of limit) (length payload)
    then take (nat_of limit) payload
    else payload

-- A message that comes while another one is handled is dropped.
unfoldable pub handle_message : World → ℤ → ℕ → MqttSub → Text → Text → Executor → Option Executor
unfolding apply_message
handle_message world limit now sub topic payload x =
    if sub.busy
    then some x
    else apply_message world now sub.entry topic (cut_payload limit payload) x

unfoldable pub count_subs : SubscriberManager → ℕ
count_subs m = length m.active

unfoldable pub stop_subs : SubscriberManager → SubscriberManager
unfolding cancel_all sub_numbers
stop_subs m = record m {
  closed = true;
  active = [];
  live = cancel_all m.subs (sub_numbers m.active) m.live;
}
