-- ===== src/Engine/Subscriber.antt =====
-- internal/engine/subscriber.go: the subscriptions of the sources that a broker pushes. A subscription is
-- shared by the map and by the calls that attach it, so that it is named by a number; the pool gives a
-- handle to each subscription that it takes, and `live` holds the handles that are not cancelled. A pool
-- that is nil makes every operation do nothing, and is left out.
pub mod Events
pub mod Total
use wrtdeck.Prelude.{
  if◌then◌else◌, is_some, kept, Dict, get, put, keep, Text, text_eq, nat_key, text_key, codes,
  Printing, ℕ, ◌+◌, inl, inr, Bool, false, ◌&&◌, Option, none, some, List, [], ◌∷◌, ◌++◌,
}
use wrtdeck.Template.Render.{RenderError}
use wrtdeck.Registry.Model.{kind_source, MqttSpec, Entry, subscribes}
use wrtdeck.Registry.Mqtt.{Urls, normalize_broker_url}
use wrtdeck.Registry.Problem.{Checked, ok, err}
use wrtdeck.Registry.Store.{EntryStore, list_by_kind}
use wrtdeck.Engine.Render.{render_transport}
use wrtdeck.Engine.Executor.{Executor, scope_of}
use wrtdeck.Engine.Executor.Commands.{mark_source_waiting, mark_source_error}
use wrtdeck.Engine.Scheduler.{without_number}

abbrev pub sub_retry_interval : ℕ
sub_retry_interval = 30000000000

-- A `cancel` that does nothing is `none`, and so is a `next_try` of the zero time.
pub record MqttSub : Type 0 where
  pub entry : Entry
  pub broker : Text
  pub fingerprint : Text
  pub cancel : Option ℕ
  pub busy : Bool
  pub next_try : Option ℕ

pub record SubscriberManager : Type 0 where
  pub subs : Dict ℕ MqttSub
  pub next_sub : ℕ
  pub active : Dict Text ℕ
  pub closed : Bool
  pub live : List ℕ
  pub next_handle : ℕ

abbrev pub new_subscriber_manager : SubscriberManager
new_subscriber_manager = record {
  subs = [];
  next_sub = 0;
  active = [];
  closed = false;
  live = [];
  next_handle = 0;
}

-- The manager, and the executor that it reports to; `none` is a panic of the hub.
abbrev pub Managed : Type 0
Managed = Option (SubscriberManager × Executor)

abbrev pub report : SubscriberManager → Option Executor → Managed
report m none = none
report m (some x) = some (m, x)

infixl 5 ◌>>=◌
abbrev pub ◌>>=◌ : Managed → (SubscriberManager × Executor → Managed) → Managed
none >>= f = none
some mx >>= f = f mx

-- The sources that are subscribed.
unfoldable pub subscribed_from : List Entry → Dict Text Entry → Dict Text Entry
unfolding subscribes
subscribed_from [] m = m
subscribed_from (e ∷ es) m =
    subscribed_from es (if e.enabled && subscribes e then put e.id e m else m)

unfoldable pub subscribed_entries : EntryStore → Dict Text Entry
unfolding subscribed_from list_by_kind
subscribed_entries store = subscribed_from (list_by_kind kind_source store) []

abbrev pub drop_handle : Option ℕ → List ℕ → List ℕ
drop_handle none live = live
drop_handle (some h) live = without_number h live

abbrev pub cancel_of : Option MqttSub → Option ℕ
cancel_of none = none
cancel_of (some sub) = sub.cancel

-- Calls the `cancel` of each subscription.
unfoldable pub cancel_all : Dict ℕ MqttSub → List ℕ → List ℕ → List ℕ
unfolding without_number
cancel_all subs [] live = live
cancel_all subs (n ∷ ns) live = cancel_all subs ns (drop_handle (cancel_of (get n subs)) live)

module _ (fingerprint : Entry → Text) where
  abbrev pub is_same_entry : Option Entry → Option MqttSub → Bool
  is_same_entry (some entry) (some sub) = text_eq (fingerprint entry) sub.fingerprint
  is_same_entry _ _ = false

  unfoldable pub outdated : Dict Text Entry → Dict ℕ MqttSub → Dict Text ℕ → List ℕ
  outdated want subs [] = []
  outdated want subs ((id, n) ∷ active) =
      let rest = outdated want subs active in
      if is_same_entry (get id want) (get n subs) then rest else n ∷ rest

  abbrev pub new_sub : Entry → MqttSub
  new_sub entry = record {
    entry = entry;
    broker = [];
    fingerprint = fingerprint entry;
    cancel = none;
    busy = false;
    next_try = none;
  }

  -- The places of the new subscriptions, with their numbers in the order of the loop.
  unfoldable pub place_missing : Dict Text Entry → SubscriberManager → SubscriberManager × List ℕ
  place_missing [] m = (m, [])
  place_missing ((id, entry) ∷ want) m =
      let placed = record m {
        subs = put m.next_sub (new_sub entry) m.subs;
        next_sub = m.next_sub + 1;
        active = put id m.next_sub m.active;
      } in
      let (m', ns) = place_missing want placed in
      let skipped = place_missing want m in
      if is_some (get id m.active) then skipped else (m', m.next_sub ∷ ns)

  -- What `Sync` does under its lock: the subscriptions to cancel, and those to attach.
  unfoldable pub plan_sync : EntryStore → SubscriberManager → SubscriberManager × List ℕ × List ℕ
  unfolding subscribed_entries outdated place_missing
  plan_sync store m =
      let want = subscribed_entries store in
      let kept = record m {
        active = keep (λ id n. is_same_entry (get id want) (get n m.subs)) m.active;
      } in
      let (placed, pending) = place_missing want kept in
      (placed, outdated want m.subs m.active, pending)

-- What attaching needs of the rest of the program: the pool's answer to a subscription.
pub record Broker : Type 0 where
  pub urls : Urls
  pub subscribe_error : MqttSpec → Option Text
  pub explain_rendering : RenderError → Text
  pub explain_missing : Text

-- How far the attempt of a subscription goes.
pub data Attempt : Type 0 where
  not_attached : (detail reason : Text) → Attempt
  attached : (broker topic : Text) → Attempt

abbrev pub broker_or_empty : Checked Text → Text
broker_or_empty (ok broker) = broker
broker_or_empty (err e) = []

abbrev pub subscribe_attempt : Broker → MqttSpec → Option Text → Attempt
subscribe_attempt world spec (some reason) = not_attached (codes "建立订阅失败") reason
subscribe_attempt world spec none =
    attached (broker_or_empty (normalize_broker_url world.urls spec.broker)) spec.topic

abbrev pub mqtt_attempt : Broker → Option MqttSpec → Attempt
mqtt_attempt world none = not_attached (codes "缺少 MQTT 配置") world.explain_missing
mqtt_attempt world (some spec) = subscribe_attempt world spec (world.subscribe_error spec)

unfoldable pub attempt_of : Broker → Printing → Entry → Executor → Attempt
unfolding render_transport scope_of normalize_broker_url
attempt_of world printing entry x =
    elim (render_transport printing (scope_of x.secrets entry []) entry.transport) [
      | inl e ↦ not_attached (codes "渲染订阅配置失败") (world.explain_rendering e)
      | inr spec ↦ mqtt_attempt world spec.mqtt
    ]

abbrev pub with_retry : ℕ → MqttSub → MqttSub
with_retry now sub = record sub { next_try = some (now + sub_retry_interval) }

-- `fail`, which first marks the source.
unfoldable pub fail_sub : ℕ → ℕ → MqttSub → Text → Text → SubscriberManager → Executor → Managed
unfolding mark_source_error
fail_sub now n sub detail reason m x =
    report (record m { subs = put n (with_retry now sub) m.subs })
      (mark_source_error now sub.entry detail reason x)

abbrev pub attached_sub : ℕ → Text → MqttSub → MqttSub
attached_sub handle broker sub = record sub {
  cancel = some handle;
  broker = broker;
  next_try = none;
}

-- The subscription of the pool is cancelled at once where the manager is closed.
unfoldable pub attach_as : ℕ → ℕ → MqttSub → Attempt → SubscriberManager → Executor → Managed
unfolding fail_sub mark_source_waiting
attach_as now n sub (not_attached detail reason) m x = fail_sub now n sub detail reason m x
attach_as now n sub (attached broker topic) m x =
    if m.closed
    then some (record m { next_handle = m.next_handle + 1 }, x)
    else report
        (record m {
          subs = put n (attached_sub m.next_handle broker sub) m.subs;
          live = m.next_handle ∷ m.live;
          next_handle = m.next_handle + 1;
        })
        (mark_source_waiting now sub.entry (codes "已订阅 " ++ topic ++ codes "，等待 broker 推送") x)

unfoldable pub attach_sub : Broker → Printing → ℕ → ℕ → SubscriberManager × Executor → Managed
unfolding attempt_of attach_as
attach_sub world printing now n (m, x) = elim (get n m.subs) [
  | none ↦ some (m, x)
  | some sub ↦ attach_as now n sub (attempt_of world printing sub.entry x) m x
]

unfoldable pub attach_all : Broker → Printing → ℕ → List ℕ → SubscriberManager × Executor → Managed
unfolding attach_sub
attach_all world printing now [] mx = some mx
attach_all world printing now (n ∷ ns) mx =
    attach_sub world printing now n mx >>= attach_all world printing now ns

abbrev pub carry_out :
    Broker → Printing → ℕ → Executor → SubscriberManager × List ℕ × List ℕ → Managed
carry_out world printing now x (m, to_cancel, pending) =
    attach_all world printing now pending
      (record m { live = cancel_all m.subs to_cancel m.live }, x)

-- `Sync`, with nothing in between its two halves.
unfoldable pub sync_subs :
    (Entry → Text) → Broker → Printing → ℕ → EntryStore → SubscriberManager × Executor → Managed
unfolding plan_sync cancel_all attach_all
sync_subs fingerprint world printing now store (m, x) =
    if m.closed then some (m, x) else carry_out world printing now x (plan_sync fingerprint store m)
