-- ===== src/Engine/Subscriber/Total.antt =====
-- A synchronisation of the subscriptions never panics.
use wrtdeck.Prelude.{
  if◌then◌else◌, get, put, Text, nat_key, text_key, codes, Printing, ℕ, ◌+◌, ◌≡◌, refl, ap, ◌∙◌,
  Bool, true, false, Option, none, some, List, [], ◌∷◌, ◌++◌,
}
use wrtdeck.Registry.Model.{Entry}
use wrtdeck.Registry.Store.{EntryStore}
use wrtdeck.State.Hub.Channels.{IsValid}
use wrtdeck.Engine.Executor.{Executor, fresh_state}
use wrtdeck.Engine.Executor.Commands.{mark_source_waiting, mark_source_error}
use wrtdeck.Engine.Executor.Kept.{ReadingOf}
use wrtdeck.Engine.Executor.Steps.{IsStep, mark_source_waiting-IsStep, store_error-IsStep}
use wrtdeck.Engine.Subscriber.{
  MqttSub, SubscriberManager, Managed, report, ◌>>=◌, plan_sync, Broker, Attempt, not_attached,
  attached, attempt_of, fail_sub, attached_sub, attach_as, attach_sub, attach_all, carry_out,
  sync_subs,
}

-- An answer, with a well-formed hub.
pub record IsTotal (o : Managed) : Type 0 where
  pub manager : SubscriberManager
  pub after : Executor
  pub done : o ≡ some (manager, after)
  pub hub_valid : IsValid after.hub

same-IsTotal : (m : SubscriberManager) (x : Executor) → IsValid x.hub → IsTotal (some (m, x))
same-IsTotal m x v = record { manager = m; after = x; done = refl; hub_valid = v }

reported :
    (id : Text) (m : SubscriberManager) (o : Option Executor) (new : ReadingOf)
    → IsStep id o new
    → IsTotal (report m o)
reported id m o new step = record {
  manager = m;
  after = step.after;
  done = ap (report m) step.done;
  hub_valid = step.hub_valid;
}

bind-IsTotal :
    (o : Managed) (f : SubscriberManager × Executor → Managed)
    → IsTotal o
    → ((m : SubscriberManager) (x : Executor) → IsValid x.hub → IsTotal (f (m, x)))
    → IsTotal (o >>= f)
bind-IsTotal o f t next =
    let rest = next t.manager t.after t.hub_valid in
    record {
      manager = rest.manager;
      after = rest.after;
      done = ap (λ (r : Managed). r >>= f) t.done ∙ rest.done;
      hub_valid = rest.hub_valid;
    }

module _ (world : Broker) (printing : Printing) (now : ℕ) where
  attach_as-IsTotal :
      (n : ℕ) (sub : MqttSub) (attempt : Attempt) (m : SubscriberManager) (x : Executor)
      → IsValid x.hub
      → IsTotal (attach_as now n sub attempt m x)
  unfolding attach_as fail_sub mark_source_error
  attach_as-IsTotal n sub (not_attached detail reason) m x v = reported sub.entry.id _ _ _ (
      store_error-IsStep sub.entry.id x v now sub.entry (fresh_state sub.entry now 0 detail) reason
        refl refl)
  attach_as-IsTotal n sub (attached broker topic) m x v = by_closed m.closed
    where
      taken : SubscriberManager
      taken = record m {
        subs = put n (attached_sub m.next_handle broker sub) m.subs;
        live = m.next_handle ∷ m.live;
        next_handle = m.next_handle + 1;
      }

      told : Text
      told = codes "已订阅 " ++ topic ++ codes "，等待 broker 推送"

      by_closed :
          (b : Bool)
          → IsTotal (
              if b
              then some (record m { next_handle = m.next_handle + 1 }, x)
              else report taken (mark_source_waiting now sub.entry told x))
      by_closed true = same-IsTotal _ x v
      by_closed false =
          reported sub.entry.id _ _ _
            (mark_source_waiting-IsStep sub.entry.id x v now sub.entry told)

  attach_sub-IsTotal :
      (n : ℕ) (m : SubscriberManager) (x : Executor)
      → IsValid x.hub
      → IsTotal (attach_sub world printing now n (m, x))
  unfolding attach_sub
  attach_sub-IsTotal n m x v = by_sub (get n m.subs)
    where
      by_sub :
          (o : Option MqttSub)
          → IsTotal (elim o as (λ _. Managed) [
            | none ↦ some (m, x)
            | some sub ↦ attach_as now n sub (attempt_of world printing sub.entry x) m x
          ])
      by_sub none = same-IsTotal m x v
      by_sub (some sub) = attach_as-IsTotal n sub (attempt_of world printing sub.entry x) m x v

  attach_all-IsTotal :
      (ns : List ℕ) (m : SubscriberManager) (x : Executor)
      → IsValid x.hub
      → IsTotal (attach_all world printing now ns (m, x))
  unfolding attach_all
  attach_all-IsTotal [] m x v = same-IsTotal m x v
  attach_all-IsTotal (n ∷ ns) m x v =
      bind-IsTotal (attach_sub world printing now n (m, x)) (attach_all world printing now ns)
        (attach_sub-IsTotal n m x v) (attach_all-IsTotal ns)

  pub sync_subs-IsTotal :
      (fingerprint : Entry → Text) (store : EntryStore) (m : SubscriberManager) (x : Executor)
      → IsValid x.hub
      → IsTotal (sync_subs fingerprint world printing now store (m, x))
  unfolding sync_subs
  sync_subs-IsTotal fingerprint store m x v = by_closed m.closed
    where
      by_closed :
          (b : Bool)
          → IsTotal (
              if b
              then some (m, x)
              else carry_out world printing now x (plan_sync fingerprint store m))
      by_closed true = same-IsTotal m x v
      by_closed false = attach_all-IsTotal _ _ x v
