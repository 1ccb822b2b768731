-- ===== src/Api/Panel/Synced.antt =====
-- What brings the jobs in line with the registry never panics.

use wrtdeck.Prelude.{
  if◌then◌else◌, is_some, Dict, get, Text, nat_key, text_key, codes, ℕ, ◌≡◌, refl, ap, ◌∙◌, Bool,
  true, false, Option, some, [], ◌∷◌,
}
use wrtdeck.Registry.Model.{Entry}
use wrtdeck.Registry.Store.{EntryStore}
use wrtdeck.State.Hub.Channels.{IsValid}
use wrtdeck.Engine.Executor.{registry_changed, event_of}
use wrtdeck.Engine.Executor.Kept.{with_hub_lem}
use wrtdeck.Engine.Scheduler.{Scheduler, wanted, start_job, start_missing, drop_stale, sync_jobs}
use wrtdeck.Engine.Scheduler.Slots.{syncs, step_scheduler, IsScheduled, step_scheduler-IsScheduled}
use wrtdeck.Engine.Scheduler.Wanted.{mark_of_job, mark_of, mark-sync_jobs}
use wrtdeck.Engine.Subscriber.Total.{sync_subs-IsTotal}
use wrtdeck.Api.Panel.{
  Panel, PanelWorld, with_subs, sync_panel, with_exec, publish_change, after_registry_change,
}

-- A panel at work.
pub record IsPanel (p : Panel) : Type 0 where
  pub hub_valid : IsValid p.exec.hub
  pub scheduled : IsScheduled p.sched
  pub started : p.sched.is_started ≡ true

-- Each name has the job of the entry that is wanted under it, and no other.
abbrev pub IsInLine : PanelWorld → Panel → Type 0
IsInLine world p =
    (id : Text)
    → mark_of_job world.fingerprint (get id p.sched.jobs)
      ≡ mark_of world.fingerprint (get id (wanted p.store))

-- An answer with a panel in line, whose registry is as before.
pub record IsSynced (world : PanelWorld) (o : Option Panel) (p : Panel) : Type 0 where
  pub after : Panel
  pub done : o ≡ some after
  pub panel : IsPanel after
  pub in_line : IsInLine world after
  pub same_store : after.store ≡ p.store
  pub same_file : after.file ≡ p.file

is_started-start_missing :
    (fingerprint : Entry → Text) (want : Dict Text Entry) (s : Scheduler)
    → (start_missing fingerprint want s).is_started ≡ s.is_started
unfolding start_missing start_job
is_started-start_missing fingerprint [] s = refl
is_started-start_missing fingerprint ((id, entry) ∷ want) s =
    is_started-start_missing fingerprint want _ ∙ by_test (is_some (get id s.jobs))
  where
    by_test :
        (b : Bool) → (if b then s else start_job fingerprint id entry s).is_started ≡ s.is_started
    by_test true = refl
    by_test false = refl

is_started-sync_jobs :
    (fingerprint : Entry → Text) (store : EntryStore) (s : Scheduler)
    → (sync_jobs fingerprint store s).is_started ≡ s.is_started
unfolding sync_jobs drop_stale
is_started-sync_jobs fingerprint store s = by_start s.is_started
  where
    by_start :
        (b : Bool)
        → (if b
            then start_missing fingerprint (wanted store) (drop_stale fingerprint (wanted store) s)
            else s).is_started
          ≡ s.is_started
    by_start true =
        is_started-start_missing fingerprint (wanted store)
          (drop_stale fingerprint (wanted store) s)
    by_start false = refl

module _ (world : PanelWorld) (now : ℕ) where
  pub sync_panel-IsSynced : (p : Panel) → IsPanel p → IsSynced world (sync_panel world now p) p
  unfolding sync_panel step_scheduler
  sync_panel-IsSynced p v =
      let t =
        sync_subs-IsTotal world.broker world.engine.reader.printing now world.fingerprint p.store
          p.subs p.exec v.hub_valid in
      let sched = sync_jobs world.fingerprint p.store p.sched in
      record {
        after = record p { sched = sched; subs = t.manager; exec = t.after };
        done = ap (with_subs (record p { sched = sched })) t.done;
        panel = record {
          hub_valid = t.hub_valid;
          scheduled =
              step_scheduler-IsScheduled world.fingerprint (syncs p.store) p.sched v.scheduled;
          started = is_started-sync_jobs world.fingerprint p.store p.sched ∙ v.started;
        };
        in_line = λ id. mark-sync_jobs world.fingerprint id p.store p.sched v.scheduled v.started;
        same_store = refl;
        same_file = refl;
      }

  pub after_registry_change-IsSynced :
      (id action : Text) (p : Panel)
      → IsPanel p
      → IsSynced world (after_registry_change world now id action p) p
  unfolding after_registry_change
  after_registry_change-IsSynced id action p v =
      let s = sync_panel-IsSynced p v in
      let d =
        with_hub_lem (event_of (codes "registry.changed") now (registry_changed id action))
          s.after.exec s.panel.hub_valid in
      record {
        after = record s.after { exec = d.after };
        done = ap (publish_change now id action) s.done ∙ ap (with_exec s.after) d.done;
        panel = record {
          hub_valid = d.hub_valid;
          scheduled = s.panel.scheduled;
          started = s.panel.started;
        };
        in_line = s.in_line;
        same_store = s.same_store;
        same_file = s.same_file;
      }
