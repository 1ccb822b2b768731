-- ===== src/Api/Panel.antt =====
-- internal/api/handlers_registry.go, handlers_history.go and server.go: the handlers of the registry, the
-- sources and the actions. A handler runs alone here, with one time; a run that it starts is a step of the
-- executor afterwards, and `none` is a panic of the hub. The body of a request is what JSON makes of it.
pub mod Views
pub mod Synced
pub mod Put
pub mod Runs
pub mod InLine
mod Tests
use wrtdeck.Prelude.{
  if◌then◌else◌, Dict, delete, Text, text_eq, nat_key, text_key, codes, Value, ℕ, Bool, false, not,
  ◌&&◌, Option, none, some,
}
use wrtdeck.Registry.Model.{kind_source, kind_action, Entry}
use wrtdeck.Registry.Problem.{Problem, Checked, ok, err}
use wrtdeck.Registry.Mqtt.{Urls}
use wrtdeck.Registry.Validate.{validate}
use wrtdeck.Registry.Store.{EntryStore, EntryCodec, get_entry, put_entry, delete_entry}
use wrtdeck.State.Store.{delete_state}
use wrtdeck.State.History.{enabled, delete_samples}
use wrtdeck.State.Hub.{publish}
use wrtdeck.Engine.Executor.{
  registry_changed, Executor, Response, refused, failed, responded, World, event_of, with_hub,
}
use wrtdeck.Engine.Executor.Commands.{
  ActionResult, cancelled, rejected, exchanged_as, run_action, Refresh, no_such_entry, not_source,
  pushed, started, refresh_source,
}
use wrtdeck.Engine.Scheduler.{Scheduler, sync_jobs}
use wrtdeck.Engine.Subscriber.{SubscriberManager, Managed, Broker, sync_subs}

-- The parts of the server that these handlers change: the registry with its file, the scheduler, the
-- subscriptions and what the executor changes.
pub record Panel : Type 0 where
  pub store : EntryStore
  pub file : Option Text
  pub sched : Scheduler
  pub subs : SubscriberManager
  pub exec : Executor

-- What the handlers use of the rest of the program; `written` is whether the file system takes the file.
pub record PanelWorld : Type 0 where
  pub fingerprint : Entry → Text
  pub codec : EntryCodec
  pub written : Bool
  pub compiles : Text → Bool
  pub urls : Urls
  pub broker : Broker
  pub engine : World

pub data PanelReply : Type 0 where
  bad_json kind_changed store_failed not_found disabled push_source refresh_failed : PanelReply
  invalid_entry : Problem → PanelReply
  -- Whether a run of the source is started too.
  stored : Entry → (refreshes : Bool) → PanelReply
  removed accepted : PanelReply
  run_failed : PanelReply
  ran : Text → Response → PanelReply

abbrev pub Replied : Type 0
Replied = Option (Panel × PanelReply)

-- `Scheduler.Sync`: the jobs, then the subscriptions.
abbrev pub with_subs : Panel → Managed → Option Panel
with_subs p none = none
with_subs p (some (subs, x)) = some (record p { subs = subs; exec = x })

unfoldable pub sync_panel : PanelWorld → ℕ → Panel → Option Panel
unfolding sync_jobs sync_subs
sync_panel world now p =
    let sched = sync_jobs world.fingerprint p.store p.sched in
    with_subs (record p { sched = sched })
      (sync_subs world.fingerprint world.broker world.engine.reader.printing now p.store
        (p.subs, p.exec))

abbrev pub with_exec : Panel → Option Executor → Option Panel
with_exec p none = none
with_exec p (some x) = some (record p { exec = x })

abbrev pub publish_change : ℕ → Text → Text → Option Panel → Option Panel
publish_change now id action none = none
publish_change now id action (some p) = with_exec p (
    with_hub p.exec
      (publish (event_of (codes "registry.changed") now (registry_changed id action)) p.exec.hub))

unfoldable pub after_registry_change : PanelWorld → ℕ → Text → Text → Panel → Option Panel
unfolding sync_panel publish
after_registry_change world now id action p = publish_change now id action (sync_panel world now p)

abbrev pub reply_with : PanelReply → Option Panel → Replied
reply_with reply none = none
reply_with reply (some p) = some (p, reply)

abbrev pub has_other_kind : Text → Option Entry → Bool
has_other_kind kind none = false
has_other_kind kind (some existing) = not (text_eq existing.kind kind)

-- The entry is in memory whether or not the file was written.
abbrev pub put_as : PanelWorld → ℕ → Entry → Panel → EntryStore × Option Text × Bool → Replied
put_as world now entry p (store, file, saved) =
    let p' = record p { store = store; file = file } in
    if saved
    then reply_with (stored entry (text_eq entry.kind kind_source && entry.enabled))
        (after_registry_change world now entry.id (codes "upsert") p')
    else some (p', store_failed)

abbrev pub put_checked : PanelWorld → ℕ → Text → Panel → Checked Entry → Replied
put_checked world now id p (err e) = some (p, invalid_entry e)
put_checked world now id p (ok entry) =
    if has_other_kind entry.kind (get_entry id p.store)
    then some (p, kind_changed)
    else put_as world now entry p (put_entry world.codec world.written entry p.store p.file)

-- The identifier of the path replaces that of the body.
unfoldable pub handle_registry_put : PanelWorld → ℕ → Text → Option Entry → Panel → Replied
unfolding validate get_entry put_entry after_registry_change
handle_registry_put world now id none p = some (p, bad_json)
handle_registry_put world now id (some body) p =
    put_checked world now id p (validate world.compiles world.urls (some (record body { id = id })))

abbrev pub without_source : Text → Executor → Executor
without_source id x = record x {
  states = delete_state id x.states;
  history = delete_samples id x.history;
}

abbrev pub delete_as :
    PanelWorld → ℕ → Text → Panel → EntryStore × (Option Text × Bool) × Bool → Replied
delete_as world now id p (store, (file, saved), found) =
    let p' = record p { store = store; file = file } in
    if not saved
    then some (p', store_failed)
    else if not found
    then some (p', not_found)
    else reply_with removed (
        after_registry_change world now id (codes "delete")
          (record p' { exec = without_source id p.exec }))

unfoldable pub handle_registry_delete : PanelWorld → ℕ → Text → Panel → Replied
unfolding delete_entry delete_state delete_samples after_registry_change
handle_registry_delete world now id p =
    delete_as world now id p (delete_entry world.codec world.written id p.store p.file)

abbrev pub ran_as : Text → ActionResult → PanelReply
ran_as id (exchanged_as (responded res)) = ran id res
ran_as id (exchanged_as (refused reason)) = run_failed
ran_as id (exchanged_as (failed res reason)) = run_failed
ran_as id (rejected e) = run_failed
ran_as id cancelled = run_failed

abbrev pub act_replied : Text → Panel → Option (Executor × ActionResult) → Replied
act_replied id p none = none
act_replied id p (some (x, result)) = some (record p { exec = x }, ran_as id result)

-- A body that is left out is a request without parameters; `admitted` is as for `RunAction`.
abbrev pub run_found :
    PanelWorld → ℕ → Bool → Option (Dict Text Value) → Panel → Option Entry → Replied
run_found world now admitted body p none = some (p, not_found)
run_found world now admitted none p (some entry) =
    if not (text_eq entry.kind kind_action)
    then some (p, not_found)
    else if not entry.enabled
    then some (p, disabled)
    else some (p, bad_json)
run_found world now admitted (some params) p (some entry) =
    if not (text_eq entry.kind kind_action)
    then some (p, not_found)
    else if not entry.enabled
    then some (p, disabled)
    else act_replied entry.id p (run_action world.engine now admitted entry params p.exec)

unfoldable pub handle_action_run :
    PanelWorld → ℕ → Bool → Text → Option (Dict Text Value) → Panel → Replied
unfolding get_entry run_action
handle_action_run world now admitted id body p =
    run_found world now admitted body p (get_entry id p.store)

-- The handler asks for the entry before `RefreshSource` does.
abbrev pub refreshed_as : Refresh → PanelReply
refreshed_as no_such_entry = not_found
refreshed_as not_source = refresh_failed
refreshed_as pushed = push_source
refreshed_as started = accepted

unfoldable pub handle_source_refresh : Text → Panel → PanelReply
unfolding refresh_source
handle_source_refresh id p = refreshed_as (refresh_source id p.store)
