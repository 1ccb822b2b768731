-- ===== src/Api/Panel/Runs.antt =====
-- Any sequence of changes of the registry and of actions.

use mathlib.Core.Path.{fun_ext}
use wrtdeck.Prelude.{
  if◌then◌else◌, is_some, get-delete, delete_absent, Dict, get, delete, Text, text_eq, nat_key,
  text_key, codes, Value, ℕ, ◌≡◌, refl, ap, ◌∙◌, ◌⊎◌, inl, inr, Bool, true, false, not, Option,
  none, some,
}
use wrtdeck.Registry.Model.{kind_action, TransportSpec, Entry}
use wrtdeck.Registry.Store.{EntryStore, save_entries, get_entry, deleted_as, delete_entry}
use wrtdeck.State.Hub.Channels.{IsValid}
use wrtdeck.Engine.Params.{ParamError, validate_input}
use wrtdeck.Engine.Render.{render_transport}
use wrtdeck.Engine.Executor.{Executor, rendering, checking, World, scope_of}
use wrtdeck.Engine.Executor.Commands.{
  finish_action, ActionResult, cancelled, rejected, exchanged_as, is_responded, reason_of, answer,
  reject, act, run_action,
}
use wrtdeck.Engine.Executor.Kept.{ReadingOf, reading}
use wrtdeck.Engine.Executor.Steps.{IsStep, finish_action-IsStep}
use wrtdeck.Template.Render.{RenderError}
use wrtdeck.Api.Panel.{
  Panel, PanelWorld, PanelReply, bad_json, store_failed, not_found, disabled, removed, Replied,
  reply_with, without_source, delete_as, handle_registry_delete, ran_as, act_replied, run_found,
  handle_action_run,
}
use wrtdeck.Api.Panel.Synced.{IsPanel, IsInLine, after_registry_change-IsSynced}
use wrtdeck.Api.Panel.Put.{view, bound, IsAnswered, same_answer, unwritten}

-- What the answer to a removal means.
abbrev pub DeleteMeans : PanelWorld → Text → Panel → Panel → PanelReply → Type 0
DeleteMeans world id p after removed =
    (is_some (view p id) ≡ true) × (view after ≡ bound id none (view p)) × IsInLine world after
DeleteMeans world id p after not_found =
    (view p id ≡ none) × (after.store ≡ p.store) × (after.sched ≡ p.sched)
DeleteMeans world id p after store_failed =
    (view after ≡ bound id none (view p)) × (after.sched ≡ p.sched) × (world.written ≡ false)
DeleteMeans world id p after _ = ⊥

-- The handler of a removal answers without a panic and leaves the panel at work: where it removes
-- the entry, that was there, only its name is unbound, and the jobs are in line; where there was
-- none, the registry and the jobs are as before; where the file is not written, which only a
-- failure of the file system causes, the entry is gone from memory, but its job stays.
pub handle_registry_delete-IsAnswered :
    (world : PanelWorld) (now : ℕ) (id : Text) (p : Panel)
    → IsPanel p
    → IsAnswered (handle_registry_delete world now id p) (DeleteMeans world id p)
unfolding handle_registry_delete delete_entry get_entry
handle_registry_delete-IsAnswered world now id p v = by_found (get id p.store.entries) refl
  where
    less : EntryStore
    less = record p.store { entries = delete id p.store.entries }

    without_entry : Option Text → Executor → Panel
    without_entry file x = record p { store = less; file = file; exec = x }

    at_work : (file : Option Text) → IsPanel (without_entry file p.exec)
    at_work file = record { hub_valid = v.hub_valid; scheduled = v.scheduled; started = v.started }

    shows :
        (file : Option Text) (x : Executor) → view (without_entry file x) ≡ bound id none (view p)
    shows file x = fun_ext λ j. get-delete j id p.store.entries

    by_save :
        (file : Option Text) (saved : Bool)
        → (saved ≡ false → world.written ≡ false)
        → is_some (view p id) ≡ true
        → IsAnswered (delete_as world now id p (less, (file, saved), true)) (DeleteMeans world id p)
    by_save file false unsaved there =
        same_answer (without_entry file p.exec) store_failed _ (at_work file)
          (shows file p.exec, refl, unsaved refl)
    by_save file true unsaved there =
        let x = without_source id p.exec in
        let s =
          after_registry_change-IsSynced world now id (codes "delete") (without_entry file x)
            (record { hub_valid = v.hub_valid; scheduled = v.scheduled; started = v.started }) in
        record {
          after = s.after;
          reply = removed;
          done = ap (reply_with removed) s.done;
          panel = s.panel;
          meaning = (
            there,
            ap (λ (t : EntryStore). λ j. get_entry j t) s.same_store ∙ shows file x,
            s.in_line,
          );
        }

    by_found :
        (o : Option Entry)
        → get id p.store.entries ≡ o
        → IsAnswered
            (delete_as world now id p (deleted_as world.codec world.written less p.file o))
            (DeleteMeans world id p)
    by_found none e = same_answer (without_entry p.file p.exec) not_found _ (at_work p.file) (
      e,
      ap (λ (m : Dict Text Entry). record p.store { entries = m })
          (delete_absent id p.store.entries e),
      refl,
    )
    by_found (some d) e =
        let r = save_entries world.codec world.written less p.file in
        by_save r.0 r.1 (unwritten world.codec world.written less p.file) (ap is_some e)

-- An action changes neither the registry nor the jobs.
abbrev pub Untouched : Panel → Panel → PanelReply → Type 0
Untouched p after reply = (after.store ≡ p.store) × (after.sched ≡ p.sched)

-- A run of an action that answers.
record IsActed (o : Option (Executor × ActionResult)) : Type 0 where
  after : Executor
  result : ActionResult
  done : o ≡ some (after, result)
  hub_valid : IsValid after.hub

answered :
    (result : ActionResult) (id : Text) (o : Option Executor) (new : ReadingOf)
    → IsStep id o new
    → IsActed (answer result o)
answered result id o new step = record {
  after = step.after;
  result = result;
  done = ap (answer result) step.done;
  hub_valid = step.hub_valid;
}

run_action-IsActed :
    (world : World) (now : ℕ) (admitted : Bool) (entry : Entry) (params : Dict Text Value)
    (x : Executor)
    → IsValid x.hub
    → IsActed (run_action world now admitted entry params x)
unfolding run_action act
run_action-IsActed world now admitted entry params x v = by_slot admitted
  where
    ends :
        (done : Bool) (reason : Text)
        → IsStep entry.id (finish_action now entry done reason x) (reading entry.id x)
    ends done reason = finish_action-IsStep entry.id x v now entry done reason

    by_spec :
        (r : RenderError ⊎ TransportSpec)
        → IsActed (elim r as (λ _. Option (Executor × ActionResult)) [
          | inl e ↦ reject world now entry (rendering e) x
          | inr spec ↦
              let exchange = world.exchange spec in
              answer
                (exchanged_as exchange)
                (finish_action now entry (is_responded exchange) (reason_of exchange) x)
        ])
    by_spec (inl e) =
        answered (rejected (rendering e)) entry.id _ _ (ends false (world.explain (rendering e)))
    by_spec (inr spec) =
        let exchange = world.exchange spec in
        answered (exchanged_as exchange) entry.id _ _
          (ends (is_responded exchange) (reason_of exchange))

    by_params :
        (r : ParamError ⊎ Dict Text Value)
        → IsActed (elim r as (λ _. Option (Executor × ActionResult)) [
          | inl e ↦ reject world now entry (checking e) x
          | inr values_of ↦
              elim (render_transport world.reader.printing
                  (scope_of x.secrets entry values_of)
                  entry.transport)
                as (λ _. Option (Executor × ActionResult)) [
                  | inl e ↦ reject world now entry (rendering e) x
                  | inr spec ↦
                      let exchange = world.exchange spec in
                      answer
                        (exchanged_as exchange)
                        (finish_action now entry (is_responded exchange) (reason_of exchange) x)
                ]
        ])
    by_params (inl e) =
        answered (rejected (checking e)) entry.id _ _ (ends false (world.explain (checking e)))
    by_params (inr values_of) = by_spec (
        render_transport world.reader.printing (scope_of x.secrets entry values_of) entry.transport)

    by_slot : (b : Bool) → IsActed (if b then act world now entry params x else some (x, cancelled))
    by_slot true = by_params (validate_input world.reader.printing entry params)
    by_slot false = record { after = x; result = cancelled; done = refl; hub_valid = v }

pub handle_action_run-IsAnswered :
    (world : PanelWorld) (now : ℕ) (admitted : Bool) (id : Text) (body : Option (Dict Text Value))
    (p : Panel)
    → IsPanel p
    → IsAnswered (handle_action_run world now admitted id body p) (Untouched p)
unfolding handle_action_run
handle_action_run-IsAnswered world now admitted id body p v = by_entry body (get_entry id p.store)
  where
    same : (reply : PanelReply) → IsAnswered (some (p, reply)) (Untouched p)
    same reply = same_answer p reply _ v (refl, refl)

    by_tests :
        (a b : Bool) {o : Replied}
        → IsAnswered o (Untouched p)
        → IsAnswered
            (if a then some (p, not_found) else if b then some (p, disabled) else o)
            (Untouched p)
    by_tests true b t = same not_found
    by_tests false true t = same disabled
    by_tests false false t = t

    runs :
        (entry : Entry) (params : Dict Text Value)
        → IsAnswered
            (act_replied entry.id p (run_action world.engine now admitted entry params p.exec))
            (Untouched p)
    runs entry params =
        let t = run_action-IsActed world.engine now admitted entry params p.exec v.hub_valid in
        record {
          after = record p { exec = t.after };
          reply = ran_as entry.id t.result;
          done = ap (act_replied entry.id p) t.done;
          panel = record { hub_valid = t.hub_valid; scheduled = v.scheduled; started = v.started };
          meaning = (refl, refl);
        }

    by_entry :
        (b : Option (Dict Text Value)) (o : Option Entry)
        → IsAnswered (run_found world now admitted b p o) (Untouched p)
    by_entry b none = same not_found
    by_entry none (some entry) =
        by_tests (not (text_eq entry.kind kind_action)) (not entry.enabled) (same bad_json)
    by_entry (some params) (some entry) =
        by_tests (not (text_eq entry.kind kind_action)) (not entry.enabled) (runs entry params)
