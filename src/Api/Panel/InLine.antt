-- ===== src/Api/Panel/InLine.antt =====
-- The jobs stay in line with the registry through any sequence of calls.
use wrtdeck.Api.Panel.Runs.{
  DeleteMeans, handle_registry_delete-IsAnswered, handle_action_run-IsAnswered,
}
use mathlib.Core.Path.{subst}
use wrtdeck.Prelude.{
  Dict, get, Text, nat_key, text_key, Value, ℕ, ◌≡◌, refl, sym, ap, ◌∙◌, Bool, true, false, Option,
  none, some, List, [], ◌∷◌,
}
use wrtdeck.Registry.Model.{Entry}
use wrtdeck.Registry.Store.{EntryStore}
use wrtdeck.Engine.Scheduler.{Scheduler, wanted}
use wrtdeck.Engine.Scheduler.Wanted.{mark_of_job, mark_of}
use wrtdeck.Api.Panel.{
  Panel, PanelWorld, PanelReply, bad_json, kind_changed, store_failed, not_found, disabled,
  push_source, refresh_failed, invalid_entry, stored, removed, accepted, run_failed, ran, Replied,
  handle_registry_put, handle_registry_delete, handle_action_run,
}
use wrtdeck.Api.Panel.Synced.{IsPanel, IsInLine}
use wrtdeck.Api.Panel.Put.{PutMeans, IsAnswered, handle_registry_put-IsAnswered}

-- A call of one of the handlers that change something, at its time.
pub data PanelCall : Type 0 where
  puts : ℕ → Text → Option Entry → PanelCall
  deletes : ℕ → Text → PanelCall
  acts : ℕ → Bool → Text → Option (Dict Text Value) → PanelCall

unfoldable pub step_panel : PanelWorld → PanelCall → Panel → Replied
unfolding handle_registry_put handle_registry_delete handle_action_run
step_panel world (puts now id body) p = handle_registry_put world now id body p
step_panel world (deletes now id) p = handle_registry_delete world now id p
step_panel world (acts now admitted id body) p = handle_action_run world now admitted id body p

abbrev pub then_panel : Replied → (Panel → Option Panel) → Option Panel
then_panel none f = none
then_panel (some (p, reply)) f = f p

unfoldable pub run_panel : PanelWorld → List PanelCall → Panel → Option Panel
unfolding step_panel
run_panel world [] p = some p
run_panel world (call ∷ cs) p = then_panel (step_panel world call p) (run_panel world cs)

abbrev run_or : Option Panel → (Panel → Option Panel) → Option Panel
run_or none f = none
run_or (some p) f = f p

-- A panel at work whose jobs are those of its registry.
pub record IsAligned (world : PanelWorld) (o : Option Panel) : Type 0 where
  pub after : Panel
  pub done : o ≡ some after
  pub panel : IsPanel after
  pub in_line : IsInLine world after

module _ (world : PanelWorld) (writes : world.written ≡ true) where
  written_false : {A : Type 0} → world.written ≡ false → A
  written_false h = cc

  kept-IsInLine :
      (p after : Panel)
      → IsInLine world p
      → after.store ≡ p.store
      → after.sched ≡ p.sched
      → IsInLine world after
  kept-IsInLine p after l same_store same_sched id =
      ap (λ (s : Scheduler). mark_of_job world.fingerprint (get id s.jobs)) same_sched
      ∙ l id
      ∙ ap (λ (s : EntryStore). mark_of world.fingerprint (get id (wanted s))) (sym same_store)

  put-IsInLine :
      (given : Entry) (p after : Panel) (reply : PanelReply)
      → IsInLine world p
      → PutMeans world given p after reply
      → IsInLine world after
  put-IsInLine given p after (stored e refreshes) l m = m.2
  put-IsInLine given p after store_failed l (e, accepts, shows, same, failed) = written_false failed
  put-IsInLine given p after (invalid_entry e) l m = subst (IsInLine world) (sym m) l
  put-IsInLine given p after kind_changed l m = subst (IsInLine world) (sym m) l
  put-IsInLine given p after bad_json l m = absurd m
  put-IsInLine given p after not_found l m = absurd m
  put-IsInLine given p after disabled l m = absurd m
  put-IsInLine given p after push_source l m = absurd m
  put-IsInLine given p after refresh_failed l m = absurd m
  put-IsInLine given p after removed l m = absurd m
  put-IsInLine given p after accepted l m = absurd m
  put-IsInLine given p after run_failed l m = absurd m
  put-IsInLine given p after (ran name res) l m = absurd m

  delete-IsInLine :
      (id : Text) (p after : Panel) (reply : PanelReply)
      → IsInLine world p
      → DeleteMeans world id p after reply
      → IsInLine world after
  delete-IsInLine id p after removed l m = m.2
  delete-IsInLine id p after not_found l (absent, same_store, same_sched) =
      kept-IsInLine p after l same_store same_sched
  delete-IsInLine id p after store_failed l (shows, same, failed) = written_false failed
  delete-IsInLine id p after bad_json l m = absurd m
  delete-IsInLine id p after kind_changed l m = absurd m
  delete-IsInLine id p after disabled l m = absurd m
  delete-IsInLine id p after push_source l m = absurd m
  delete-IsInLine id p after refresh_failed l m = absurd m
  delete-IsInLine id p after accepted l m = absurd m
  delete-IsInLine id p after run_failed l m = absurd m
  delete-IsInLine id p after (ran name res) l m = absurd m
  delete-IsInLine id p after (stored e refreshes) l m = absurd m
  delete-IsInLine id p after (invalid_entry e) l m = absurd m

  aligned :
      {means : Panel → PanelReply → Type 0} (o : Replied)
      → IsAnswered o means
      → ((after : Panel) (reply : PanelReply) → means after reply → IsInLine world after)
      → IsAligned world (then_panel o some)
  aligned o a in_line = record {
    after = a.after;
    done = ap (λ (r : Replied). then_panel r some) a.done;
    panel = a.panel;
    in_line = in_line a.after a.reply a.meaning;
  }

  step_panel-IsAligned :
      (call : PanelCall) (p : Panel)
      → IsPanel p
      → IsInLine world p
      → IsAligned world (then_panel (step_panel world call p) some)
  unfolding step_panel handle_registry_put
  step_panel-IsAligned (puts now id none) p v l = record {
    after = p;
    done = refl;
    panel = v;
    in_line = l;
  }
  step_panel-IsAligned (puts now id (some body)) p v l =
      aligned _ (handle_registry_put-IsAnswered world now id body p v)
        (λ after reply. put-IsInLine (record body { id = id }) p after reply l)
  step_panel-IsAligned (deletes now id) p v l =
      aligned _ (handle_registry_delete-IsAnswered world now id p v)
        (λ after reply. delete-IsInLine id p after reply l)
  step_panel-IsAligned (acts now admitted id body) p v l =
      aligned _ (handle_action_run-IsAnswered world now admitted id body p v)
        (λ after reply same. kept-IsInLine p after l same.0 same.1)

  then_panel_lem :
      (o : Replied) (f : Panel → Option Panel) {p : Panel}
      → then_panel o some ≡ some p
      → then_panel o f ≡ f p
  then_panel_lem none f h = cc
  then_panel_lem (some (q, reply)) f h = ap (λ (r : Option Panel). run_or r f) h

  -- Where the file system takes every file, through any sequence of the handlers that put and
  -- remove entries and run actions, on a panel at work whose jobs are in line with its registry,
  -- none panics, the panel stays at work, and each name has the job of the enabled source that is
  -- polled under it, with its present fingerprint, and no other.
  pub run_panel-IsAligned :
      (cs : List PanelCall) (p : Panel)
      → IsPanel p
      → IsInLine world p
      → IsAligned world (run_panel world cs p)
  unfolding run_panel
  run_panel-IsAligned [] p v l = record { after = p; done = refl; panel = v; in_line = l }
  run_panel-IsAligned (call ∷ cs) p v l =
      let first = step_panel-IsAligned call p v l in
      let rest = run_panel-IsAligned cs first.after first.panel first.in_line in
      record {
        after = rest.after;
        done = then_panel_lem (step_panel world call p) (run_panel world cs) first.done ∙ rest.done;
        panel = rest.panel;
        in_line = rest.in_line;
      }
