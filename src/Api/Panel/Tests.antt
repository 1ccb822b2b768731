-- ===== src/Api/Panel/Tests.antt =====
-- Handlers of the panel at concrete inputs.

use wrtdeck.Prelude.{
  get, values, nat_key, text_key, sort_by, codes, pos, Printing, ◌≡◌, refl, true, none, some, List,
  [], ◌∷◌,
}
use wrtdeck.Registry.Samples.{lamp, no_urls}
use wrtdeck.Registry.Store.{new_entries, list, list_by_kind}
use wrtdeck.State.History.{new_history}
use wrtdeck.State.Hub.{new_hub}
use wrtdeck.State.Hub.Channels.{IsValid}
use wrtdeck.State.Hub.Runs.{run_hub, run_hub-IsValid}
use wrtdeck.Config.Secrets.{empty_secrets}
use wrtdeck.Engine.Executor.{Executor, refused}
use wrtdeck.Engine.Scheduler.{Scheduler, new_scheduler, wanted, start_scheduler}
use wrtdeck.Engine.Scheduler.Slots.{
  starts, step_scheduler, run_scheduler, run_scheduler-IsScheduled,
}
use wrtdeck.Engine.Subscriber.{new_subscriber_manager}
use wrtdeck.Api.Panel.{Panel, PanelWorld, handle_registry_put, handle_registry_delete}
use wrtdeck.Api.Panel.Synced.{IsPanel, IsInLine}
use wrtdeck.Api.Panel.Put.{PutMeans, IsAnswered, handle_registry_put-IsAnswered}
use wrtdeck.Api.Panel.Runs.{DeleteMeans, handle_registry_delete-IsAnswered}
use wrtdeck.Api.Panel.InLine.{
  PanelCall, puts, deletes, acts, run_panel, IsAligned, run_panel-IsAligned,
}

abbrev blank_printing : Printing
blank_printing = record {
  parse_float = λ t. none;
  float_of = λ n. 0;
  format_float = λ x. [];
  itoa = λ n. [];
  atoi = λ t. none;
  sprint = λ v. [];
  marshal = λ v. [];
}

abbrev written_world : PanelWorld
written_world = record {
  fingerprint = λ e. e.id;
  codec = record { encode = λ es. []; decode = λ t. none };
  written = true;
  compiles = λ t. true;
  urls = no_urls;
  broker = record {
    urls = no_urls;
    subscribe_error = λ spec. none;
    explain_rendering = λ e. [];
    explain_missing = [];
  };
  engine = record {
    reader = record {
      printing = blank_printing;
      unmarshal = λ t. none;
      submatches = λ pattern subject. none;
    };
    exchange = λ spec. refused [];
    explain = λ e. [];
  };
}

abbrev quiet : Executor
quiet = record {
  states = [];
  history = new_history (pos 3);
  hub = new_hub;
  secrets = empty_secrets;
}

abbrev fresh_sched : Scheduler
fresh_sched = run_scheduler (λ e. e.id) (starts ∷ []) (new_scheduler (pos 2) (pos 5000) (pos 1000))

abbrev fresh_panel : Panel
fresh_panel = record {
  store = new_entries true;
  file = none;
  sched = fresh_sched;
  subs = new_subscriber_manager;
  exec = quiet;
}

quiet_hub : IsValid quiet.hub
unfolding run_hub
quiet_hub = run_hub-IsValid [] quiet.hub refl

fresh_started : fresh_sched.is_started ≡ true
unfolding run_scheduler step_scheduler start_scheduler
fresh_started = refl

fresh-IsPanel : IsPanel fresh_panel
fresh-IsPanel = record {
  hub_valid = quiet_hub;
  scheduled = run_scheduler-IsScheduled (λ e. e.id) (starts ∷ []) (pos 2) (pos 5000) (pos 1000);
  started = fresh_started;
}

fresh-IsInLine : IsInLine written_world fresh_panel
unfolding run_scheduler step_scheduler start_scheduler new_scheduler wanted list_by_kind list
    sort_by values get
fresh-IsInLine id = refl

handle_registry_put-IsAnswered_example :
    IsAnswered
      (handle_registry_put written_world 7 (codes "lamp") (some lamp) fresh_panel)
      (PutMeans written_world (record lamp { id = codes "lamp" }) fresh_panel)
handle_registry_put-IsAnswered_example =
    handle_registry_put-IsAnswered written_world 7 (codes "lamp") lamp fresh_panel fresh-IsPanel

handle_registry_delete-IsAnswered_example :
    IsAnswered
      (handle_registry_delete written_world 7 (codes "lamp") fresh_panel)
      (DeleteMeans written_world (codes "lamp") fresh_panel)
handle_registry_delete-IsAnswered_example =
    handle_registry_delete-IsAnswered written_world 7 (codes "lamp") fresh_panel fresh-IsPanel

abbrev panel_calls : List PanelCall
panel_calls =
    puts 7 (codes "lamp") (some lamp)
    ∷ acts 8 true (codes "lamp") (some [])
    ∷ deletes 9 (codes "lamp")
    ∷ []

run_panel-IsAligned_example :
    IsAligned written_world (run_panel written_world panel_calls fresh_panel)
run_panel-IsAligned_example =
    run_panel-IsAligned written_world refl panel_calls fresh_panel fresh-IsPanel fresh-IsInLine
