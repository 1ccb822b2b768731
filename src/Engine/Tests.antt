-- ===== src/Engine/Tests.antt =====
-- Runs of the executor and the scheduler, and the theorems at concrete inputs.

use wrtdeck.Prelude.{
  ltb, if◌then◌else◌, Dict, get, put, Text, text_eq, nat_key, text_key, codes, pos, trim_space,
  Value, string, boolean, float, Printing, ◌*◌, ◌^◌, ◌<◌, ◌≡◌, refl, inl, inr, true, false, none,
  some, List, [], ◌∷◌, arith,
}
use wrtdeck.Registry.Model.{Entry, interval_ms}
use wrtdeck.Registry.Samples.{lamp, level, dim}
use wrtdeck.Registry.Store.{EntryStore, new_entries, get_entry}
use wrtdeck.Config.Secrets.{empty_secrets}
use wrtdeck.State.History.{new_history}
use wrtdeck.State.Hub.{new_hub}
use wrtdeck.Engine.Params.{missing_param, validate_input}
use wrtdeck.Engine.Params.Conforming.{Fits}
use wrtdeck.Engine.Params.Fitting.{validate_input-Fits}
use wrtdeck.Engine.Executor.{Executor, refused, World}
use wrtdeck.Engine.Executor.Kept.{EngineStep, begins, finishes, fails, reading, last_reading}
use wrtdeck.Engine.Scheduler.{Scheduler, new_scheduler, sync_jobs, start_scheduler, interval_of}
use wrtdeck.Engine.Scheduler.Slots.{
  SchedulerCall, starts, syncs, ticks, step_scheduler, run_scheduler, IsScheduled,
  run_scheduler-IsScheduled,
}
use wrtdeck.Registry.Store.Lookup.{IsKeyed}
use wrtdeck.Engine.Scheduler.Polled.{is_polled, only, sync_jobs_lem}
use wrtdeck.Engine.Scheduler.Wanted.{mark_of_job, mark_of, interval_of_lem}

abbrev plain_printing : Printing
plain_printing = record {
  parse_float = λ t. if text_eq t (codes "3") then some 3 else none;
  float_of = λ n. 0;
  format_float = λ x. [];
  itoa = λ n. [];
  atoi = λ t. none;
  sprint = λ v. [];
  marshal = λ v. [];
}

-- A number that is written as a text.
abbrev asked : Dict Text Value
asked = (codes "level", string (codes " 3")) ∷ []

abbrev checked_params : Dict Text Value
checked_params = (codes "level", float 3) ∷ []

params_checked : validate_input plain_printing dim asked ≡ inr checked_params
unfolding validate_input get trim_space put
params_checked = refl

params_needed : validate_input plain_printing dim [] ≡ inl (missing_param (codes "level"))
unfolding validate_input get
params_needed = refl

validate_input-Fits_example : Fits level (get (codes "level") checked_params)
unfolding get
validate_input-Fits_example =
    validate_input-Fits plain_printing dim asked checked_params (codes "level") level (refl, tt)
      params_checked refl

abbrev plain_world : World
plain_world = record {
  reader = record {
    printing = plain_printing;
    unmarshal = λ t. none;
    submatches = λ pattern subject. none;
  };
  exchange = λ spec. refused (codes "no route");
  explain = λ e. codes "error";
}

abbrev idle : Executor
idle = record { states = []; history = new_history (pos 3); hub = new_hub; secrets = empty_secrets }

-- A run that succeeds, and one that fails.
abbrev steps : List EngineStep
steps =
    begins 1 lamp
    ∷ finishes 2 lamp (record {
      outcome = inr (record { value = boolean true; text = codes "on" });
      latency_ms = 4;
      detail = [];
    })
    ∷ begins 3 lamp
    ∷ fails 4 lamp [] (codes "no route")
    ∷ []

reading_stays :
    last_reading (codes "lamp") plain_world steps (reading (codes "lamp") idle)
    ≡ (some (boolean true), codes "on")
unfolding last_reading
reading_stays = refl

abbrev entry_name : Entry → Text
entry_name e = e.id

abbrev one_source : EntryStore
one_source = record { path = false; entries = (codes "lamp", lamp) ∷ [] }

-- Two runs of one job are asked for, and the job is dropped while one lasts.
abbrev scheduler_calls : List SchedulerCall
scheduler_calls = starts ∷ syncs one_source ∷ ticks 0 ∷ ticks 0 ∷ syncs (new_entries false) ∷ []

run_scheduler-IsScheduled_example :
    IsScheduled
      (run_scheduler entry_name scheduler_calls (new_scheduler (pos 1) (pos 5000) (pos 1000)))
run_scheduler-IsScheduled_example =
    run_scheduler-IsScheduled entry_name scheduler_calls (pos 1) (pos 5000) (pos 1000)

abbrev started : Scheduler
started = run_scheduler entry_name (starts ∷ []) (new_scheduler (pos 1) (pos 5000) (pos 1000))

is_started_now : started.is_started ≡ true
unfolding run_scheduler step_scheduler start_scheduler
is_started_now = refl

one_source-IsKeyed : IsKeyed one_source.entries
unfolding IsKeyed get
one_source-IsKeyed = (refl, refl, tt)

lamp_polled : only is_polled (get_entry (codes "lamp") one_source) ≡ some lamp
unfolding get_entry get
lamp_polled = refl

sync_jobs_lem_example :
    mark_of_job entry_name (get (codes "lamp") (sync_jobs entry_name one_source started).jobs)
    ≡ mark_of entry_name (only is_polled (get_entry (codes "lamp") one_source))
sync_jobs_lem_example =
    sync_jobs_lem entry_name (codes "lamp") one_source started one_source-IsKeyed
      (run_scheduler-IsScheduled entry_name (starts ∷ []) (pos 1) (pos 5000) (pos 1000))
      is_started_now

period_read : interval_ms started.fallback_ms lamp ≡ pos 5000
unfolding run_scheduler interval_ms new_scheduler
period_read = refl

least_small : started.min_interval < 2 ^ 63
unfolding run_scheduler new_scheduler
least_small = omega arith

interval_of_lem_example :
    interval_of started lamp
    ≡ (if ltb (5000 * 1000000) started.min_interval then started.min_interval else 5000 * 1000000)
interval_of_lem_example = interval_of_lem started lamp 5000 period_read (omega arith) least_small
