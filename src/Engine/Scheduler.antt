-- ===== src/Engine/Scheduler.antt =====
-- internal/engine/scheduler.go: the jobs of the sources that are polled, and the slots of their runs. The
-- loop of a job is a sequence of ticks, which the mutex and the atomic flag make single steps; each run ends
-- by a step of its own. `fingerprint` is what `encoding/json` makes of an entry.
pub mod Slots
pub mod Wanted
pub mod Polled
use wrtdeck.Prelude.{
  ltb, leb, ◌==◌, if◌then◌else◌, is_some, Dict, get, put, keep, Text, text_eq, nat_key, text_key, ℤ,
  nat_of, is_positive, mul_duration, pattern_of, less_signed, Value, ℕ, ◌+◌, ◌-◌, ◌^◌, min, Bool,
  true, false, not, ◌&&◌, Option, none, some, List, [], ◌∷◌, ◌++◌,
}
use wrtdeck.Registry.Model.{kind_source, Entry, subscribes, interval_ms}
use wrtdeck.Registry.Store.{EntryStore, list_by_kind}
use wrtdeck.State.Store.{is_okay, SourceState, Store, get_state, mark_stale}
use wrtdeck.Engine.Executor.{Executor, announce}

-- A job is named by its number, since a run can outlast the place of its job in the map.
pub record Job : Type 0 where
  pub number : ℕ
  pub entry : Entry
  pub fingerprint : Text

-- `running` holds the jobs with a run, `cancelled` those whose context is done, and `busy` is how many
-- slots of `source_workers` are taken.
pub record Scheduler : Type 0 where
  pub fallback_ms : ℤ
  pub min_interval : ℕ
  pub workers : ℕ
  pub is_started : Bool
  pub jobs : Dict Text Job
  pub next_job : ℕ
  pub running : List ℕ
  pub cancelled : List ℕ
  pub busy : ℕ

abbrev pub positive_or : ℕ → ℤ → ℕ
positive_or fallback n = if is_positive n then nat_of n else fallback

unfoldable pub new_scheduler : (source_workers fallback_ms min_interval_ms : ℤ) → Scheduler
new_scheduler source_workers fallback_ms min_interval_ms = record {
  fallback_ms = fallback_ms;
  min_interval = mul_duration (positive_or 1000 min_interval_ms) 1000000;
  workers = positive_or 4 source_workers;
  is_started = false;
  jobs = [];
  next_job = 0;
  running = [];
  cancelled = [];
  busy = 0;
}

-- The sources that are polled.
unfoldable pub wanted_from : List Entry → Dict Text Entry → Dict Text Entry
unfolding subscribes
wanted_from [] m = m
wanted_from (e ∷ es) m =
    wanted_from es (if e.enabled && not (subscribes e) then put e.id e m else m)

unfoldable pub wanted : EntryStore → Dict Text Entry
unfolding wanted_from list_by_kind
wanted store = wanted_from (list_by_kind kind_source store) []

module _ (fingerprint : Entry → Text) where
  -- Whether a job is kept: its entry is wanted as it was.
  abbrev pub is_current_job : Option Entry → Job → Bool
  is_current_job none job = false
  is_current_job (some entry) job = text_eq (fingerprint entry) job.fingerprint

  unfoldable pub dropped : Dict Text Entry → Dict Text Job → List ℕ
  dropped want [] = []
  dropped want ((id, job) ∷ jobs) =
      let rest = dropped want jobs in
      if is_current_job (get id want) job then rest else job.number ∷ rest

  unfoldable pub start_job : Text → Entry → Scheduler → Scheduler
  start_job id entry s = record s {
    jobs =
        put id (record { number = s.next_job; entry = entry; fingerprint = fingerprint entry })
          s.jobs;
    next_job = s.next_job + 1;
  }

  -- The jobs of the entries that have none.
  unfoldable pub start_missing : Dict Text Entry → Scheduler → Scheduler
  unfolding start_job
  start_missing [] s = s
  start_missing ((id, entry) ∷ want) s =
      start_missing want (if is_some (get id s.jobs) then s else start_job id entry s)

  unfoldable pub drop_stale : Dict Text Entry → Scheduler → Scheduler
  unfolding dropped
  drop_stale want s = record s {
    jobs = keep (λ id job. is_current_job (get id want) job) s.jobs;
    cancelled = dropped want s.jobs ++ s.cancelled;
  }

  unfoldable pub sync_jobs : EntryStore → Scheduler → Scheduler
  unfolding wanted drop_stale start_missing
  sync_jobs store s =
      let want = wanted store in if s.is_started then start_missing want (drop_stale want s) else s

unfoldable pub start_scheduler : Scheduler → Scheduler
start_scheduler s = record s { is_started = true }

unfoldable pub numbers_of : Dict Text Job → List ℕ
numbers_of [] = []
numbers_of ((id, job) ∷ jobs) = job.number ∷ numbers_of jobs

unfoldable pub stop_scheduler : Scheduler → Scheduler
unfolding numbers_of
stop_scheduler s = record s { jobs = []; cancelled = numbers_of s.jobs ++ s.cancelled }

unfoldable pub has_number : ℕ → List ℕ → Bool
has_number n [] = false
has_number n (m ∷ ms) = if m == n then true else has_number n ms

unfoldable pub without_number : ℕ → List ℕ → List ℕ
without_number n [] = []
without_number n (m ∷ ms) = let rest = without_number n ms in if m == n then rest else m ∷ rest

-- The answer is whether a run starts.
unfoldable pub tick_job : ℕ → Scheduler → Scheduler × Bool
unfolding has_number
tick_job n s =
    if has_number n s.running
    then (s, false)
    else if ltb s.busy s.workers
    then (record s { running = n ∷ s.running; busy = s.busy + 1 }, true)
    else (s, false)

-- The deferred function of a run.
unfoldable pub end_run : ℕ → Scheduler → Scheduler
unfolding has_number without_number
end_run n s =
    if has_number n s.running
    then record s { running = without_number n s.running; busy = s.busy - 1 }
    else s

-- The pattern of the period.
unfoldable pub interval_of : Scheduler → Entry → ℕ
unfolding interval_ms
interval_of s entry =
    let interval = mul_duration (pattern_of (interval_ms s.fallback_ms entry)) 1000000 in
    if less_signed interval s.min_interval then s.min_interval else interval

-- `now.Sub(t)`, which stops at the ends of its type.
abbrev pub since : ℕ → ℕ → ℕ
since now t = if leb t now then min (now - t) (2 ^ 63 - 1) else 2 ^ 64 - min (t - now) (2 ^ 63)

abbrev pub is_overdue : Scheduler → ℕ → Entry → SourceState Value → Bool
is_overdue s now entry st =
    is_okay st.status
    && less_signed (mul_duration 3 (interval_of s entry)) (since now st.updated_at)

abbrev pub swept_as : ℕ → Executor → Store Value × Option (SourceState Value) → Option Executor
swept_as now x (states, none) = some (record x { states = states })
swept_as now x (states, some st) = announce now st (record x { states = states })

-- One source of the sweep.
unfoldable pub sweep_one : Scheduler → ℕ → Entry → Executor → Option Executor
unfolding interval_of get_state mark_stale announce
sweep_one s now entry x = if not entry.enabled then some x else elim (get_state entry.id x.states) [
  | none ↦ some x
  | some st ↦
      if is_overdue s now entry st then swept_as now x (mark_stale entry.id x.states) else some x
]

-- The clock is read once before the sweep; each event carries the time of its own.
unfoldable pub sweep_all : Scheduler → ℕ → List Entry → Executor → Option Executor
unfolding sweep_one
sweep_all s now [] x = some x
sweep_all s now (entry ∷ entries) x = elim (sweep_one s now entry x) [
  | none ↦ none
  | some x' ↦ sweep_all s now entries x'
]

unfoldable pub sweep : Scheduler → ℕ → EntryStore → Executor → Option Executor
unfolding sweep_all list_by_kind
sweep s now store x = sweep_all s now (list_by_kind kind_source store) x
