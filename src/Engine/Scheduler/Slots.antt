-- ===== src/Engine/Scheduler/Slots.antt =====
-- The slots of the runs, through any sequence of calls.
use wrtdeck.Prelude.{
  ltb, ◌==◌, if◌then◌else◌, ltb→lt, Bool-cases, is_some, put-IsDistinct, keep-IsDistinct, length,
  Dict, get, IsDistinct, Text, nat_key, text_key, ℤ, ℕ, ◌+◌, ◌-◌, ◌≤◌, ◌≡◌, refl, inl, inr, Bool,
  true, false, List, [], ◌∷◌, arith,
}
use wrtdeck.Registry.Model.{Entry}
use wrtdeck.Registry.Store.{EntryStore}
use wrtdeck.Engine.Scheduler.{
  Scheduler, new_scheduler, wanted, start_job, start_missing, drop_stale, sync_jobs,
  start_scheduler, stop_scheduler, has_number, without_number, tick_job, end_run,
}

pub data SchedulerCall : Type 0 where
  starts stops : SchedulerCall
  syncs : EntryStore → SchedulerCall
  ticks ends : ℕ → SchedulerCall

unfoldable pub step_scheduler : (Entry → Text) → SchedulerCall → Scheduler → Scheduler
unfolding start_scheduler stop_scheduler sync_jobs tick_job end_run
step_scheduler fingerprint starts s = start_scheduler s
step_scheduler fingerprint stops s = stop_scheduler s
step_scheduler fingerprint (syncs store) s = sync_jobs fingerprint store s
step_scheduler fingerprint (ticks n) s = (tick_job n s).0
step_scheduler fingerprint (ends n) s = end_run n s

unfoldable pub run_scheduler : (Entry → Text) → List SchedulerCall → Scheduler → Scheduler
unfolding step_scheduler
run_scheduler fingerprint [] s = s
run_scheduler fingerprint (call ∷ cs) s =
    run_scheduler fingerprint cs (step_scheduler fingerprint call s)

-- No number stands twice.
unfoldable pub Single : List ℕ → Type 0
Single [] = Unit
Single (n ∷ ns) = (has_number n ns ≡ false) × Single ns

-- Every slot that is taken belongs to one run, a job has one run at most, and there are slots enough.
pub record IsScheduled (s : Scheduler) : Type 0 where
  pub slots : s.busy ≡ length s.running
  pub single : Single s.running
  pub bounded : s.busy ≤ s.workers
  pub distinct : IsDistinct s.jobs

has_number-without_number :
    (m n : ℕ) (ns : List ℕ) → has_number m ns ≡ false → has_number m (without_number n ns) ≡ false
unfolding has_number without_number
has_number-without_number m n [] h = refl
has_number-without_number m n (k ∷ ns) h = ground (arith, has_number-without_number m n ns)

without_number_absent : (n : ℕ) (ns : List ℕ) → has_number n ns ≡ false → without_number n ns ≡ ns
unfolding has_number without_number
without_number_absent n [] h = refl
without_number_absent n (m ∷ ns) h = ground (arith, without_number_absent n ns)

length-without_number :
    (n : ℕ) (ns : List ℕ)
    → Single ns
    → has_number n ns ≡ true
    → length (without_number n ns) + 1 ≡ length ns
unfolding has_number without_number Single
length-without_number n [] v h = cc
length-without_number n (m ∷ ns) v h =
    ground
      (arith, length-without_number n ns, without_number_absent m ns, without_number_absent n ns)

without_number-Single : (n : ℕ) (ns : List ℕ) → Single ns → Single (without_number n ns)
unfolding without_number Single
without_number-Single n [] v = tt
without_number-Single n (m ∷ ns) v = elim (Bool-cases (m == n)) [
  | inl same ↦ rw same (without_number-Single n ns v.1)
  | inr other ↦ rw other (has_number-without_number m n ns v.0, without_number-Single n ns v.1)
]

-- Starting jobs touches no slot.
pub start_missing_lem :
    (fingerprint : Entry → Text) (want : Dict Text Entry) (s : Scheduler)
    → IsScheduled s
    → IsScheduled (start_missing fingerprint want s)
unfolding start_missing start_job
start_missing_lem fingerprint [] s v = v
start_missing_lem fingerprint ((id, entry) ∷ want) s v =
    start_missing_lem fingerprint want _ (by_test (is_some (get id s.jobs)))
  where
    by_test : (b : Bool) → IsScheduled (if b then s else start_job fingerprint id entry s)
    by_test true = v
    by_test false = record {
      slots = v.slots;
      single = v.single;
      bounded = v.bounded;
      distinct = put-IsDistinct id _ s.jobs v.distinct;
    }

pub drop_stale_lem :
    (fingerprint : Entry → Text) (want : Dict Text Entry) (s : Scheduler)
    → IsScheduled s
    → IsScheduled (drop_stale fingerprint want s)
unfolding drop_stale
drop_stale_lem fingerprint want s v = record {
  slots = v.slots;
  single = v.single;
  bounded = v.bounded;
  distinct = keep-IsDistinct _ s.jobs v.distinct;
}

tick_job-IsScheduled : (n : ℕ) (s : Scheduler) → IsScheduled s → IsScheduled (tick_job n s).0
unfolding tick_job
tick_job-IsScheduled n s v = by_run (has_number n s.running) refl
  where
    by_slot :
        (b : Bool)
        → has_number n s.running ≡ false
        → ltb s.busy s.workers ≡ b
        → IsScheduled (
            (λ (r : Scheduler × Bool). r.0)
              (if b
                then (record s { running = n ∷ s.running; busy = s.busy + 1 }, true)
                else (s, false)))
    by_slot false absent room = v
    by_slot true absent room = record {
      slots = ground (arith, v.slots);
      single = unfold Single in (absent, v.single);
      bounded = ground (arith, ltb→lt s.busy s.workers);
      distinct = v.distinct;
    }

    by_run :
        (b : Bool)
        → has_number n s.running ≡ b
        → IsScheduled (
            (λ (r : Scheduler × Bool). r.0)
              (if b
                then (s, false)
                else if ltb s.busy s.workers
                then (record s { running = n ∷ s.running; busy = s.busy + 1 }, true)
                else (s, false)))
    by_run true e = v
    by_run false e = by_slot (ltb s.busy s.workers) e refl

end_run-IsScheduled : (n : ℕ) (s : Scheduler) → IsScheduled s → IsScheduled (end_run n s)
unfolding end_run
end_run-IsScheduled n s v = by_run (has_number n s.running) refl
  where
    by_run :
        (b : Bool)
        → has_number n s.running ≡ b
        → IsScheduled
            (if b then record s { running = without_number n s.running; busy = s.busy - 1 } else s)
    by_run false e = v
    by_run true e = record {
      slots = omega (arith, v.slots, length-without_number n s.running v.single e);
      single = without_number-Single n s.running v.single;
      bounded = omega (arith, v.bounded);
      distinct = v.distinct;
    }

pub step_scheduler-IsScheduled :
    (fingerprint : Entry → Text) (call : SchedulerCall) (s : Scheduler)
    → IsScheduled s
    → IsScheduled (step_scheduler fingerprint call s)
unfolding step_scheduler start_scheduler stop_scheduler sync_jobs
step_scheduler-IsScheduled fingerprint starts s v = record {
  slots = v.slots;
  single = v.single;
  bounded = v.bounded;
  distinct = v.distinct;
}
step_scheduler-IsScheduled fingerprint stops s v = record {
  slots = v.slots;
  single = v.single;
  bounded = v.bounded;
  distinct = tt;
}
step_scheduler-IsScheduled fingerprint (syncs store) s v = by_start s.is_started
  where
    by_start :
        (b : Bool)
        → IsScheduled (
            if b
            then start_missing fingerprint (wanted store) (drop_stale fingerprint (wanted store) s)
            else s)
    by_start true =
        start_missing_lem fingerprint (wanted store) _
          (drop_stale_lem fingerprint (wanted store) s v)
    by_start false = v
step_scheduler-IsScheduled fingerprint (ticks n) s v = tick_job-IsScheduled n s v
step_scheduler-IsScheduled fingerprint (ends n) s v = end_run-IsScheduled n s v

pub run_scheduler_from :
    (fingerprint : Entry → Text) (cs : List SchedulerCall) (s : Scheduler)
    → IsScheduled s
    → IsScheduled (run_scheduler fingerprint cs s)
unfolding run_scheduler
run_scheduler_from fingerprint [] s v = v
run_scheduler_from fingerprint (call ∷ cs) s v =
    run_scheduler_from fingerprint cs (step_scheduler fingerprint call s)
      (step_scheduler-IsScheduled fingerprint call s v)

-- Through any calls on a new scheduler, in any order of ticks and ends of runs, the slots that are
-- taken are as many as the runs, never more than the workers, no job has two runs, and no name has
-- two jobs.
pub run_scheduler-IsScheduled :
    (fingerprint : Entry → Text) (cs : List SchedulerCall) (workers fallback least : ℤ)
    → IsScheduled (run_scheduler fingerprint cs (new_scheduler workers fallback least))
unfolding new_scheduler
run_scheduler-IsScheduled fingerprint cs workers fallback least =
    run_scheduler_from fingerprint cs _
      (record { slots = refl; single = unfold Single in tt; bounded = omega arith; distinct = tt })
