-- ===== src/Engine/Scheduler/Wanted.antt =====
-- The jobs after a synchronisation, and the period of a job.
use wrtdeck.Registry.Store.{EntryStore}
use wrtdeck.Engine.Scheduler.Slots.{IsScheduled}
use wrtdeck.Prelude.{
  ltb, if◌then◌else◌, is_some, kept, get-put, get-keep, Dict, get, Text, text_eq, text_eq_iff,
  nat_key, text_key, ℤ, pos, mul_duration, pattern_of, less_signed, ℕ, ◌+◌, ◌*◌, ◌%◌, ◌^◌, ◌≤◌, ◌<◌,
  ◌≡◌, refl, sym, ap, ◌∙◌, Bool, true, false, Option, none, some, [], ◌∷◌, arith,
}
use wrtdeck.Registry.Model.{Entry, interval_ms}
use wrtdeck.Engine.Scheduler.{
  Job, Scheduler, wanted, is_current_job, start_job, start_missing, drop_stale, sync_jobs,
  interval_of,
}

module _ (fingerprint : Entry → Text) where
  -- What a job, or an entry, is recognised by.
  abbrev pub mark_of_job : Option Job → Option Text
  mark_of_job none = none
  mark_of_job (some job) = some job.fingerprint

  abbrev pub mark_of : Option Entry → Option Text
  mark_of none = none
  mark_of (some entry) = some (fingerprint entry)

  abbrev first_mark : Option Text → Option Text → Option Text
  first_mark none later = later
  first_mark (some mark) later = some mark

  -- A job that is there stays, and an entry without one gets one.
  mark-start_missing :
      (id : Text) (want : Dict Text Entry) (s : Scheduler)
      → mark_of_job (get id (start_missing fingerprint want s).jobs)
        ≡ first_mark (mark_of_job (get id s.jobs)) (mark_of (get id want))
  unfolding start_missing start_job get
  mark-start_missing id [] s = no_more (mark_of_job (get id s.jobs))
    where
      no_more : (o : Option Text) → o ≡ first_mark o none
      no_more none = refl
      no_more (some mark) = refl
  mark-start_missing id ((k, entry) ∷ want) s =
      mark-start_missing id want (next_state (is_some (get k s.jobs)))
      ∙ by_test (get k s.jobs) (text_eq k id) refl refl
    where
      next_state : Bool → Scheduler
      next_state b = if b then s else start_job fingerprint k entry s

      made : Job
      made = record { number = s.next_job; entry = entry; fingerprint = fingerprint entry }

      at_same : {o : Option Job} → text_eq k id ≡ true → get k s.jobs ≡ o → get id s.jobs ≡ o
      at_same same there = ap (λ (j : Text). get j s.jobs) (sym ((text_eq_iff k id).0 same)) ∙ there

      by_test :
          (o : Option Job) (b : Bool)
          → get k s.jobs ≡ o
          → text_eq k id ≡ b
          → first_mark (mark_of_job (get id (next_state (is_some o)).jobs)) (mark_of (get id want))
            ≡ first_mark
                (mark_of_job (get id s.jobs))
                (mark_of (if b then some entry else get id want))
      by_test (some job) false there other = refl
      by_test (some job) true there same =
          let found = at_same same there in
          ap (λ (o : Option Job). first_mark (mark_of_job o) (mark_of (get id want))) found
          ∙ sym
              (ap (λ (o : Option Job). first_mark (mark_of_job o) (some (fingerprint entry))) found)
      by_test none false there other =
          ap (λ (o : Option Job). first_mark (mark_of_job o) (mark_of (get id want)))
            (get-put id k made s.jobs
              ∙ ap (λ (b : Bool). if b then some made else get id s.jobs) other)
      by_test none true there same =
          ap (λ (o : Option Job). first_mark (mark_of_job o) (mark_of (get id want)))
            (get-put id k made s.jobs
              ∙ ap (λ (b : Bool). if b then some made else get id s.jobs) same)
          ∙ sym (
              ap (λ (o : Option Job). first_mark (mark_of_job o) (some (fingerprint entry)))
                (at_same same there))

  abbrev kept_job : Option Entry → Option Job → Option Job
  kept_job entry none = none
  kept_job entry (some job) = if is_current_job fingerprint entry job then some job else none

  -- What a synchronisation keeps of one job, and what is added.
  kept_mark :
      (job : Option Job) (entry : Option Entry)
      → first_mark (mark_of_job (kept_job entry job)) (mark_of entry) ≡ mark_of entry
  kept_mark none entry = refl
  kept_mark (some job) none = refl
  kept_mark (some job) (some entry) = by_mark (text_eq (fingerprint entry) job.fingerprint) refl
    where
      by_mark :
          (b : Bool)
          → text_eq (fingerprint entry) job.fingerprint ≡ b
          → first_mark (mark_of_job (if b then some job else none)) (some (fingerprint entry))
            ≡ some (fingerprint entry)
      by_mark false e = refl
      by_mark true e = ap some (sym ((text_eq_iff (fingerprint entry) job.fingerprint).0 e))

  -- The names of the jobs after a synchronisation are those of the wanted entries.
  pub mark-sync_jobs :
      (id : Text) (store : EntryStore) (s : Scheduler)
      → IsScheduled s
      → s.is_started ≡ true
      → mark_of_job (get id (sync_jobs fingerprint store s).jobs) ≡ mark_of (get id (wanted store))
  unfolding sync_jobs drop_stale
  mark-sync_jobs id store s v on =
      let want = wanted store in
      ap
        (λ (b : Bool). mark_of_job (
          get id
            (if b then start_missing fingerprint want (drop_stale fingerprint want s) else s).jobs))
        on
      ∙ mark-start_missing id want (drop_stale fingerprint want s)
      ∙ ap (λ (o : Option Job). first_mark (mark_of_job o) (mark_of (get id want)))
          (get-keep (λ j job. is_current_job fingerprint (get j want) job) id s.jobs v.distinct
            ∙ same_kept (get id s.jobs))
      ∙ kept_mark (get id s.jobs) (get id want)
    where
      same_kept :
          (o : Option Job)
          → kept (λ j job. is_current_job fingerprint (get j (wanted store)) job) id o
            ≡ kept_job (get id (wanted store)) o
      same_kept none = refl
      same_kept (some job) = refl

shifted : (a : ℕ) → a < 2 ^ 63 → (a + 2 ^ 63) % 2 ^ 64 ≡ a + 2 ^ 63
shifted a h = omega arith

ltb_shifted : (a b c : ℕ) → ltb (a + c) (b + c) ≡ ltb a b
ltb_shifted a b c = ground arith

less_signed_small : (a b : ℕ) → a < 2 ^ 63 → b < 2 ^ 63 → less_signed a b ≡ ltb a b
less_signed_small a b ha hb =
    ap (λ (x : ℕ). ltb x ((b + 2 ^ 63) % 2 ^ 64)) (shifted a ha)
    ∙ ap (ltb (a + 2 ^ 63)) (shifted b hb)
    ∙ ltb_shifted a b (2 ^ 63)

milliseconds : (n : ℕ) → n ≤ 9223372036854 → n % 2 ^ 64 * 1000000 % 2 ^ 64 ≡ n * 1000000
milliseconds n h = omega arith

-- The period of an entry of up to 9223372036854 milliseconds, more than 292 years, is that many
-- milliseconds in nanoseconds without an overflow, or the least period of the scheduler where that
-- is more.
pub interval_of_lem :
    (s : Scheduler) (entry : Entry) (n : ℕ)
    → interval_ms s.fallback_ms entry ≡ pos n
    → n ≤ 9223372036854
    → s.min_interval < 2 ^ 63
    → interval_of s entry
      ≡ (if ltb (n * 1000000) s.min_interval then s.min_interval else n * 1000000)
unfolding interval_of
interval_of_lem s entry n e small least =
    let exact : mul_duration (pattern_of (interval_ms s.fallback_ms entry)) 1000000 ≡ n * 1000000 =
      ap (λ (z : ℤ). mul_duration (pattern_of z) 1000000) e ∙ milliseconds n small in
    ap (λ (d : ℕ). if less_signed d s.min_interval then s.min_interval else d) exact
    ∙ ap (λ (b : Bool). if b then s.min_interval else n * 1000000)
        (less_signed_small (n * 1000000) s.min_interval (omega arith) least)
