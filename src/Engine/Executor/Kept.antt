-- ===== src/Engine/Executor/Kept.antt =====
-- The readings of the sources through any sequence of steps.

use wrtdeck.State.Hub.{Event, publish}
use wrtdeck.State.Hub.Channels.{IsValid}
use wrtdeck.State.Hub.Panics.{publish_lem}
use wrtdeck.State.History.{append}
use wrtdeck.State.Store.{SourceState, Store, set}
use wrtdeck.Prelude.{
  if◌then◌else◌, get-put, get, put, Text, text_eq, text_eq_iff, nat_key, text_key, codes, Value, ℕ,
  ◌≡◌, refl, ap, ◌∙◌, ◌⊎◌, inl, inr, Bool, true, false, Option, none, some, List, [], ◌∷◌,
}
use wrtdeck.Registry.Model.{Entry}
use wrtdeck.Extract.{Extracted, extract}
use wrtdeck.Engine.Executor.{
  Payload, source_updated, Executor, RunError, World, event_of, with_hub, announce, sample_of,
  commit, begin_source, Collected, finish_source,
}
use wrtdeck.Engine.Executor.Commands.{
  run_outcome, apply_message, mark_source_waiting, mark_source_error, finish_action,
}

-- What the executor does, as others see it. An action is seen by its end.
pub data EngineStep : Type 0 where
  begins : ℕ → Entry → EngineStep
  finishes : ℕ → Entry → Collected → EngineStep
  gets_message : ℕ → Entry → (topic payload : Text) → EngineStep
  waits : ℕ → Entry → (detail : Text) → EngineStep
  fails : ℕ → Entry → (detail reason : Text) → EngineStep
  acts : ℕ → Entry → Bool → (reason : Text) → EngineStep

unfoldable pub step_engine : World → EngineStep → Executor → Option Executor
unfolding begin_source finish_source apply_message mark_source_waiting mark_source_error
    finish_action
step_engine world (begins now entry) x = begin_source now entry x
step_engine world (finishes now entry got) x = finish_source world now entry got x
step_engine world (gets_message now entry topic payload) x =
    apply_message world now entry topic payload x
step_engine world (waits now entry detail) x = mark_source_waiting now entry detail x
step_engine world (fails now entry detail reason) x = mark_source_error now entry detail reason x
step_engine world (acts now entry done reason) x = finish_action now entry done reason x

abbrev pub and_run : Option Executor → (Executor → Option Executor) → Option Executor
and_run none f = none
and_run (some x) f = f x

unfoldable pub run_engine : World → List EngineStep → Executor → Option Executor
unfolding step_engine
run_engine world [] x = some x
run_engine world (step ∷ steps) x = and_run (step_engine world step x) (run_engine world steps)

-- The value and the text that a source shows.
abbrev pub ReadingOf : Type 0
ReadingOf = Option Value × Text

abbrev pub shown : Option (SourceState Value) → ReadingOf
shown none = (none, [])
shown (some st) = (st.value, st.text)

unfoldable pub reading : Text → Executor → ReadingOf
reading id x = shown (get id x.states)

-- A successful run or message brings its source a reading; nothing else changes one.
abbrev pub brought_to : Text → Entry → RunError ⊎ Extracted → ReadingOf → ReadingOf
brought_to id entry (inl e) old = old
brought_to id entry (inr v) old = if text_eq entry.id id then (some v.value, v.text) else old

abbrev pub step_reading : Text → World → EngineStep → ReadingOf → ReadingOf
step_reading id world (finishes now entry got) old = brought_to id entry got.outcome old
step_reading id world (gets_message now entry topic payload) old =
    brought_to id entry (run_outcome (extract world.reader entry.extract payload)) old
step_reading id world (begins now entry) old = old
step_reading id world (waits now entry detail) old = old
step_reading id world (fails now entry detail reason) old = old
step_reading id world (acts now entry done reason) old = old

unfoldable pub last_reading : Text → World → List EngineStep → ReadingOf → ReadingOf
last_reading id world [] old = old
last_reading id world (step ∷ steps) old =
    last_reading id world steps (step_reading id world step old)

-- What an operation comes to, where the hub is well-formed.
pub record IsDone (o : Option Executor) (states : Store Value) : Type 0 where
  pub after : Executor
  pub done : o ≡ some after
  pub hub_valid : IsValid after.hub
  pub same_states : after.states ≡ states

pub with_hub_lem :
    (event : Event Payload) (x : Executor)
    → IsValid x.hub
    → IsDone (with_hub x (publish event x.hub)) x.states
with_hub_lem event x v =
    let (hub, sent, valid, each) = publish_lem event x.hub v in
    record {
      after = record x { hub = hub };
      done = ap (with_hub x) sent;
      hub_valid = valid;
      same_states = refl;
    }

pub announce_lem :
    (now : ℕ) (st : SourceState Value) (x : Executor)
    → IsValid x.hub
    → IsDone (announce now st x) x.states
unfolding announce
announce_lem now st x v =
    with_hub_lem (event_of (codes "source.updated") now (source_updated st)) x v

pub commit_lem :
    (now : ℕ) (st : SourceState Value) (x : Executor)
    → IsValid x.hub
    → IsDone (commit now st x) (put st.id st x.states)
unfolding commit set
commit_lem now st x v =
    announce_lem now st
      (record x { states = put st.id st x.states; history = append st.id (sample_of st) x.history })
      v

abbrev pub reading_of : SourceState Value → ReadingOf
reading_of st = (st.value, st.text)

pub shown-put :
    (id : Text) (st : SourceState Value) (m : Store Value)
    → shown (get id (put st.id st m))
      ≡ (if text_eq st.id id then reading_of st else shown (get id m))
shown-put id st m = ap shown (get-put id st.id st m) ∙ through (text_eq st.id id)
  where
    through :
        (b : Bool)
        → shown (if b then some st else get id m) ≡ (if b then reading_of st else shown (get id m))
    through true = refl
    through false = refl

-- A state that shows what its source showed.
pub shown-put_kept :
    (id : Text) (st : SourceState Value) (m : Store Value)
    → reading_of st ≡ shown (get st.id m)
    → shown (get id (put st.id st m)) ≡ shown (get id m)
shown-put_kept id st m same = shown-put id st m ∙ by_test (text_eq st.id id) refl
  where
    by_test :
        (b : Bool)
        → text_eq st.id id ≡ b
        → (if b then reading_of st else shown (get id m)) ≡ shown (get id m)
    by_test false e = refl
    by_test true e = same ∙ ap (λ (k : Text). shown (get k m)) ((text_eq_iff st.id id).0 e)
