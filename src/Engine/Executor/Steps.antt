-- ===== src/Engine/Executor/Steps.antt =====
-- What each step of the executor leaves of the readings.

use wrtdeck.Engine.Executor.Commands.{waiting_state, mark_source_waiting, finish_action}
use wrtdeck.Prelude.{
  get, put, Text, nat_key, text_key, codes, Value, ℕ, ◌≡◌, refl, sym, ap, ◌∙◌, Bool, Option, none,
  some, [],
}
use wrtdeck.Registry.Model.{Entry}
use wrtdeck.State.Store.{error, SourceState, Store, set, get_state}
use wrtdeck.State.Hub.Channels.{IsValid}
use wrtdeck.Engine.Executor.{
  action_finished, Executor, event_of, announce, commit, keep_reading, store_error,
}
use wrtdeck.Engine.Executor.Kept.{
  ReadingOf, shown, reading, IsDone, with_hub_lem, announce_lem, commit_lem, reading_of,
  shown-put_kept,
}

-- A step that succeeds, with a well-formed hub behind it and the readings `new`.
pub record IsStep (id : Text) (o : Option Executor) (new : ReadingOf) : Type 0 where
  pub after : Executor
  pub done : o ≡ some after
  pub hub_valid : IsValid after.hub
  pub shows : reading id after ≡ new

-- A state that is put, which shows `new`.
put-IsStep :
    (id : Text) (o : Option Executor) (st : SourceState Value) (m : Store Value) (new : ReadingOf)
    → IsDone o (put st.id st m)
    → shown (get id (put st.id st m)) ≡ new
    → IsStep id o new
unfolding reading
put-IsStep id o st m new d h = record {
  after = d.after;
  done = d.done;
  hub_valid = d.hub_valid;
  shows = ap (λ (m' : Store Value). shown (get id m')) d.same_states ∙ h;
}

module _ (id : Text) (x : Executor) (v : IsValid x.hub) where
  -- A state that keeps the reading of its source, put as `set` does.
  announced :
      (now : ℕ) (st : SourceState Value)
      → reading_of st ≡ shown (get st.id x.states)
      → IsStep id (announce now st (record x { states = put st.id st x.states })) (reading id x)
  unfolding reading
  announced now st same =
      put-IsStep id _ st x.states _
        (announce_lem now st (record x { states = put st.id st x.states }) v)
        (shown-put_kept id st x.states same)

  committed :
      (now : ℕ) (st : SourceState Value)
      → reading_of st ≡ shown (get st.id x.states)
      → IsStep id (commit now st x) (reading id x)
  unfolding reading
  committed now st same =
      put-IsStep id _ st x.states _ (commit_lem now st x v) (shown-put_kept id st x.states same)

  pub mark_source_waiting-IsStep :
      (now : ℕ) (entry : Entry) (detail : Text)
      → IsStep id (mark_source_waiting now entry detail x) (reading id x)
  unfolding mark_source_waiting get_state set
  mark_source_waiting-IsStep now entry detail = by_state (get entry.id x.states) refl
    where
      by_state :
          (o : Option (SourceState Value))
          → get entry.id x.states ≡ o
          → let st = waiting_state entry now detail o in
            IsStep id (announce now st (record x { states = put st.id st x.states })) (reading id x)
      by_state none e = announced now (waiting_state entry now detail none) (ap shown (sym e))
      by_state (some prev) e =
          announced now (waiting_state entry now detail (some prev)) (ap shown (sym e))

  -- An error keeps the reading of a state that has none of its own.
  pub store_error-IsStep :
      (now : ℕ) (entry : Entry) (st : SourceState Value) (reason : Text)
      → st.id ≡ entry.id
      → reading_of st ≡ (none, [])
      → IsStep id (store_error now entry st reason x) (reading id x)
  unfolding store_error get_state
  store_error-IsStep now entry st reason named blank_st = by_state (get entry.id x.states) refl
    where
      by_state :
          (o : Option (SourceState Value))
          → get entry.id x.states ≡ o
          → IsStep id
              (commit now (keep_reading o (record st { status = error; error = reason })) x)
              (reading id x)
      by_state none e =
          committed now _
            (blank_st ∙ ap shown (sym e) ∙ ap (λ (k : Text). shown (get k x.states)) (sym named))
      by_state (some prev) e =
          committed now _ (ap shown (sym e) ∙ ap (λ (k : Text). shown (get k x.states)) (sym named))

  pub finish_action-IsStep :
      (now : ℕ) (entry : Entry) (done : Bool) (reason : Text)
      → IsStep id (finish_action now entry done reason x) (reading id x)
  unfolding finish_action reading
  finish_action-IsStep now entry done reason =
      let event =
        event_of (codes "action.finished") now (action_finished entry.id entry.name done reason) in
      let d = with_hub_lem event x v in
      record {
        after = d.after;
        done = d.done;
        hub_valid = d.hub_valid;
        shows = ap (λ (m : Store Value). shown (get id m)) d.same_states;
      }
