-- ===== src/Engine/Executor/Commands.antt =====
-- internal/engine/executor.go: messages of a broker, the marks of a subscription, and the run of an action.

use wrtdeck.Prelude.{
  if◌then◌else◌, Dict, Text, text_eq, nat_key, text_key, codes, Value, ℕ, ◌⊎◌, inl, inr, Bool, true,
  false, not, Option, none, some, [], ◌++◌,
}
use wrtdeck.Registry.Model.{kind_source, Entry, subscribes}
use wrtdeck.Registry.Store.{EntryStore, get_entry}
use wrtdeck.Extract.{Extracted, ExtractError, extract}
use wrtdeck.State.Store.{Status, unknown, waiting, SourceState, set, get_state}
use wrtdeck.State.Hub.{publish}
use wrtdeck.Engine.Params.{validate_input}
use wrtdeck.Engine.Render.{render_transport}
use wrtdeck.Engine.Executor.{
  action_finished, Executor, Exchange, refused, failed, responded, RunError, rendering, extracting,
  checking, World, scope_of, event_of, with_hub, announce, store_error, fresh_state, settle,
}

abbrev pub run_outcome : ExtractError ⊎ Extracted → RunError ⊎ Extracted
run_outcome (inl e) = inl (extracting e)
run_outcome (inr v) = inr v

unfoldable pub apply_message : World → ℕ → Entry → Text → Text → Executor → Option Executor
unfolding settle extract
apply_message world now entry topic payload x =
    settle world now entry (fresh_state entry now 0 (codes "来自 " ++ topic))
      (run_outcome (extract world.reader entry.extract payload)) x

-- The state of a subscription without a message, with the last reading.
abbrev pub waiting_state : Entry → ℕ → Text → Option (SourceState Value) → SourceState Value
waiting_state entry now detail none = record (fresh_state entry now 0 detail) { status = waiting }
waiting_state entry now detail (some prev) = record (fresh_state entry now 0 detail) {
  status = waiting;
  value = prev.value;
  text = prev.text;
}

unfoldable pub mark_source_waiting : ℕ → Entry → Text → Executor → Option Executor
unfolding get_state set announce
mark_source_waiting now entry detail x =
    let st = waiting_state entry now detail (get_state entry.id x.states) in
    announce now st (record x { states = set st x.states })

unfoldable pub mark_source_error : ℕ → Entry → Text → Text → Executor → Option Executor
unfolding store_error
mark_source_error now entry detail reason x =
    store_error now entry (fresh_state entry now 0 detail) reason x

unfoldable pub finish_action : ℕ → Entry → Bool → Text → Executor → Option Executor
unfolding publish
finish_action now entry okay_flag reason x = with_hub x (
    publish
      (event_of (codes "action.finished") now
        (action_finished entry.id entry.name okay_flag reason))
      x.hub)

-- The answer of an action: what its transport returned, or why it was not called.
pub data ActionResult : Type 0 where
  cancelled : ActionResult
  rejected : RunError → ActionResult
  exchanged_as : Exchange → ActionResult

abbrev pub is_responded : Exchange → Bool
is_responded (responded res) = true
is_responded _ = false

abbrev pub reason_of : Exchange → Text
reason_of (refused reason) = reason
reason_of (failed res reason) = reason
reason_of (responded res) = []

abbrev pub answer {ℓ} : {A : Type ℓ} → A → Option Executor → Option (Executor × A)
answer a none = none
answer a (some x) = some (x, a)

abbrev pub reject : World → ℕ → Entry → RunError → Executor → Option (Executor × ActionResult)
reject world now entry e x = answer (rejected e) (finish_action now entry false (world.explain e) x)

-- The body of `RunAction` once it has a slot.
unfoldable pub act :
    World → ℕ → Entry → Dict Text Value → Executor → Option (Executor × ActionResult)
unfolding validate_input render_transport scope_of finish_action
act world now entry params x = elim (validate_input world.reader.printing entry params) [
  | inl e ↦ reject world now entry (checking e) x
  | inr values_of ↦
      elim (render_transport world.reader.printing (scope_of x.secrets entry values_of)
        entry.transport) [
          | inl e ↦ reject world now entry (rendering e) x
          | inr spec ↦
              let exchange = world.exchange spec in
              answer (exchanged_as exchange)
                (finish_action now entry (is_responded exchange) (reason_of exchange) x)
        ]
]

-- `admitted` is whether the `select` took a slot before the caller gave up.
unfoldable pub run_action :
    World → ℕ → Bool → Entry → Dict Text Value → Executor → Option (Executor × ActionResult)
unfolding act
run_action world now admitted entry params x =
    if admitted then act world now entry params x else some (x, cancelled)

-- A state always has a status, so that the test for an empty one falls away.
unfoldable pub source_status : Text → Executor → Status
unfolding get_state
source_status id x = elim (get_state id x.states) [ none ↦ unknown | some st ↦ st.status ]

pub data Refresh : Type 0 where
  no_such_entry not_source pushed started : Refresh

-- What `RefreshSource` answers: only the last one starts a run.
unfoldable pub refresh_source : Text → EntryStore → Refresh
unfolding get_entry subscribes
refresh_source id store = elim (get_entry id store) [
  | none ↦ no_such_entry
  | some entry ↦
      if not (text_eq entry.kind kind_source)
      then not_source
      else if subscribes entry
      then pushed
      else started
]
