-- ===== src/Engine/Executor.antt =====
-- internal/engine/executor.go: the runs of sources and actions. What a transport answers, the texts of the
-- errors and the times are arguments. A run of a source is two steps, since others happen while it waits
-- for its transport; `none` is a panic of the hub.
pub mod Commands
pub mod Kept
pub mod Steps
use wrtdeck.Prelude.{
  ◌==◌, if◌then◌else◌, Dict, put, values, Text, nat_key, text_key, codes, Value, ℕ, ◌⊎◌, inl, inr,
  Bool, Option, none, some, [], ◌∷◌,
}
use wrtdeck.Template.Render.{Scope, RenderError}
use wrtdeck.Registry.Model.{ParamSpec, TransportSpec, Entry}
use wrtdeck.Extract.{Reader, Extracted, ExtractError, extract}
use wrtdeck.Config.Secrets.{Secrets, token}
use wrtdeck.State.Store.{Status, running, okay, error, SourceState, Store, set, get_state}
use wrtdeck.State.History.{History, append}
use wrtdeck.State.Hub.{Event, Hub, publish}
use wrtdeck.Engine.Params.{ParamError, is_null}
use wrtdeck.Engine.Render.{render_transport}

-- What is sent to the browsers.
pub data Payload : Type 0 where
  source_updated : SourceState Value → Payload
  action_finished : (id name : Text) → Bool → (reason : Text) → Payload
  registry_changed : (id action : Text) → Payload

pub record Sample : Type 0 where
  pub at : ℕ
  pub value : Option Value
  pub status : Status
  pub latency_ms : ℕ

-- The parts of the executor that its runs change, and the secrets that they read.
pub record Executor : Type 0 where
  pub states : Store Value
  pub history : History Sample
  pub hub : Hub Payload
  pub secrets : Secrets

pub record Response : Type 0 where
  pub body : Text
  pub body_text : Text
  pub detail : Text

-- What `transport.Do` returns: an error alone, an error with a response, or a response.
pub data Exchange : Type 0 where
  refused : (reason : Text) → Exchange
  failed : Response → (reason : Text) → Exchange
  responded : Response → Exchange

pub data RunError : Type 0 where
  rendering : RenderError → RunError
  exchanging : (reason : Text) → RunError
  extracting : ExtractError → RunError
  checking : ParamError → RunError

-- What the runs use of the rest of the program.
pub record World : Type 0 where
  pub reader : Reader
  pub exchange : TransportSpec → Exchange
  pub explain : RunError → Text

-- The defaults that are declared.
unfoldable pub default_params : Dict Text ParamSpec → Dict Text Value
default_params [] = []
default_params ((name, spec) ∷ specs) =
    let rest = default_params specs in
    if is_null spec.default then rest else (name, spec.default) ∷ rest

unfoldable pub merge : Dict Text Value → Dict Text Value → Dict Text Value
merge out [] = out
merge out ((k, v) ∷ m) = merge (put k v out) m

unfoldable pub scope_of : Secrets → Entry → Dict Text Value → Scope
unfolding default_params merge token
scope_of secrets entry params = record {
  params = merge (default_params entry.params) params;
  secrets = put (codes "api_token") (token secrets) secrets.values;
}

abbrev pub event_of : Text → ℕ → Payload → Event Payload
event_of type now payload = record { event_type = type; at = now; data_of = payload }

-- `hub.Publish`, which reads the clock.
abbrev pub with_hub : Executor → Option (Hub Payload) → Option Executor
with_hub x none = none
with_hub x (some hub) = some (record x { hub = hub })

unfoldable pub announce : ℕ → SourceState Value → Executor → Option Executor
unfolding publish
announce now st x =
    with_hub x (publish (event_of (codes "source.updated") now (source_updated st)) x.hub)

abbrev pub sample_of : SourceState Value → Sample
sample_of st = record {
  at = st.updated_at;
  value = st.value;
  status = st.status;
  latency_ms = st.latency_ms;
}

unfoldable pub commit : ℕ → SourceState Value → Executor → Option Executor
unfolding set append announce
commit now st x =
    announce now st
      (record x { states = set st x.states; history = append st.id (sample_of st) x.history })

-- The last reading, where there is one.
abbrev pub keep_reading : Option (SourceState Value) → SourceState Value → SourceState Value
keep_reading none st = st
keep_reading (some prev) st = record st {
  value = prev.value;
  text = prev.text;
  latency_ms = if st.latency_ms == 0 then prev.latency_ms else st.latency_ms;
}

unfoldable pub store_error : ℕ → Entry → SourceState Value → Text → Executor → Option Executor
unfolding commit get_state
store_error now entry st reason x =
    commit now
      (keep_reading (get_state entry.id x.states) (record st { status = error; error = reason })) x

abbrev pub running_state : Entry → ℕ → Option (SourceState Value) → SourceState Value
running_state entry now none = record {
  id = entry.id;
  status = running;
  value = none;
  text = [];
  updated_at = now;
  latency_ms = 0;
  error = [];
  detail = [];
}
running_state entry now (some prev) = record {
  id = entry.id;
  status = running;
  value = prev.value;
  text = prev.text;
  updated_at = prev.updated_at;
  latency_ms = prev.latency_ms;
  error = [];
  detail = [];
}

-- The first half of `RunSource`.
unfoldable pub begin_source : ℕ → Entry → Executor → Option Executor
unfolding get_state set announce
begin_source now entry x =
    let st = running_state entry now (get_state entry.id x.states) in
    announce now st (record x { states = set st x.states })

pub record Collected : Type 0 where
  pub outcome : RunError ⊎ Extracted
  pub latency_ms : ℕ
  pub detail : Text

abbrev pub collected_as : ℕ → Response → ExtractError ⊎ Extracted → Collected
collected_as latency res (inl e) = record {
  outcome = inl (extracting e);
  latency_ms = latency;
  detail = res.body_text;
}
collected_as latency res (inr v) = record {
  outcome = inr v;
  latency_ms = latency;
  detail = res.detail;
}

unfoldable pub exchanged : Reader → Entry → ℕ → Exchange → Collected
unfolding extract
exchanged reader entry latency (refused reason) = record {
  outcome = inl (exchanging reason);
  latency_ms = latency;
  detail = [];
}
exchanged reader entry latency (failed res reason) = record {
  outcome = inl (exchanging reason);
  latency_ms = latency;
  detail = res.body_text;
}
exchanged reader entry latency (responded res) =
    collected_as latency res (extract reader entry.extract res.body)

unfoldable pub collect : World → ℕ → Entry → Secrets → Collected
unfolding render_transport scope_of exchanged
collect world latency entry secrets =
    elim (render_transport world.reader.printing (scope_of secrets entry []) entry.transport) [
      | inl e ↦ record { outcome = inl (rendering e); latency_ms = 0; detail = [] }
      | inr spec ↦ exchanged world.reader entry latency (world.exchange spec)
    ]

-- The state after a run, before its reading.
abbrev pub fresh_state : Entry → ℕ → ℕ → Text → SourceState Value
fresh_state entry now latency detail = record {
  id = entry.id;
  status = okay;
  value = none;
  text = [];
  updated_at = now;
  latency_ms = latency;
  error = [];
  detail = detail;
}

unfoldable pub settle :
    World → ℕ → Entry → SourceState Value → RunError ⊎ Extracted → Executor → Option Executor
unfolding commit store_error
settle world now entry st (inl e) x = store_error now entry st (world.explain e) x
settle world now entry st (inr v) x =
    commit now (record st { status = okay; value = some v.value; text = v.text }) x

-- The second half of `RunSource`.
unfoldable pub finish_source : World → ℕ → Entry → Collected → Executor → Option Executor
unfolding settle
finish_source world now entry got x =
    settle world now entry (fresh_state entry now got.latency_ms got.detail) got.outcome x
