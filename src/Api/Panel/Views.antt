-- ===== src/Api/Panel/Views.antt =====
-- internal/api/handlers_history.go and server.go: what is read for a page of the panel.

use wrtdeck.State.Hub.{subscribers}
use wrtdeck.Prelude.{
  ltb, if◌then◌else◌, is_empty, Text, text_eq, nat_key, text_key, ℤ, pos, is_positive, ltz, Value,
  ℕ, ◌+◌, Bool, not, ◌&&◌, Option, none, some, List, [], ◌∷◌,
}
use wrtdeck.Registry.Model.{kind_source, kind_action, Entry}
use wrtdeck.Registry.Store.{list, get_entry}
use wrtdeck.State.Store.{unknown, SourceState, Store, get_state, blank}
use wrtdeck.State.History.{enabled, get_samples}
use wrtdeck.Config.Secrets.{must_change}
use wrtdeck.Engine.Executor.{Sample, Executor}
use wrtdeck.Api.Panel.{Panel}

abbrev pub limit_of : ℕ → Option ℤ → ℤ
limit_of fallback none = pos fallback
limit_of fallback (some value) =
    if not (is_positive value)
    then pos fallback
    else if ltb 0 fallback && ltz (pos fallback) value
    then pos fallback
    else value

-- The first argument is `strconv.Atoi`.
unfoldable pub parse_limit : (Text → Option ℤ) → Text → ℕ → ℤ
parse_limit atoi raw fallback = if is_empty raw then pos fallback else limit_of fallback (atoi raw)

pub data HistoryReply : Type 0 where
  no_entry not_source : HistoryReply
  history_response : (id : Text) → Bool → (limit : ℕ) → List Sample → HistoryReply

abbrev pub history_found : (Text → Option ℤ) → Text → Text → Executor → Option Entry → HistoryReply
history_found atoi id raw x none = no_entry
history_found atoi id raw x (some entry) =
    if not (text_eq entry.kind kind_source)
    then not_source
    else history_response id (enabled x.history) x.history.limit
        (get_samples id (parse_limit atoi raw x.history.limit) x.history)

unfoldable pub handle_source_history : (Text → Option ℤ) → Text → Text → Panel → HistoryReply
unfolding get_entry parse_limit get_samples
handle_source_history atoi id raw p = history_found atoi id raw p.exec (get_entry id p.store)

-- A source that has no state yet.
abbrev pub state_or : Text → Option (SourceState Value) → SourceState Value
state_or id none = record (blank id) { status = unknown }
state_or id (some st) = st

-- The sources with their states, and the actions.
unfoldable pub dashboard_from :
    Store Value → List Entry → List (Entry × SourceState Value) × List Entry
unfolding get_state
dashboard_from states [] = ([], [])
dashboard_from states (e ∷ es) =
    let (sources, actions) = dashboard_from states es in
    if text_eq e.kind kind_action
    then (sources, e ∷ actions)
    else ((e, state_or e.id (get_state e.id states)) ∷ sources, actions)

unfoldable pub handle_dashboard : Panel → List (Entry × SourceState Value) × List Entry
unfolding list dashboard_from
handle_dashboard p = dashboard_from p.exec.states (list p.store)

-- How many sources there are, and how many others.
unfoldable pub count_kinds : List Entry → ℕ × ℕ
count_kinds [] = (0, 0)
count_kinds (e ∷ es) =
    let (sources, actions) = count_kinds es in
    if text_eq e.kind kind_source then (sources + 1, actions) else (sources, actions + 1)

pub record ServerInfo : Type 0 where
  pub auth_off : Bool
  pub must_change_password : Bool
  pub sources : ℕ
  pub actions : ℕ
  pub subscribers : ℕ

-- Of the information on the server, what depends on its state.
unfoldable pub info : Bool → Panel → ServerInfo
unfolding list count_kinds must_change subscribers
info auth_disabled p =
    let (sources, actions) = count_kinds (list p.store) in
    record {
      auth_off = auth_disabled;
      must_change_password = must_change p.exec.secrets && not auth_disabled;
      sources = sources;
      actions = actions;
      subscribers = subscribers p.exec.hub;
    }
