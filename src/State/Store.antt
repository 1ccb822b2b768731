-- ===== src/State/Store.antt =====
-- internal/state/store.go: the last state of each source. A time is the count of nanoseconds since the
-- zero time. `Value` has any type, and nothing here reads it.
pub mod Marks
use wrtdeck.Prelude.{
  if◌then◌else◌, Dict, get, put, delete, Text, nat_key, text_key, ℕ, Bool, true, false, Option,
  none, some, [],
}

-- The codes of the status texts.
pub data Status : Type 0 where
  unknown running waiting okay error stale : Status

abbrev pub is_okay : Status → Bool
is_okay okay = true
is_okay _ = false

pub record SourceState {ℓ} (A : Type ℓ) : Type ℓ where
  pub id : Text
  pub status : Status
  pub value : Option A
  pub text : Text
  pub updated_at : ℕ
  pub latency_ms : ℕ
  pub error : Text
  pub detail : Text

-- A stored pointer is never shared, since every operation copies: the map holds the states themselves.
abbrev pub Store {ℓ} : Type ℓ → Type ℓ
Store A = Dict Text (SourceState A)

module _ {ℓ} {A : Type ℓ} where
  abbrev pub new_store : Store A
  new_store = []

  unfoldable pub set : SourceState A → Store A → Store A
  set st items = put st.id st items

  unfoldable pub get_state : Text → Store A → Option (SourceState A)
  get_state id items = get id items

  unfoldable pub delete_state : Text → Store A → Store A
  delete_state id items = delete id items

  abbrev pub blank : Text → SourceState A
  blank id = record {
    id = id;
    status = running;
    value = none;
    text = [];
    updated_at = 0;
    latency_ms = 0;
    error = [];
    detail = [];
  }

  abbrev pub as_running : Text → Option (SourceState A) → SourceState A
  as_running id none = blank id
  as_running id (some st) = record st { status = running }

  unfoldable pub mark_running : Text → Store A → Store A × SourceState A
  mark_running id items = let st = as_running id (get id items) in (put id st items, st)

  abbrev pub as_stale : SourceState A → SourceState A
  as_stale st = if is_okay st.status then record st { status = stale } else st

  abbrev pub as_stale_found : Option (SourceState A) → Option (SourceState A)
  as_stale_found none = none
  as_stale_found (some st) = some (as_stale st)

  abbrev pub stale_found :
      Text → Store A → Option (SourceState A) → Store A × Option (SourceState A)
  stale_found id items none = (items, none)
  stale_found id items (some st) = (put id (as_stale st) items, as_stale_found (some st))

  unfoldable pub mark_stale : Text → Store A → Store A × Option (SourceState A)
  mark_stale id items = stale_found id items (get id items)
