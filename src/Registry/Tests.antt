-- ===== src/Registry/Tests.antt =====
-- Entries that are checked and stored, and the theorems at concrete inputs.

use wrtdeck.Prelude.{
  if◌then◌else◌, get, put, delete, values, Text, text_eq, nat_key, text_key, has_text, sort_by,
  codes, pos, trim_space, has_prefix, contents, ◌≡◌, refl, Bool, true, false, none, some, List, [],
  ◌∷◌, ◌++◌,
}
use wrtdeck.Registry.Model.{extract_raw, Entry}
use wrtdeck.Registry.Problem.{bad_range, undeclared, ok, err}
use wrtdeck.Registry.Validate.{validate}
use wrtdeck.Registry.Validate.Accepted.{IsAccepted, validate-IsAccepted}
use wrtdeck.Registry.Store.{
  EntryStore, EntryCodec, new_entries, load, save_entries, list, get_entry,
}
use wrtdeck.Registry.Store.Saved.{
  EntryCall, puts, deletes, run_entries, meaning, get_entry-run_entries, load-save_entries,
}
use wrtdeck.Registry.Samples.{plain_ui, lamp, level, dim, no_urls}

abbrev any_pattern : Text → Bool
any_pattern t = true

-- What `validate` makes of the lamp.
abbrev checked_lamp : Entry
checked_lamp = record lamp {
  schedule = some (record { interval_ms = pos 5000 });
  extract =
      some (record { type = extract_raw; path = []; pattern = []; group = pos 0; value_type = [] });
  ui = record plain_ui { type = codes "metric" };
}

lamp_checked : validate any_pattern no_urls (some lamp) ≡ ok checked_lamp
unfolding validate trim_space sort_by
lamp_checked = refl

-- A template may not name a parameter that is not declared.
blank_params_refused :
    validate any_pattern no_urls (some (record dim { params = [] }))
    ≡ err (undeclared (codes "params") (codes "level"))
unfolding validate trim_space sort_by has_prefix has_text
blank_params_refused = refl

-- Bounds in the wrong order are refused.
inverted_refused :
    validate any_pattern no_urls (
      some (record dim {
        params =
            (
              codes "level",
              record level { min_value = some 0x3ff0000000000000; max_value = some 0 },
            )
            ∷ [];
      }))
    ≡ err (bad_range (codes "level"))
unfolding validate trim_space
inverted_refused = refl

validate-IsAccepted_example : IsAccepted any_pattern no_urls checked_lamp lamp
validate-IsAccepted_example = validate-IsAccepted any_pattern no_urls lamp checked_lamp lamp_checked

-- A codec that knows one list.
abbrev one_list : EntryCodec
one_list = record {
  encode = λ es. [];
  decode = λ t. if text_eq t (10 ∷ []) then some (dim ∷ []) else none;
}

-- The lamp is removed, and the file is never written.
abbrev calls : List EntryCall
calls = puts lamp false ∷ puts dim false ∷ deletes (codes "lamp") false ∷ []

get_entry-run_entries_example :
    (λ id. get_entry id (run_entries one_list calls (new_entries true, none)).0)
    ≡ meaning calls (λ id. none)
get_entry-run_entries_example = get_entry-run_entries one_list calls true none

abbrev kept_entries : EntryStore
kept_entries = (run_entries one_list calls (new_entries true, none)).0

list_decoded :
    one_list.decode (one_list.encode (list kept_entries) ++ 10 ∷ []) ≡ some (list kept_entries)
unfolding run_entries list sort_by values get put delete
list_decoded = refl

load-save_entries_example :
    (f : Text) × (save_entries one_list true kept_entries none ≡ (some f, true))
    × (get_entry (codes "dim") (load one_list (contents f) (new_entries true)).0
        ≡ meaning calls (λ name. none) (codes "dim"))
load-save_entries_example =
    load-save_entries one_list calls none (new_entries true) (codes "dim") list_decoded refl
