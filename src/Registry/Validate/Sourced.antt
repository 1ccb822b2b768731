-- ===== src/Registry/Validate/Sourced.antt =====
-- What the defaults of an entry change.

use wrtdeck.Registry.Validate.Legal.{Collects}
use wrtdeck.Registry.Validate.Shape.{ok_inj, bind-ok, LegalExtract-validate_extract}
use mathlib.Core.Path.{subst}
use wrtdeck.Prelude.{
  if◌then◌else◌, is_empty, Text, text_eq, nat_key, text_key, ne_of_text_eq, codes, is_positive, ◌≡◌,
  refl, inl, inr, Bool, true, false, Option, none, some, arith,
}
use wrtdeck.Registry.Model.{kind_source, kind_action, ScheduleSpec, Entry}
use wrtdeck.Registry.Problem.{ok, ◌>>=◌}
use wrtdeck.Registry.Validate.{
  validate_extract, default_ui, default_schedule, default_extract, validate_source,
}

-- `validate_source` changes the schedule and the extraction only.
pub record IsSourced (compiles : Text → Bool) (e given : Entry) : Type 0 where
  pub same_id : e.id ≡ given.id
  pub same_kind : e.kind ≡ given.kind
  pub same_name : e.name ≡ given.name
  pub same_ui : e.ui ≡ given.ui
  pub same_params : e.params ≡ given.params
  pub same_transport : e.transport ≡ given.transport
  pub collects : Collects compiles e

is_positive-default_schedule :
    (s : Option ScheduleSpec) → is_positive (default_schedule s).interval_ms ≡ true
is_positive-default_schedule none = refl
is_positive-default_schedule (some s) = ground arith

pub validate_source_lem :
    (compiles : Text → Bool) (given e : Entry)
    → validate_source compiles given ≡ ok e
    → IsSourced compiles e given
unfolding validate_source
validate_source_lem compiles given e h = by_kind (text_eq given.kind kind_source) refl h
  where
    sourced : Entry
    sourced = record given {
      schedule = some (default_schedule given.schedule);
      extract = some (default_extract given.extract);
    }

    by_kind :
        (b : Bool)
        → text_eq given.kind kind_source ≡ b
        → (if b
            then validate_extract compiles (default_extract given.extract) >>= (λ _. ok sourced)
            else ok given)
          ≡ ok e
        → IsSourced compiles e given
    by_kind false k r =
        subst (λ (x : Entry). IsSourced compiles x given) (ok_inj r)
          (record {
            same_id = refl;
            same_kind = refl;
            same_name = refl;
            same_ui = refl;
            same_params = refl;
            same_transport = refl;
            collects = inl (ne_of_text_eq given.kind kind_source k);
          })
    by_kind true k r =
        let (u, checked, same) =
          bind-ok (validate_extract compiles (default_extract given.extract)) (λ _. ok sourced) r in
        subst (λ (x : Entry). IsSourced compiles x given) (ok_inj same)
          (record {
            same_id = refl;
            same_kind = refl;
            same_name = refl;
            same_ui = refl;
            same_params = refl;
            same_transport = refl;
            collects = inr (
              default_schedule given.schedule,
              default_extract given.extract,
              refl,
              is_positive-default_schedule given.schedule,
              refl,
              LegalExtract-validate_extract compiles (default_extract given.extract) checked,
            );
          })

-- The default of the interface changes nothing else.
pub record IsShown (e given : Entry) : Type 0 where
  pub same_id : e.id ≡ given.id
  pub same_kind : e.kind ≡ given.kind
  pub same_name : e.name ≡ given.name
  pub same_params : e.params ≡ given.params
  pub ui : is_empty e.ui.type ≡ false

pub default_ui_lem : (e : Entry) → IsShown (default_ui e) e
default_ui_lem e = by_type (is_empty e.ui.type) refl
  where
    by_kind : (b : Bool) → is_empty (if b then codes "button" else codes "metric") ≡ false
    by_kind true = refl
    by_kind false = refl

    by_type :
        (b : Bool)
        → is_empty e.ui.type ≡ b
        → IsShown
            (if b
              then record e {
                ui = record e.ui {
                  type = if text_eq e.kind kind_action then codes "button" else codes "metric";
                };
              }
              else e)
            e
    by_type true h = record {
      same_id = refl;
      same_kind = refl;
      same_name = refl;
      same_params = refl;
      ui = by_kind (text_eq e.kind kind_action);
    }
    by_type false h = record {
      same_id = refl;
      same_kind = refl;
      same_name = refl;
      same_params = refl;
      ui = h;
    }
