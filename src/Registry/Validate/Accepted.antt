-- ===== src/Registry/Validate/Accepted.antt =====
-- What holds of an entry that was accepted.
use wrtdeck.Registry.Mqtt.{Urls}
use wrtdeck.Registry.Validate.Sourced.{IsSourced, validate_source_lem, default_ui_lem}
use wrtdeck.Registry.Validate.Legal.{LegalId, LegalParams, LegalTransport, Collects, LegalRefs}
use wrtdeck.Registry.Validate.Shape.{
  ok_inj, bind-ok, or_either, not-true, LegalId-is_id, not_empty, LegalParams-validate_params,
}
use wrtdeck.Registry.Validate.Carried.{LegalTransport-validate_transport}
use wrtdeck.Registry.Validate.Referred.{LegalRefs-check_template_refs}
use mathlib.Core.Path.{subst}
use wrtdeck.Prelude.{
  is_empty, Text, text_eq, text_eq_iff, nat_key, text_key, codes, ◌≡◌, refl, sym, ap, ◌∙◌, ◌≢◌, ◌⊎◌,
  inl, inr, Bool, true, false, not, some, [],
}
use wrtdeck.Registry.Model.{kind_source, kind_action, is_blank, TransportSpec, UiSpec, Entry}
use wrtdeck.Registry.Problem.{
  Problem, bad_id, bad_kind, empty_name, bad_transport, Checked, ok, err, ◌>>=◌, check,
}
use wrtdeck.Registry.Refs.{check_template_refs}
use wrtdeck.Registry.Validate.{
  is_id, is_supported_kind, is_supported_transport, validate_params, validate_transport, default_ui,
  validate_source, check_shape, validate_rest, validate,
}

err_ok {ℓ} : {A : Type ℓ} {e : Problem} {a : A} → err e ≡ ok a → ⊥
err_ok h = cc

four_checks :
    (a b c d : Bool) (p q r s : Problem)
    → (check a p >>= (λ _. check b q >>= (λ _. check c r >>= (λ _. check d s)))) ≡ ok tt
    → (a ≡ true) × (b ≡ true) × (c ≡ true) × (d ≡ true)
four_checks true true true true p q r s h = (refl, refl, refl, refl)
four_checks true true true false p q r s h = absurd (err_ok h)
four_checks true true false d p q r s h = absurd (err_ok h)
four_checks true false c d p q r s h = absurd (err_ok h)
four_checks false b c d p q r s h = absurd (err_ok h)

-- An entry that was accepted, and the one that was given.
pub record IsAccepted (compiles : Text → Bool) (urls : Urls) (e given : Entry) : Type 0 where
  pub same_id : e.id ≡ given.id
  pub same_kind : e.kind ≡ given.kind
  pub same_params : e.params ≡ given.params
  pub id : LegalId e.id
  pub kind : (e.kind ≡ codes "source") ⊎ (e.kind ≡ codes "action")
  pub name : is_blank e.name ≡ false
  pub ui : e.ui.type ≢ []
  pub params : LegalParams e.params
  pub transport : LegalTransport urls e.kind given.transport e.transport
  pub collects : Collects compiles e
  pub refs : LegalRefs e.params e.transport

kind_lem :
    (kind : Text)
    → is_supported_kind kind ≡ true
    → (kind ≡ codes "source") ⊎ (kind ≡ codes "action")
unfolding is_supported_kind
kind_lem kind h = elim (or_either (text_eq kind kind_source) (text_eq kind kind_action) h) [
  | inl e ↦ inl ((text_eq_iff kind kind_source).0 e)
  | inr e ↦ inr ((text_eq_iff kind kind_action).0 e)
]

-- An entry that `Validate` accepts keeps its id, kind and parameters. Its id is a small letter or
-- digit and at most 63 more of these, `_` and `-`; it is a source or an action, its name is not
-- blank and its display has a type. Each parameter has a known type, bounds in order (unless one is
-- NaN) if it is a number, and options if it is a selection. Its transport is of a known type with
-- the part that belongs to it, whose address, URL or program is not blank; of MQTT the broker is
-- normalised, the topic not blank, the QoS 0 to 2, the mode and the encoding known, and a
-- subscription neither an action nor retained. A source has a positive period and an extraction
-- that is raw, a path into JSON that is not blank or a pattern that compiles, with a known type of
-- value. Every placeholder in the texts of the transport, less the references to secrets, names a
-- declared parameter.
pub validate-IsAccepted :
    (compiles : Text → Bool) (urls : Urls) (given e : Entry)
    → validate compiles urls (some given) ≡ ok e
    → IsAccepted compiles urls e given
unfolding validate
validate-IsAccepted compiles urls given e h =
    let last : TransportSpec → Checked Entry =
      λ t. validate_rest compiles (record (default_ui given) { transport = t }) in
    let transport : Unit {0} → Checked Entry =
      λ _. validate_transport urls given.kind given.transport >>= last in
    let params : Unit {0} → Checked Entry = λ _. validate_params given.params >>= transport in
    let (u1, shaped, h1) = bind-ok (check_shape given) params h in
    let (u2, ranged, h2) = bind-ok (validate_params given.params) transport h1 in
    let (t, moved, h3) = bind-ok (validate_transport urls given.kind given.transport) last h2 in
    let ready : Entry = record (default_ui given) { transport = t } in
    let end : Entry → Checked Entry = λ whole. check_template_refs whole >>= (λ _. ok whole) in
    let (whole, sourced, h4) = bind-ok (validate_source compiles ready) end h3 in
    let (u3, refs, same) = bind-ok (check_template_refs whole) (λ _. ok whole) h4 in
    subst (λ (x : Entry). IsAccepted compiles urls x given) (ok_inj same)
      (accepted whole shaped ranged moved refs (validate_source_lem compiles ready whole sourced))
  where
    accepted :
        (whole : Entry) {t : TransportSpec} {u1 u2 u3 : Unit {0}}
        → check_shape given ≡ ok u1
        → validate_params given.params ≡ ok u2
        → validate_transport urls given.kind given.transport ≡ ok t
        → check_template_refs whole ≡ ok u3
        → IsSourced compiles whole (record (default_ui given) { transport = t })
        → IsAccepted compiles urls whole given
    accepted whole {t = t} shaped ranged moved refs v =
        let shown = default_ui_lem given in
        let (id, kind, name, transport) =
          four_checks (is_id given.id) (is_supported_kind given.kind) (not (is_blank given.name))
            (is_supported_transport given.transport.type) bad_id bad_kind empty_name bad_transport
            shaped in
        let same_id = v.same_id ∙ shown.same_id in
        let same_kind = v.same_kind ∙ shown.same_kind in
        let same_params = v.same_params ∙ shown.same_params in
        let carried : LegalTransport urls given.kind given.transport t =
          LegalTransport-validate_transport urls given.kind given.transport t transport moved in
        record {
          same_id = same_id;
          same_kind = same_kind;
          same_params = same_params;
          id = LegalId-is_id whole.id (ap is_id same_id ∙ id);
          kind = kind_lem whole.kind (ap is_supported_kind same_kind ∙ kind);
          name = ap is_blank (v.same_name ∙ shown.same_name) ∙ not-true (is_blank given.name) name;
          ui = not_empty whole.ui.type (ap (λ (u : UiSpec). is_empty u.type) v.same_ui ∙ shown.ui);
          params =
              subst LegalParams (sym same_params) (LegalParams-validate_params given.params ranged);
          transport =
              subst (λ (k : Text). LegalTransport urls k given.transport whole.transport)
                (sym same_kind)
                (subst (λ (x : TransportSpec). LegalTransport urls given.kind given.transport x)
                  (sym v.same_transport) carried);
          collects = v.collects;
          refs = LegalRefs-check_template_refs whole refs;
        }
