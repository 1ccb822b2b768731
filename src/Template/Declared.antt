-- ===== src/Template/Declared.antt =====
-- A text whose references are declared lacks no variable.
use wrtdeck.Prelude.{
  if◌then◌else◌, Bool-cases, is_some, is_empty, Text, text_eq, text_eq_iff, nat_key, text_key,
  has_text, insert_by, sort_by, codes, has_infix, Value, Printing, ◌≡◌, refl, sym, ap, ◌∙◌, ◌⊎◌,
  inl, inr, Bool, true, false, not, ◌||◌, Option, none, some, List, [], ◌∷◌,
}
use wrtdeck.Template.Render.{
  Ref, Scope, lookup_variable, value_text, RenderError, missing, unknown_filter, apply_filters,
  substitute, prepend, render_pieces, render,
}
use wrtdeck.Template.{Placeholder, Piece, literal, variable, pieces}
use wrtdeck.Template.Refs.{key_of, ref_of, refs_loop, ref_less, refs, first_undeclared, check_refs}

none-some {ℓ} : {A : Type ℓ} {a : A} → some a ≡ none → ⊥
none-some h = cc

-- The references of a list that is accepted, one at a time.
declared_both :
    (b : Bool) (r : Ref) (o : Option Ref)
    → (if b then o else some r) ≡ none
    → (b ≡ true) × (o ≡ none)
declared_both true r o h = (refl, h)
declared_both false r o h = absurd (none-some h)

module _ (names : List Text) where
  first_undeclared-insert_by :
      (r : Ref) (rs : List Ref)
      → first_undeclared names (insert_by ref_less r rs) ≡ none
      → first_undeclared names (r ∷ rs) ≡ none
  unfolding first_undeclared insert_by
  first_undeclared-insert_by r [] h = h
  first_undeclared-insert_by r (s ∷ rs) h =
      by_order (ref_less s r) h (first_undeclared-insert_by r rs)
    where
      by_order :
          (b : Bool)
          → first_undeclared names (if b then s ∷ insert_by ref_less r rs else r ∷ s ∷ rs) ≡ none
          → (first_undeclared names (insert_by ref_less r rs) ≡ none
              → first_undeclared names (r ∷ rs) ≡ none)
          → first_undeclared names (r ∷ s ∷ rs) ≡ none
      by_order false e rest = e
      by_order true e rest =
          let (s_named, later) = declared_both (has_text (key_of s) names) s _ e in
          let (r_named, others) = declared_both (has_text (key_of r) names) r _ (rest later) in
          ap (λ (b : Bool). if b then first_undeclared names (s ∷ rs) else some r) r_named
          ∙ ap (λ (b : Bool). if b then first_undeclared names rs else some s) s_named
          ∙ others

  first_undeclared-sort_by :
      (rs : List Ref)
      → first_undeclared names (sort_by ref_less rs) ≡ none
      → first_undeclared names rs ≡ none
  unfolding first_undeclared sort_by
  first_undeclared-sort_by [] h = refl
  first_undeclared-sort_by (r ∷ rs) h =
      let both = first_undeclared-insert_by r (sort_by ref_less rs) h in
      let (named, later) = declared_both (has_text (key_of r) names) r _ both in
      ap (λ (b : Bool). if b then first_undeclared names rs else some r) named
      ∙ first_undeclared-sort_by rs later

  -- Every key of a list is declared.
  abbrev AllNamed : List Text → Type 0
  AllNamed [] = Unit
  AllNamed (k ∷ ks) = (has_text k names ≡ true) × AllNamed ks

  AllNamed-has_text :
      (k : Text) (ks : List Text) → AllNamed ks → has_text k ks ≡ true → has_text k names ≡ true
  unfolding has_text
  AllNamed-has_text k [] v h = cc
  AllNamed-has_text k (j ∷ ks) (named, v) h = by_key (text_eq j k) refl h (AllNamed-has_text k ks v)
    where
      by_key :
          (b : Bool)
          → text_eq j k ≡ b
          → (if b then true else has_text k ks) ≡ true
          → (has_text k ks ≡ true → has_text k names ≡ true)
          → has_text k names ≡ true
      by_key true same e rest =
          ap (λ (t : Text). has_text t names) (sym ((text_eq_iff j k).0 same)) ∙ named
      by_key false other e rest = rest e

  -- Every variable of the pieces is declared.
  abbrev pub AllDeclared : List Piece → Type 0
  AllDeclared [] = Unit
  AllDeclared (literal c ∷ ps) = AllDeclared ps
  AllDeclared (variable v ∷ ps) = (has_text (key_of (ref_of v)) names ≡ true) × AllDeclared ps

  first_undeclared-refs_loop :
      (seen : List Text) (ps : List Piece)
      → AllNamed seen
      → first_undeclared names (refs_loop seen ps) ≡ none
      → AllDeclared ps
  unfolding refs_loop first_undeclared
  first_undeclared-refs_loop seen [] s h = tt
  first_undeclared-refs_loop seen (literal c ∷ ps) s h = first_undeclared-refs_loop seen ps s h
  first_undeclared-refs_loop seen (variable v ∷ ps) s h =
      elim (Bool-cases (has_text (key_of (ref_of v)) seen)) [
        | inl again ↦
            let same : first_undeclared names (refs_loop seen ps) ≡ none =
              sym (ap (λ (b : Bool). first_undeclared names (next b)) again) ∙ h in
            (AllNamed-has_text key seen s again, first_undeclared-refs_loop seen ps s same)
        | inr first ↦
            let both : first_undeclared names (next false) ≡ none =
              sym (ap (λ (b : Bool). first_undeclared names (next b)) first) ∙ h in
            let (named, later) = declared_both (has_text key names) (ref_of v) _ both in
            (named, first_undeclared-refs_loop (key ∷ seen) ps (named, s) later)
      ]
    where
      key : Text
      key = key_of (ref_of v)

      next : Bool → List Ref
      next b = if b then refs_loop seen ps else ref_of v ∷ refs_loop (key ∷ seen) ps

  pub check_refs-AllDeclared : (s : Text) → check_refs s names ≡ none → AllDeclared (pieces s)
  unfolding check_refs refs
  check_refs-AllDeclared s accepted =
      first_undeclared-refs_loop [] (pieces s) tt
        (first_undeclared-sort_by (refs_loop [] (pieces s)) accepted)

-- Whether an error is that of a variable that is missing.
abbrev pub is_missing : Option RenderError → Bool
is_missing (some (missing namespace name)) = true
is_missing _ = false

module _ (printing : Printing) (scope : Scope) (names : List Text) where
  -- Every declared reference has a value.
  abbrev pub Provides : Type 0
  Provides =
      (r : Ref)
      → has_text (key_of r) names ≡ true
      → is_some (lookup_variable r.namespace r.name scope) ≡ true

  is_missing-substitute :
      (v : Placeholder) (p : Text × Option RenderError)
      → is_some (lookup_variable v.namespace v.name scope) ≡ true
      → is_missing p.1 ≡ false
      → is_missing (prepend (substitute printing scope v) p).1 ≡ false
  unfolding substitute
  is_missing-substitute v p there later = by_value (lookup_variable v.namespace v.name scope) there
    where
      by_filters :
          (r : Text ⊎ Text)
          → is_missing
              (prepend
                (elim r as (λ _. Text ⊎ RenderError) [
                  | inl rendered ↦ inl rendered
                  | inr name ↦ inr (unknown_filter name)
                ])
                p).1
            ≡ false
      by_filters (inl rendered) = later
      by_filters (inr name) = refl

      by_value :
          (o : Option Value)
          → is_some o ≡ true
          → is_missing
              (prepend
                (elim o as (λ _. Text ⊎ RenderError) [
                  | none ↦ inr (missing v.namespace v.name)
                  | some value ↦
                      elim (apply_filters printing (value_text printing value) v.filters)
                        as (λ _. Text ⊎ RenderError) [
                          | inl rendered ↦ inl rendered
                          | inr name ↦ inr (unknown_filter name)
                        ]
                ])
                p).1
            ≡ false
      by_value none e = cc
      by_value (some value) e =
          by_filters (apply_filters printing (value_text printing value) v.filters)

  is_missing-render_pieces :
      (ps : List Piece)
      → Provides
      → AllDeclared names ps
      → is_missing (render_pieces printing scope ps).1 ≡ false
  unfolding render_pieces
  is_missing-render_pieces [] has d = refl
  is_missing-render_pieces (literal c ∷ ps) has d = is_missing-render_pieces ps has d
  is_missing-render_pieces (variable v ∷ ps) has (named, d) =
      is_missing-substitute v (render_pieces printing scope ps) (has (ref_of v) named)
        (is_missing-render_pieces ps has d)

  -- Where the check of a text against a list of names finds no reference that is not declared, and
  -- every reference whose name is in the list has a value, the rendering of the text never fails
  -- for a variable that is missing.
  pub render-check_refs :
      (s : Text)
      → check_refs s names ≡ none
      → Provides
      → is_missing (render printing s scope).1 ≡ false
  unfolding render check_refs refs
  render-check_refs s accepted has = by_test (is_empty s || not (has_infix s (codes "${")))
    where
      by_test :
          (b : Bool)
          → is_missing (
              (λ (r : Text × Option RenderError). r.1)
                (if b then (s, none) else render_pieces printing scope (pieces s)))
            ≡ false
      by_test true = refl
      by_test false =
          is_missing-render_pieces (pieces s) has (check_refs-AllDeclared names s accepted)
