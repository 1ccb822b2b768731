-- ===== src/Mqtt/Topic/Levels.antt =====
-- What it is for a filter to match a topic, as a relation between their levels.
use wrtdeck.Mqtt.Topic.{
  slash, hash, plus, match_levels, head_or_empty, hides_system, matches_trimmed, topic_matches,
}
use wrtdeck.Prelude.{
  if◌then◌else◌, Bool-cases, is_empty, Text, text_eq, text_eq_iff, nat_key, text_key, ne_of_text_eq,
  trim_space, split, ◌≡◌, refl, ◌≢◌, ◌↔◌, inl, inr, Bool, true, false, ◌||◌, List, [], ◌∷◌, arith,
}

-- The rules of MQTT 3.1.1, section 4.7: `#` at the end matches any levels, none included, and `+` one.
pub data Matches : List Text → List Text → Type 0 where
  both_end : Matches [] []
  multi_level : {fs ts : List Text} → fs ≡ hash ∷ [] → Matches fs ts
  single_level :
      {seg t : Text} {fs ts : List Text} → seg ≡ plus → Matches fs ts → Matches (seg ∷ fs) (t ∷ ts)
  same_level :
      {seg t : Text} {fs ts : List Text}
      → seg ≢ hash
      → seg ≡ t
      → Matches fs ts
      → Matches (seg ∷ fs) (t ∷ ts)

is_empty-nil : (fs : List Text) → is_empty fs ≡ true → fs ≡ []
is_empty-nil [] h = refl
is_empty-nil (x ∷ fs) h = cc

hash_last :
    (seg : Text) (fs ts : List Text)
    → text_eq seg hash ≡ true
    → is_empty fs ≡ true
    → Matches (seg ∷ fs) ts
hash_last seg fs ts h e = multi_level (cc ((text_eq_iff seg hash).0 h, is_empty-nil fs e))

split_test : (a b : Bool) → (if a then b else false) ≡ true → (a ≡ true) × (b ≡ true)
split_test a b h = ground arith

match_levels_sound : (fs ts : List Text) → match_levels fs ts ≡ true → Matches fs ts
unfolding match_levels
match_levels_sound [] [] h = both_end
match_levels_sound [] (t ∷ ts) h = cc
match_levels_sound (seg ∷ fs) [] h = elim (Bool-cases (text_eq seg hash)) [
  | inl multi ↦ hash_last seg fs [] multi (rw multi at h)
  | inr other ↦ let bad : false ≡ true = rw other at h in cc bad
]
match_levels_sound (seg ∷ fs) (t ∷ ts) h = elim (Bool-cases (text_eq seg hash)) [
  | inl multi ↦ hash_last seg fs (t ∷ ts) multi (rw multi at h)
  | inr not_multi ↦ elim (Bool-cases (text_eq seg plus)) [
    | inl single ↦
        single_level ((text_eq_iff seg plus).0 single)
          (match_levels_sound fs ts (rw (not_multi, single) at h))
    | inr not_single ↦
        let (same, rest) =
          split_test (text_eq seg t) (match_levels fs ts) (rw (not_multi, not_single) at h) in
        same_level (ne_of_text_eq seg hash not_multi) ((text_eq_iff seg t).0 same)
          (match_levels_sound fs ts rest)
  ]
]

match_levels-hash : (ts : List Text) → match_levels (hash ∷ []) ts ≡ true
unfolding match_levels
match_levels-hash [] = refl
match_levels-hash (t ∷ ts) = refl

match_levels_complete : {fs ts : List Text} → Matches fs ts → match_levels fs ts ≡ true
unfolding match_levels
match_levels_complete both_end = refl
match_levels_complete (multi_level {fs} {ts} e) = rw e (match_levels-hash ts)
match_levels_complete (single_level {seg} e m) = rw e (match_levels_complete m)
match_levels_complete (same_level {seg} {t} ne e m) =
    ground (arith, text_eq_iff seg hash, text_eq_iff seg t, match_levels_complete m)

abbrev pub TopicMatches : Text → Text → Type 0
TopicMatches filter topic =
    (filter ≢ [])
    × (topic ≢ [])
    × (hides_system (head_or_empty (split slash filter)) (head_or_empty (split slash topic))
        ≡ false)
    × Matches (split slash filter) (split slash topic)

is_empty_iff : (s : Text) → (is_empty s ≡ false) ↔ (s ≢ [])
is_empty_iff [] = (λ h. cc, λ h. absurd (h refl))
is_empty_iff (c ∷ s) = (λ h e. cc, λ h. refl)

or_false : (a b : Bool) → a || b ≡ false → (a ≡ false) × (b ≡ false)
or_false a b h = ground arith

matches_split :
    (f t : Text)
    → matches_trimmed f t ≡ true
    → (is_empty f || is_empty t ≡ false)
      × (hides_system (head_or_empty (split slash f)) (head_or_empty (split slash t)) ≡ false)
      × (match_levels (split slash f) (split slash t) ≡ true)
matches_split f t h = elim (Bool-cases (is_empty f || is_empty t)) [
  | inl e ↦ let bad : false ≡ true = rw e at h in cc bad
  | inr ne ↦
      elim (Bool-cases
        (hides_system (head_or_empty (split slash f)) (head_or_empty (split slash t)))) [
          | inl e ↦ let bad : false ≡ true = rw (ne, e) at h in cc bad
          | inr shown ↦ (ne, shown, rw (ne, shown) at h)
        ]
]

trimmed_sound : (f t : Text) → matches_trimmed f t ≡ true → TopicMatches f t
trimmed_sound f t h =
    let (ne, shown, m) = matches_split f t h in
    let (nf, nt) = or_false (is_empty f) (is_empty t) ne in
    (
      (is_empty_iff f).0 nf,
      (is_empty_iff t).0 nt,
      shown,
      match_levels_sound (split slash f) (split slash t) m,
    )

trimmed_complete : (f t : Text) → TopicMatches f t → matches_trimmed f t ≡ true
trimmed_complete f t (nf, nt, shown, m) =
    rw ((is_empty_iff f).1 nf, (is_empty_iff t).1 nt, shown) (match_levels_complete m)

-- A filter, less its surrounding space, matches a topic exactly when both are not empty, no
-- wildcard stands at the first level where the topic begins with `$`, and the levels match by the
-- rules of MQTT 3.1.1, given as a relation.
pub topic_matches_iff :
    (filter topic : Text)
    → (topic_matches filter topic ≡ true) ↔ TopicMatches (trim_space filter) topic
unfolding topic_matches
topic_matches_iff filter topic =
    (trimmed_sound (trim_space filter) topic, trimmed_complete (trim_space filter) topic)
