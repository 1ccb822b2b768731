-- ===== src/Config/Password/Policy.antt =====
-- What a password that passes the check is.
use wrtdeck.Prelude.{
  ltb, if◌then◌else◌, ltb→ge, Bool-cases, length, is_empty, Text, text_eq, text_eq_iff, nat_key,
  text_key, trim_space, ℕ, ◌+◌, ◌≤◌, ◌≡◌, refl, ◌↔◌, ◌⊎◌, inl, inr, Bool, true, false, not, [], ◌∷◌,
  arith,
}
use wrtdeck.Config.Password.{
  password_min_runes, password_max_runes, is_weak, Kind, lower_case, upper_case, digit, other_kind,
  kind_of, same_kind, occurs, one_if, kinds, Strength, empty_password, padded, too_short, too_long,
  too_common, one_kind, strong, check_password_strength,
}

pub data In : ℕ → Text → Type 0 where
  at_head : {c : ℕ} {p : Text} → In c (c ∷ p)
  in_tail : {c d : ℕ} {p : Text} → In c p → In c (d ∷ p)

same_kind_refl : (k : Kind) → same_kind k k ≡ true
same_kind_refl lower_case = refl
same_kind_refl upper_case = refl
same_kind_refl digit = refl
same_kind_refl other_kind = refl

same_kind_eq : (k l : Kind) → same_kind k l ≡ true → k ≡ l
same_kind_eq lower_case lower_case h = refl
same_kind_eq upper_case upper_case h = refl
same_kind_eq digit digit h = refl
same_kind_eq other_kind other_kind h = refl
same_kind_eq lower_case upper_case h = cc h
same_kind_eq lower_case digit h = cc h
same_kind_eq lower_case other_kind h = cc h
same_kind_eq upper_case lower_case h = cc h
same_kind_eq upper_case digit h = cc h
same_kind_eq upper_case other_kind h = cc h
same_kind_eq digit lower_case h = cc h
same_kind_eq digit upper_case h = cc h
same_kind_eq digit other_kind h = cc h
same_kind_eq other_kind lower_case h = cc h
same_kind_eq other_kind upper_case h = cc h
same_kind_eq other_kind digit h = cc h

occurs_sound : (k : Kind) (p : Text) → occurs k p ≡ true → (c : ℕ) × In c p × (k ≡ kind_of c)
unfolding occurs
occurs_sound k [] h = cc h
occurs_sound k (c ∷ p) h = elim (Bool-cases (same_kind k (kind_of c))) [
  | inl same ↦ (c, at_head, same_kind_eq k (kind_of c) same)
  | inr other ↦ let (d, found, e) = occurs_sound k p (rw other at h) in (d, in_tail found, e)
]

occurs_complete : {c : ℕ} {p : Text} → In c p → occurs (kind_of c) p ≡ true
unfolding occurs
occurs_complete (at_head {c} {p}) = rw (same_kind_refl (kind_of c))
occurs_complete (in_tail {c} {d} {p} found) = ground (arith, occurs_complete found)

-- Two characters of different kinds stand in it.
abbrev pub IsMixed : Text → Type 0
IsMixed p = (c : ℕ) × (d : ℕ) × In c p × In d p × (same_kind (kind_of c) (kind_of d) ≡ false)

two_kinds :
    (k l : Kind) (p : Text)
    → same_kind k l ≡ false
    → occurs k p ≡ true
    → occurs l p ≡ true
    → IsMixed p
two_kinds k l p different hk hl =
    let (c, in_c, ec) = occurs_sound k p hk in
    let (d, in_d, ed) = occurs_sound l p hl in (c, d, in_c, in_d, rw (← ec, ← ed) different)

abbrev Pair : Bool → Bool → Type 0
Pair a b = (a ≡ true) × (b ≡ true)

two_of :
    (a b c d : Bool)
    → 2 ≤ one_if a + one_if b + one_if c + one_if d
    → Pair a b ⊎ (Pair a c ⊎ (Pair a d ⊎ (Pair b c ⊎ (Pair b d ⊎ Pair c d))))
two_of true true c d h = inl (refl, refl)
two_of true false true d h = inr (inl (refl, refl))
two_of true false false true h = inr (inr (inl (refl, refl)))
two_of false true true d h = inr (inr (inr (inl (refl, refl))))
two_of false true false true h = inr (inr (inr (inr (inl (refl, refl)))))
two_of false false true true h = inr (inr (inr (inr (inr (refl, refl)))))
two_of true false false false h = absurd (omega (arith, h))
two_of false true false false h = absurd (omega (arith, h))
two_of false false true false h = absurd (omega (arith, h))
two_of false false false d h = absurd (ground (arith, h))

kinds_sound : (p : Text) → 2 ≤ kinds p → IsMixed p
unfolding kinds
kinds_sound p h =
    elim (two_of (occurs lower_case p) (occurs upper_case p) (occurs digit p) (occurs other_kind p)
      h) [
        | inl (x, y) ↦ two_kinds lower_case upper_case p refl x y
        | inr (inl (x, y)) ↦ two_kinds lower_case digit p refl x y
        | inr (inr (inl (x, y))) ↦ two_kinds lower_case other_kind p refl x y
        | inr (inr (inr (inl (x, y)))) ↦ two_kinds upper_case digit p refl x y
        | inr (inr (inr (inr (inl (x, y))))) ↦ two_kinds upper_case other_kind p refl x y
        | inr (inr (inr (inr (inr (x, y))))) ↦ two_kinds digit other_kind p refl x y
      ]

kinds_of_two :
    (k l : Kind) (p : Text)
    → same_kind k l ≡ false
    → occurs k p ≡ true
    → occurs l p ≡ true
    → 2 ≤ kinds p
unfolding kinds
kinds_of_two lower_case lower_case p different hk hl = cc different
kinds_of_two lower_case upper_case p different hk hl = ground (arith, hk, hl)
kinds_of_two lower_case digit p different hk hl = ground (arith, hk, hl)
kinds_of_two lower_case other_kind p different hk hl = ground (arith, hk, hl)
kinds_of_two upper_case lower_case p different hk hl = ground (arith, hk, hl)
kinds_of_two upper_case upper_case p different hk hl = cc different
kinds_of_two upper_case digit p different hk hl = ground (arith, hk, hl)
kinds_of_two upper_case other_kind p different hk hl = ground (arith, hk, hl)
kinds_of_two digit lower_case p different hk hl = ground (arith, hk, hl)
kinds_of_two digit upper_case p different hk hl = ground (arith, hk, hl)
kinds_of_two digit digit p different hk hl = cc different
kinds_of_two digit other_kind p different hk hl = ground (arith, hk, hl)
kinds_of_two other_kind lower_case p different hk hl = ground (arith, hk, hl)
kinds_of_two other_kind upper_case p different hk hl = ground (arith, hk, hl)
kinds_of_two other_kind digit p different hk hl = ground (arith, hk, hl)
kinds_of_two other_kind other_kind p different hk hl = cc different

kinds_iff : (p : Text) → (2 ≤ kinds p) ↔ IsMixed p
kinds_iff p = (
  kinds_sound p,
  λ m.
      let (c, d, in_c, in_d, different) = m in
      kinds_of_two (kind_of c) (kind_of d) p different (occurs_complete in_c)
        (occurs_complete in_d),
)

pub record IsStrong (p : Text) : Type 0 where
  pub trimmed : trim_space p ≡ p
  pub at_least : password_min_runes ≤ length p
  pub at_most : length p ≤ password_max_runes
  pub uncommon : is_weak p ≡ false
  pub mixed : IsMixed p

is_strong : Strength → Bool
is_strong strong = true
is_strong _ = false

text_eq_trim : (p : Text) → trim_space p ≡ p → text_eq (trim_space p) p ≡ true
text_eq_trim p e = (text_eq_iff (trim_space p) p).1 e

-- The chain of tests, on their results.
passed_all :
    (empty trimmed short long weak few : Bool)
    → (if empty
        then empty_password
        else if not trimmed
        then padded
        else if short
        then too_short
        else if long
        then too_long
        else if weak
        then too_common
        else if few
        then one_kind
        else strong)
      ≡ strong
    → (trimmed ≡ true) × (short ≡ false) × (long ≡ false) × (weak ≡ false) × (few ≡ false)
passed_all true trimmed short long weak few h = cc h
passed_all false false short long weak few h = cc h
passed_all false true true long weak few h = cc h
passed_all false true false true weak few h = cc h
passed_all false true false false true few h = cc h
passed_all false true false false false true h = cc h
passed_all false true false false false false h = (refl, refl, refl, refl, refl)

strong_sound : (p : Text) → check_password_strength p ≡ strong → IsStrong p
unfolding check_password_strength
strong_sound p h =
    let (trimmed, short, long, weak, few) =
      passed_all (is_empty p) (text_eq (trim_space p) p) (ltb (length p) password_min_runes)
        (ltb password_max_runes (length p)) (is_weak p) (ltb (kinds p) 2) h in
    record {
      trimmed = (text_eq_iff (trim_space p) p).0 trimmed;
      at_least = ltb→ge _ _ short;
      at_most = ltb→ge _ _ long;
      uncommon = weak;
      mixed = kinds_sound p (ltb→ge _ _ few);
    }

strong_complete : (p : Text) → IsStrong p → check_password_strength p ≡ strong
unfolding check_password_strength
strong_complete p s =
    let two = (kinds_iff p).1 s.mixed in
    ground (arith, text_eq_trim p s.trimmed, s.at_least, s.at_most, s.uncommon, two)

-- A password passes the check exactly when it has no surrounding space, 8 to 128 characters, is not
-- one of the common ones, and has two characters of different kinds.
pub check_password_strength_iff : (p : Text) → (check_password_strength p ≡ strong) ↔ IsStrong p
check_password_strength_iff p = (strong_sound p, strong_complete p)
