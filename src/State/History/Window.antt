-- ===== src/State/History/Window.antt =====
-- What is read of the samples: the last of those that were appended.
use wrtdeck.Prelude.{
  ltb, if◌then◌else◌, ltb→ge, Bool-cases, get-put, get-delete, length, drop, length-append,
  length-drop, get, Text, text_eq, text_eq_iff, nat_key, text_key, ℤ, pos, nat_of, is_positive, ℕ,
  zero, suc, ◌+◌, ◌-◌, ◌≤◌, ◌<◌, min, ◌≡◌, refl, sym, ap, ◌∙◌, ◌≢◌, inl, inr, List, [], ◌∷◌, ◌++◌,
  arith,
}
use native.Mathlib.Nat.{zero-add, suc-add}
use wrtdeck.State.History.{History, last, samples, new_history, append, get_samples, delete_samples}

drop_append {ℓ} :
    {A : Type ℓ} (k : ℕ) (xs ys : List A) → k ≤ length xs → drop k (xs ++ ys) ≡ drop k xs ++ ys
drop_append zero xs ys h = refl
drop_append (suc k) [] ys h = absurd (omega (arith, h))
drop_append (suc k) (x ∷ xs) ys h = drop_append k xs ys (omega (arith, h))

drop_none {ℓ} : {A : Type ℓ} (a : ℕ) (xs : List A) → xs ≡ [] → drop a xs ≡ []
drop_none zero xs h = h
drop_none (suc a) [] h = refl
drop_none (suc a) (x ∷ xs) h = cc

drop-drop {ℓ} : {A : Type ℓ} (a k : ℕ) (xs : List A) → drop a (drop k xs) ≡ drop (k + a) xs
drop-drop a zero xs = rw zero-add
drop-drop a (suc k) [] = rw suc-add (drop_none a [] refl)
drop-drop a (suc k) (x ∷ xs) = rw suc-add (drop-drop a k xs)

length-last {ℓ} : {A : Type ℓ} (n : ℕ) (xs : List A) → length (last n xs) ≡ min n (length xs)
length-last n xs = omega (arith, length-drop (length xs - n) xs)

last-last {ℓ} : {A : Type ℓ} (q n : ℕ) (xs : List A) → last q (last n xs) ≡ last (min q n) xs
last-last q n xs =
    drop-drop (length (last n xs) - q) (length xs - n) xs
    ∙ ap (λ (k : ℕ). drop k xs) (omega (arith, length-last n xs))

last-append {ℓ} :
    {A : Type ℓ} (n : ℕ) (xs : List A) (y : A)
    → last n (last n xs ++ y ∷ []) ≡ last n (xs ++ y ∷ [])
last-append n xs y =
    rw (← drop_append (length xs - n) xs (y ∷ []) (omega arith), drop-drop)
      (ap (λ (k : ℕ). drop k (xs ++ y ∷ []))
        (omega (
          arith,
          length-append xs (y ∷ []),
          length-append (last n xs) (y ∷ []),
          length-last n xs,
          length-drop (length xs - n) (xs ++ y ∷ []),
        )))

cut_last {ℓ} :
    {A : Type ℓ} (n : ℕ) (buf : List A)
    → (if ltb n (length buf) then last n buf else buf) ≡ last n buf
cut_last n buf = elim (Bool-cases (ltb n (length buf))) [
  | inl long ↦ rw long
  | inr short ↦
      let none_off : length buf - n ≡ 0 = omega (arith, ltb→ge _ _ short) in rw (short, none_off)
]

pub data Op {ℓ} (A : Type ℓ) : Type ℓ where
  appended : Text → A → Op A
  deleted : Text → Op A

module _ {ℓ} {A : Type ℓ} where
  abbrev pub apply : Op A → History A → History A
  apply (appended id s) h = append id s h
  apply (deleted id) h = delete_samples id h

  -- The calls one after the other, the first of the list last.
  unfoldable pub run_ops : List (Op A) → History A → History A
  unfolding append delete_samples
  run_ops [] h = h
  run_ops (op ∷ ops) h = apply op (run_ops ops h)

  -- The samples of `id` that were appended since its last removal.
  unfoldable pub log : Text → List (Op A) → List A
  log id [] = []
  log id (appended j s ∷ ops) = if text_eq j id then log id ops ++ s ∷ [] else log id ops
  log id (deleted j ∷ ops) = if text_eq j id then [] else log id ops

  limit_kept : (n : ℕ) (ops : List (Op A)) → (run_ops ops (new_history (pos n))).limit ≡ n
  unfolding run_ops new_history append delete_samples
  limit_kept n [] = refl
  limit_kept n (appended j s ∷ ops) = ground (arith, limit_kept n ops)
  limit_kept n (deleted j ∷ ops) = limit_kept n ops

  append_lem :
      (id j : Text) (s : A) (h : History A)
      → 0 < h.limit
      → id ≢ []
      → samples (get id (append j s h).items) ≡ (
          if text_eq j id
          then last h.limit (samples (get id h.items) ++ s ∷ [])
          else samples (get id h.items))
  unfolding append
  append_lem id j s h positive named = ground (
    arith,
    text_eq_iff j id,
    get-put id j
        (if ltb h.limit (length (samples (get j h.items) ++ s ∷ []))
          then last h.limit (samples (get j h.items) ++ s ∷ [])
          else samples (get j h.items) ++ s ∷ [])
        h.items,
    cut_last h.limit (samples (get j h.items) ++ s ∷ []),
  )

  samples-run_ops :
      (n : ℕ) (id : Text) (ops : List (Op A))
      → 0 < n
      → id ≢ []
      → samples (get id (run_ops ops (new_history (pos n))).items) ≡ last n (log id ops)
  unfolding run_ops log delete_samples new_history get
  samples-run_ops n id [] positive named = sym (drop_none (0 - n) [] refl)
  samples-run_ops n id (appended j s ∷ ops) positive named =
      let before = run_ops ops (new_history (pos n)) in
      let same : before.limit ≡ n = limit_kept n ops in
      append_lem id j s before (rw same positive) named
      ∙ rw (same, samples-run_ops n id ops positive named)
          (elim (Bool-cases (text_eq j id)) [
            | inl same_id ↦ rw same_id (last-append n (log id ops) s)
            | inr other ↦ rw other
          ])
  samples-run_ops n id (deleted j ∷ ops) positive named =
      rw (get-delete id j (run_ops ops (new_history (pos n))).items)
        (elim (Bool-cases (text_eq j id)) [
          | inl same_id ↦ rw same_id (sym (drop_none (0 - n) [] refl))
          | inr other ↦ rw other (samples-run_ops n id ops positive named)
        ])

  -- What `Get` returns for a source with a name under a positive limit, however many samples of any
  -- sources were appended and removed, in whatever order: the last samples that were appended for
  -- it since its last removal, as many as were asked for and never more than the limit.
  pub get_samples-run_ops :
      (n : ℕ) (q : ℤ) (id : Text) (ops : List (Op A))
      → 0 < n
      → id ≢ []
      → get_samples id q (run_ops ops (new_history (pos n)))
        ≡ last (if is_positive q then min (nat_of q) n else n) (log id ops)
  unfolding get_samples
  get_samples-run_ops n q id ops positive named =
      let kept = last n (log id ops) in
      rw (samples-run_ops n id ops positive named) (elim (Bool-cases (is_positive q)) [
        | inl bounded ↦ rw bounded (cut_last (nat_of q) kept ∙ last-last (nat_of q) n (log id ops))
        | inr whole ↦ rw whole
      ])
