-- ===== src/Prelude/Eviction.antt =====
-- The loop that several tables share: the key whose value has the earliest stamp, with the empty
-- key for "none yet", and its removal.
use Prim.Native.Nat.{ℕ, ◌≤◌, ◌<◌}
use mathlib.Core.Path.{◌≡◌, refl}
use mathlib.Core.Logic.{◌≢◌, ◌⊎◌, inl, inr}
use mathlib.Core.Bool.{false, ◌||◌}
use mathlib.Core.Option.{none, some}
use mathlib.Core.List.{[], ◌∷◌}
use native.Mathlib.Omega.{arith}
use wrtdeck.Prelude.Tests.{ltb, ltb→lt, ltb→ge, if◌then◌else◌, Bool-cases}
use wrtdeck.Prelude.Lists.{length, is_empty, All}
use wrtdeck.Prelude.Keys.{Text, text_eq_iff, text_key}
use wrtdeck.Prelude.Maps.{Dict, get, delete, IsDistinct}

module _ {ℓ} {V : Type ℓ} (stamp : V → ℕ) where
  unfoldable pub oldest_key : Text → ℕ → Dict Text V → Text
  oldest_key candidate earliest [] = candidate
  oldest_key candidate earliest ((key, v) ∷ m) =
      let older = is_empty candidate || ltb (stamp v) earliest in
      oldest_key (if older then key else candidate) (if older then stamp v else earliest) m

  unfoldable pub drop_oldest : Dict Text V → Dict Text V
  drop_oldest m = let key = oldest_key [] 0 m in if is_empty key then m else delete key m

  -- `key` is bound to a value that no other value precedes.
  pub record Oldest (key : Text) (v : V) (m : Dict Text V) : Type ℓ where
    pub bound : get key m ≡ some v
    pub first : All (λ kv. stamp v ≤ stamp kv.1) m

abbrev pub KeysNamed {ℓ} : {V : Type ℓ} → Dict Text V → Type 0
KeysNamed m = All (λ kv. kv.0 ≢ []) m

module _ {ℓ} {V : Type ℓ} (stamp : V → ℕ) where
  All-le_trans :
      (a b : ℕ) (m : Dict Text V)
      → a ≤ b
      → All (λ kv. b ≤ stamp kv.1) m
      → All (λ kv. a ≤ stamp kv.1) m
  All-le_trans a b [] h all = tt
  All-le_trans a b ((k, v) ∷ m) h (here, all) = (omega arith, All-le_trans a b m h all)

  -- The candidate stays if nothing in `m` precedes it.
  Found : Text → ℕ → Dict Text V → Text → Type ℓ
  Found candidate earliest m key =
      ((key ≡ candidate) × All (λ kv. earliest ≤ stamp kv.1) m)
      ⊎ ((v : V) × Oldest stamp key v m × (stamp v < earliest))

  get_cons_ne :
      (k key : Text) (v w : V) (m : Dict Text V)
      → get k m ≡ none
      → get key m ≡ some w
      → get key ((k, v) ∷ m) ≡ some w
  unfolding get
  get_cons_ne k key v w m fresh h = ground (arith, text_eq_iff k key)

  get_cons_self : (k : Text) (v : V) (m : Dict Text V) → get k ((k, v) ∷ m) ≡ some v
  unfolding get
  get_cons_self k v m = ground (arith, text_eq_iff k k)

  -- From the rest of the map to the whole, where the head becomes the candidate.
  Found-replaced :
      (k key : Text) (v : V) (m : Dict Text V)
      → get k m ≡ none
      → Found k (stamp v) m key
      → (w : V) × Oldest stamp key w ((k, v) ∷ m) × (stamp w ≤ stamp v)
  unfolding Found
  Found-replaced k key v m fresh (inl (e, all)) =
      (v, record { bound = rw e (get_cons_self k v m); first = (omega arith, all) }, omega arith)
  Found-replaced k key v m fresh (inr (w, o, lt)) = (
    w,
    record { bound = get_cons_ne k key v w m fresh o.bound; first = (omega arith, o.first) },
    omega arith,
  )

  -- And where the candidate stays.
  Found-kept :
      (c k key : Text) (t : ℕ) (v : V) (m : Dict Text V)
      → get k m ≡ none
      → t ≤ stamp v
      → Found c t m key
      → Found c t ((k, v) ∷ m) key
  unfolding Found
  Found-kept c k key t v m fresh h (inl (e, all)) = inl (e, (h, all))
  Found-kept c k key t v m fresh h (inr (w, o, lt)) = inr (
    w,
    record { bound = get_cons_ne k key v w m fresh o.bound; first = (omega arith, o.first) },
    lt,
  )

  Found-replaced_earlier :
      (c k key : Text) (t : ℕ) (v : V) (m : Dict Text V)
      → get k m ≡ none
      → stamp v < t
      → Found k (stamp v) m key
      → Found c t ((k, v) ∷ m) key
  unfolding Found
  Found-replaced_earlier c k key t v m fresh lt f =
      let (w, o, le) = Found-replaced k key v m fresh f in inr (w, o, omega arith)

  is_empty-false : (c : Text) → c ≢ [] → is_empty c ≡ false
  is_empty-false [] h = absurd (h refl)
  is_empty-false (a ∷ s) h = refl

  oldest_key-Found :
      (c : Text) (t : ℕ) (m : Dict Text V)
      → c ≢ []
      → IsDistinct m
      → KeysNamed m
      → Found c t m (oldest_key stamp c t m)
  unfolding oldest_key
  oldest_key-Found c t [] named d ks = unfold Found in inl (refl, tt)
  oldest_key-Found c t ((k, v) ∷ m) named (fresh, d) (k_named, ks) =
      elim (Bool-cases (ltb (stamp v) t)) [
        | inl earlier ↦
            rw (is_empty-false c named, earlier)
              (Found-replaced_earlier c k _ t v m fresh (ltb→lt _ _ earlier)
                (oldest_key-Found k (stamp v) m k_named d ks))
        | inr later ↦
            rw (is_empty-false c named, later)
              (Found-kept c k _ t v m fresh (ltb→ge _ _ later) (oldest_key-Found c t m named d ks))
      ]

  -- The loop finds the first of the values, if there is one.
  pub oldest_key-Oldest :
      (k : Text) (v : V) (m : Dict Text V)
      → IsDistinct ((k, v) ∷ m)
      → KeysNamed ((k, v) ∷ m)
      → (w : V) × Oldest stamp (oldest_key stamp [] 0 ((k, v) ∷ m)) w ((k, v) ∷ m)
  unfolding oldest_key
  oldest_key-Oldest k v m (fresh, d) (k_named, ks) =
      let (w, o, le) = Found-replaced k _ v m fresh (oldest_key-Found k (stamp v) m k_named d ks) in
      (w, o)

  get-named : (k : Text) (v : V) (m : Dict Text V) → KeysNamed m → get k m ≡ some v → k ≢ []
  unfolding get
  get-named k v [] ks h = cc
  get-named k v ((j, w) ∷ m) (named, ks) h = ground (arith, text_eq_iff j k, get-named k v m ks)

  -- On a map that is not empty `drop_oldest` deletes one binding, and it is a first one.
  pub drop_oldest_lem :
      (m : Dict Text V)
      → IsDistinct m
      → KeysNamed m
      → 0 < length m
      → (key : Text) × (v : V) × Oldest stamp key v m × (drop_oldest stamp m ≡ delete key m)
  unfolding drop_oldest
  drop_oldest_lem [] d ks h = absurd (omega arith)
  drop_oldest_lem ((k, v) ∷ m) d ks h =
      let (w, o) = oldest_key-Oldest k v m d ks in
      let named = get-named _ w ((k, v) ∷ m) ks o.bound in
      (oldest_key stamp [] 0 ((k, v) ∷ m), w, o, rw (is_empty-false _ named))
