-- ===== src/Prelude/Table.antt =====
-- Maps from texts whose keys are distinct and never empty: every operation keeps them so.
use Prim.Native.Nat.{ℕ, ◌+◌, ◌<◌}
use mathlib.Core.Path.{◌≡◌, refl}
use mathlib.Core.Logic.{◌≢◌, ◌⊎◌, inl, inr}
use mathlib.Core.Bool.{Bool}
use mathlib.Core.Option.{none, some}
use mathlib.Core.List.{[], ◌∷◌}
use native.Mathlib.Omega.{arith}
use wrtdeck.Prelude.Tests.{Bool-cases}
use wrtdeck.Prelude.Lists.{length}
use wrtdeck.Prelude.Keys.{Text, text_eq, text_eq_iff, nat_key, text_key}
use wrtdeck.Prelude.Maps.{Dict, get, put, delete, keep, IsDistinct}
use wrtdeck.Prelude.Lookup.{get-delete, put-IsDistinct, delete-IsDistinct, keep-IsDistinct}
use wrtdeck.Prelude.Bindings.{All-put, All-delete, All-keep}
use wrtdeck.Prelude.Sizes.{length-delete}
use wrtdeck.Prelude.Eviction.{oldest_key, drop_oldest, Oldest, KeysNamed, drop_oldest_lem}

pub record IsTable {ℓ} {V : Type ℓ} (m : Dict Text V) : Type ℓ where
  pub distinct : IsDistinct m
  pub named : KeysNamed m

module _ {ℓ} {V : Type ℓ} where
  pub get_empty : (m : Dict Text V) → KeysNamed m → get [] m ≡ none
  unfolding get
  get_empty [] ks = refl
  get_empty ((key, v) ∷ m) (named, ks) = ground (arith, text_eq_iff key [], get_empty m ks)

  pub put-IsTable : (k : Text) (v : V) (m : Dict Text V) → k ≢ [] → IsTable m → IsTable (put k v m)
  put-IsTable k v m h t = record {
    distinct = put-IsDistinct k v m t.distinct;
    named = All-put (λ kv. kv.0 ≢ []) k v m h t.named;
  }

  pub delete-IsTable : (k : Text) (m : Dict Text V) → IsTable m → IsTable (delete k m)
  delete-IsTable k m t = record {
    distinct = delete-IsDistinct k m t.distinct;
    named = All-delete (λ kv. kv.0 ≢ []) k m t.named;
  }

  pub keep-IsTable : (p : Text → V → Bool) (m : Dict Text V) → IsTable m → IsTable (keep p m)
  keep-IsTable p m t = record {
    distinct = keep-IsDistinct p m t.distinct;
    named = All-keep (λ kv. kv.0 ≢ []) p m t.named;
  }

module _ {ℓ} {V : Type ℓ} (stamp : V → ℕ) (m : Dict Text V) where
  pub drop_oldest-IsTable : IsTable m → IsTable (drop_oldest stamp m)
  unfolding drop_oldest
  drop_oldest-IsTable t = ground (arith, delete-IsTable (oldest_key stamp [] 0 m) m t)

  pub get-drop_oldest-none : (k : Text) → get k m ≡ none → get k (drop_oldest stamp m) ≡ none
  unfolding drop_oldest
  get-drop_oldest-none k h = ground (arith, get-delete k (oldest_key stamp [] 0 m) m)

  pub length-drop_oldest : IsTable m → 0 < length m → length (drop_oldest stamp m) + 1 ≡ length m
  length-drop_oldest t h =
      let (key, v, o, dropped) = drop_oldest_lem stamp m t.distinct t.named h in
      rw dropped (ground (arith, o.bound, length-delete key m t.distinct))

  length-pos_of_get : (k : Text) (v : V) → get k m ≡ some v → 0 < length m
  unfolding get
  length-pos_of_get k v h = length_get m h
    where
      length_get : (l : Dict Text V) → get k l ≡ some v → 0 < length l
      length_get [] e = cc
      length_get (x ∷ l) e = omega arith

  -- A binding stays, unless no other precedes it.
  pub drop_oldest_cases :
      (k : Text) (v : V)
      → IsTable m
      → get k m ≡ some v
      → (get k (drop_oldest stamp m) ≡ some v) ⊎ Oldest stamp k v m
  drop_oldest_cases k v t h =
      let (key, w, o, dropped) =
        drop_oldest_lem stamp m t.distinct t.named (length-pos_of_get k v h) in
      elim (Bool-cases (text_eq key k)) [
        | inl same ↦
            let here : key ≡ k = (text_eq_iff key k).0 same in
            let bound : get k m ≡ some w = rw here at o.bound in
            let value : w ≡ v = cc in inr (record { bound = h; first = rw (← value) o.first })
        | inr other ↦ inl (rw (dropped, get-delete k key m, other) h)
      ]
