-- ===== src/Prelude/Bindings.antt =====
-- What holds of every binding of a map holds after each operation.
use mathlib.Core.Path.{◌≡◌}
use mathlib.Core.Bool.{Bool}
use mathlib.Core.Option.{some}
use mathlib.Core.List.{[], ◌∷◌}
use native.Mathlib.Omega.{arith}
use wrtdeck.Prelude.Lists.{All}
use wrtdeck.Prelude.Keys.{Key, nat_key, text_key}
use wrtdeck.Prelude.Maps.{Dict, get, put, delete, keep}

module _ {ℓ κ μ} {K : Type ℓ} {V : Type κ} ⦃e : Key K⦄ (P : K × V → Type μ) where
  pub All-put : (k : K) (v : V) (m : Dict K V) → P (k, v) → All P m → All P (put k v m)
  unfolding put
  All-put k v [] h all = (h, tt)
  All-put k v ((j, w) ∷ m) h (here, all) = ground (arith, All-put k v m h all)

  pub All-delete : (k : K) (m : Dict K V) → All P m → All P (delete k m)
  unfolding delete
  All-delete k [] all = tt
  All-delete k ((j, w) ∷ m) (here, all) = ground (arith, All-delete k m all)

  pub All-get : (k : K) (v : V) (m : Dict K V) → All P m → get k m ≡ some v → P (k, v)
  unfolding get
  All-get k v [] all h = cc
  All-get k v ((j, w) ∷ m) (here, all) h = ground (arith, e.same_iff j k, All-get k v m all)

  pub All-keep : (p : K → V → Bool) (m : Dict K V) → All P m → All P (keep p m)
  unfolding keep
  All-keep p [] all = tt
  All-keep p ((j, w) ∷ m) (here, all) = ground (arith, All-keep p m all)
