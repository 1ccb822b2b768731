-- ===== src/Prelude/Lookup.antt =====
-- What a lookup finds after each operation on a map.
use mathlib.Core.Path.{◌≡◌, refl}
use mathlib.Core.Bool.{Bool}
use mathlib.Core.Option.{Option, none, some}
use mathlib.Core.List.{[], ◌∷◌}
use native.Mathlib.Omega.{arith}
use wrtdeck.Prelude.Tests.{if◌then◌else◌}
use wrtdeck.Prelude.Keys.{Key}
use wrtdeck.Prelude.Maps.{Dict, get, put, delete, keep, IsDistinct}

-- What `keep p` leaves of a binding.
abbrev pub kept {ℓ κ} : {K : Type ℓ} {V : Type κ} → (K → V → Bool) → K → Option V → Option V
kept p k none = none
kept p k (some v) = if p k v then some v else none

module _ {ℓ κ} {K : Type ℓ} {V : Type κ} ⦃e : Key K⦄ where
  pub get-put :
      (j k : K) (v : V) (m : Dict K V)
      → get j (put k v m) ≡ (if e.same k j then some v else get j m)
  unfolding get put
  get-put j k v [] = refl
  get-put j k v ((i, w) ∷ m) =
      ground (arith, e.same_iff k j, e.same_iff i k, e.same_iff i j, get-put j k v m)

  pub get-delete :
      (j k : K) (m : Dict K V) → get j (delete k m) ≡ (if e.same k j then none else get j m)
  unfolding get delete
  get-delete j k [] = ground arith
  get-delete j k ((i, w) ∷ m) =
      ground (arith, e.same_iff k j, e.same_iff i k, e.same_iff i j, get-delete j k m)

  pub get-keep-none :
      (p : K → V → Bool) (k : K) (m : Dict K V) → get k m ≡ none → get k (keep p m) ≡ none
  unfolding get keep
  get-keep-none p k [] h = refl
  get-keep-none p k ((i, w) ∷ m) h = ground (arith, e.same_iff i k, get-keep-none p k m)

  pub get-keep :
      (p : K → V → Bool) (k : K) (m : Dict K V)
      → IsDistinct m
      → get k (keep p m) ≡ kept p k (get k m)
  unfolding get keep
  get-keep p k [] h = refl
  get-keep p k ((i, w) ∷ m) (fresh, h) =
      ground (arith, e.same_iff i k, get-keep p k m h, get-keep-none p k m)

  pub put-IsDistinct : (k : K) (v : V) (m : Dict K V) → IsDistinct m → IsDistinct (put k v m)
  unfolding get put
  put-IsDistinct k v [] h = (refl, tt)
  put-IsDistinct k v ((i, w) ∷ m) (fresh, h) =
      ground (arith, e.same_iff i k, e.same_iff k i, get-put i k v m, put-IsDistinct k v m h)

  pub delete-IsDistinct : (k : K) (m : Dict K V) → IsDistinct m → IsDistinct (delete k m)
  unfolding delete
  delete-IsDistinct k [] h = tt
  delete-IsDistinct k ((i, w) ∷ m) (fresh, h) =
      ground (arith, get-delete i k m, delete-IsDistinct k m h)

  pub keep-IsDistinct : (p : K → V → Bool) (m : Dict K V) → IsDistinct m → IsDistinct (keep p m)
  unfolding keep
  keep-IsDistinct p [] h = tt
  keep-IsDistinct p ((i, w) ∷ m) (fresh, h) =
      ground (arith, get-keep-none p i m, keep-IsDistinct p m h)
