-- ===== src/Prelude/Sizes.antt =====
-- How many pairs each operation on a map leaves.
use Prim.Native.Nat.{◌+◌, ◌≤◌}
use mathlib.Core.Path.{◌≡◌, refl}
use mathlib.Core.Bool.{Bool}
use mathlib.Core.Option.{none}
use mathlib.Core.List.{[], ◌∷◌}
use native.Mathlib.Omega.{arith}
use wrtdeck.Prelude.Tests.{if◌then◌else◌, is_some}
use wrtdeck.Prelude.Lists.{length}
use wrtdeck.Prelude.Keys.{Key}
use wrtdeck.Prelude.Maps.{Dict, get, put, delete, keep, IsDistinct}

module _ {ℓ κ} {K : Type ℓ} {V : Type κ} ⦃e : Key K⦄ where
  pub length-put :
      (k : K) (v : V) (m : Dict K V)
      → length (put k v m) ≡ (if is_some (get k m) then length m else length m + 1)
  unfolding get put
  length-put k v [] = omega arith
  length-put k v ((i, w) ∷ m) = ground (arith, length-put k v m)

  pub delete_absent : (k : K) (m : Dict K V) → get k m ≡ none → delete k m ≡ m
  unfolding get delete
  delete_absent k [] h = refl
  delete_absent k ((i, w) ∷ m) h = ground (arith, delete_absent k m)

  pub length-delete :
      (k : K) (m : Dict K V)
      → IsDistinct m
      → length (delete k m) + (if is_some (get k m) then 1 else 0) ≡ length m
  unfolding get delete
  length-delete k [] h = omega arith
  length-delete k ((i, w) ∷ m) (fresh, h) =
      ground (arith, e.same_iff i k, length-delete k m h, delete_absent k m)

  pub length-delete-le : (k : K) (m : Dict K V) → length (delete k m) ≤ length m
  unfolding delete
  length-delete-le k [] = omega arith
  length-delete-le k ((i, w) ∷ m) = ground (arith, length-delete-le k m)

  pub length-keep-le : (p : K → V → Bool) (m : Dict K V) → length (keep p m) ≤ length m
  unfolding keep
  length-keep-le p [] = omega arith
  length-keep-le p ((i, w) ∷ m) = ground (arith, length-keep-le p m)
