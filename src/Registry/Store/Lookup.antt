-- ===== src/Registry/Store/Lookup.antt =====
-- Entries found by their names in a list, in the map, and in the map that is made of a list.

use wrtdeck.Prelude.{
  if◌then◌else◌, get-put, get-delete, Dict, get, put, delete, values, Text, text_eq, text_eq_iff,
  nat_key, text_key, text_eq_flip, ◌≡◌, refl, sym, ap, ◌∙◌, Bool, true, false, Option, none, some,
  List, [], ◌∷◌,
}
use wrtdeck.Registry.Model.{Entry}

unfoldable pub find_id : Text → List Entry → Option Entry
find_id id [] = none
find_id id (e ∷ es) = if text_eq e.id id then some e else find_id id es

-- Every entry stands under its name.
unfoldable pub IsKeyed : Dict Text Entry → Type 0
IsKeyed [] = Unit
IsKeyed ((k, e) ∷ m) = (e.id ≡ k) × (get k m ≡ none) × IsKeyed m

pub put-IsKeyed : (e : Entry) (m : Dict Text Entry) → IsKeyed m → IsKeyed (put e.id e m)
unfolding IsKeyed put get
put-IsKeyed e [] v = (refl, refl, tt)
put-IsKeyed e ((k, d) ∷ m) (named, fresh, v) = by_key (text_eq k e.id) refl (put-IsKeyed e m v)
  where
    by_key :
        (b : Bool)
        → text_eq k e.id ≡ b
        → IsKeyed (put e.id e m)
        → IsKeyed (if b then (e.id, e) ∷ m else (k, d) ∷ put e.id e m)
    by_key true same rest =
        (refl, ap (λ (t : Text). get t m) (sym ((text_eq_iff k e.id).0 same)) ∙ fresh, v)
    by_key false other rest = (
      named,
      get-put k e.id e m
          ∙ ap (λ (b : Bool). if b then some e else get k m) (text_eq_flip k e.id other)
          ∙ fresh,
      rest,
    )

pub some-none {ℓ} : {A : Type ℓ} {a : A} → some a ≡ none → ⊥
some-none h = cc

none_either : (b : Bool) → ◌≡◌ {A = Option Entry} (if b then none else none) none
none_either true = refl
none_either false = refl

pub delete-IsKeyed : (id : Text) (m : Dict Text Entry) → IsKeyed m → IsKeyed (delete id m)
unfolding IsKeyed delete
delete-IsKeyed id [] v = tt
delete-IsKeyed id ((k, e) ∷ m) (named, fresh, v) =
    by_key (text_eq k id) refl (delete-IsKeyed id m v)
  where
    by_key :
        (b : Bool)
        → text_eq k id ≡ b
        → IsKeyed (delete id m)
        → IsKeyed (if b then delete id m else (k, e) ∷ delete id m)
    by_key true same rest = rest
    by_key false other rest = (
      named,
      get-delete k id m
          ∙ ap (λ (o : Option Entry). if text_eq id k then none else o) fresh
          ∙ none_either (text_eq id k),
      rest,
    )

pub get-values : (id : Text) (m : Dict Text Entry) → IsKeyed m → find_id id (values m) ≡ get id m
unfolding find_id values get IsKeyed
get-values id [] v = refl
get-values id ((k, e) ∷ m) (named, fresh, v) =
    ap (λ (t : Text). if text_eq t id then some e else find_id id (values m)) named
    ∙ ap (λ (o : Option Entry). if text_eq k id then some e else o) (get-values id m v)
