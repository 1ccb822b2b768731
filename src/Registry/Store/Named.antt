-- ===== src/Registry/Store/Named.antt =====
-- What sorting and indexing leave of the entries of a list that repeats no name.
use wrtdeck.Prelude.{
  if◌then◌else◌, get-put, Dict, get, put, values, Text, text_eq, text_eq_iff, nat_key, text_key,
  ne_of_text_eq, text_eq_flip, insert_by, sort_by, ◌≡◌, refl, sym, ap, ◌∙◌, Bool, true, false,
  Option, none, some, List, [], ◌∷◌,
}
use wrtdeck.Registry.Model.{Entry}
use wrtdeck.Registry.Store.{index_from, entry_less, sort_entries}
use wrtdeck.Registry.Store.Lookup.{find_id, IsKeyed, some-none, get-values}

-- No name stands twice.
unfoldable pub IsNamed : List Entry → Type 0
IsNamed [] = Unit
IsNamed (e ∷ es) = (find_id e.id es ≡ none) × IsNamed es

pub values-IsNamed : (m : Dict Text Entry) → IsKeyed m → IsNamed (values m)
unfolding IsNamed values IsKeyed
values-IsNamed [] v = tt
values-IsNamed ((k, e) ∷ m) (named, fresh, v) =
    (get-values e.id m v ∙ ap (λ (t : Text). get t m) named ∙ fresh, values-IsNamed m v)

either_order :
    (a b : Bool) (x y : Entry) (rest : Option Entry)
    → (a ≡ true → b ≡ true → ⊥)
    → (if a then some y else if b then some x else rest)
      ≡ (if b then some x else if a then some y else rest)
either_order true true x y rest h = absurd (h refl refl)
either_order true false x y rest h = refl
either_order false b x y rest h = refl

absent :
    (b : Bool) (y : Entry) (rest : Option Entry)
    → (if b then some y else rest) ≡ none
    → (b ≡ false) × (rest ≡ none)
absent true y rest r = absurd (some-none r)
absent false y rest r = (refl, r)

-- Where an entry is put into a list that has none of its name.
find_id-insert :
    (id : Text) (x : Entry) (ys : List Entry)
    → find_id x.id ys ≡ none
    → find_id id (insert_by entry_less x ys) ≡ find_id id (x ∷ ys)
unfolding find_id insert_by
find_id-insert id x [] h = refl
find_id-insert id x (y ∷ ys) h =
    let (apart, free) = absent (text_eq y.id x.id) y (find_id x.id ys) h in
    by_order (entry_less y x) apart (find_id-insert id x ys free)
  where
    by_order :
        (b : Bool)
        → text_eq y.id x.id ≡ false
        → find_id id (insert_by entry_less x ys) ≡ find_id id (x ∷ ys)
        → find_id id (if b then y ∷ insert_by entry_less x ys else x ∷ y ∷ ys)
          ≡ find_id id (x ∷ y ∷ ys)
    by_order false apart later = refl
    by_order true apart later =
        ap (λ (o : Option Entry). if text_eq y.id id then some y else o) later
        ∙ either_order (text_eq y.id id) (text_eq x.id id) x y (find_id id ys) (λ e f.
          ne_of_text_eq y.id x.id apart
            ((text_eq_iff y.id id).0 e ∙ sym ((text_eq_iff x.id id).0 f)))

pub find_id-sort_entries :
    (id : Text) (es : List Entry) → IsNamed es → find_id id (sort_by entry_less es) ≡ find_id id es
unfolding find_id sort_by IsNamed
find_id-sort_entries id [] v = refl
find_id-sort_entries id (e ∷ es) (fresh, v) =
    find_id-insert id e (sort_by entry_less es) (find_id-sort_entries e.id es v ∙ fresh)
    ∙ ap (λ (o : Option Entry). if text_eq e.id id then some e else o)
        (find_id-sort_entries id es v)

insert_by-IsNamed :
    (x : Entry) (ys : List Entry)
    → find_id x.id ys ≡ none
    → IsNamed ys
    → IsNamed (insert_by entry_less x ys)
unfolding find_id insert_by IsNamed
insert_by-IsNamed x [] h v = (refl, tt)
insert_by-IsNamed x (y ∷ ys) h (fresh, v) =
    let (apart, free) = absent (text_eq y.id x.id) y (find_id x.id ys) h in
    by_order (entry_less y x) apart free (insert_by-IsNamed x ys free v)
  where
    by_order :
        (b : Bool)
        → text_eq y.id x.id ≡ false
        → find_id x.id ys ≡ none
        → IsNamed (insert_by entry_less x ys)
        → IsNamed (if b then y ∷ insert_by entry_less x ys else x ∷ y ∷ ys)
    by_order false apart free later = (h, (fresh, v))
    by_order true apart free later = (
      find_id-insert y.id x ys free
          ∙ ap (λ (b : Bool). if b then some x else find_id y.id ys) (text_eq_flip y.id x.id apart)
          ∙ fresh,
      later,
    )

pub sort_entries-IsNamed : (es : List Entry) → IsNamed es → IsNamed (sort_by entry_less es)
unfolding sort_by IsNamed
sort_entries-IsNamed [] v = tt
sort_entries-IsNamed (e ∷ es) (fresh, v) =
    insert_by-IsNamed e (sort_by entry_less es) (find_id-sort_entries e.id es v ∙ fresh)
      (sort_entries-IsNamed es v)

abbrev pub first_of : Option Entry → Option Entry → Option Entry
first_of none o = o
first_of (some e) o = some e

-- The map that is made of a list.
get-index_from :
    (id : Text) (m : Dict Text Entry) (es : List Entry)
    → IsNamed es
    → get id (index_from m es) ≡ first_of (find_id id es) (get id m)
unfolding index_from find_id IsNamed
get-index_from id m [] v = refl
get-index_from id m (e ∷ es) (fresh, v) =
    get-index_from id (put e.id e m) es v
    ∙ ap (first_of (find_id id es)) (get-put id e.id e m)
    ∙ by_name (text_eq e.id id) refl
  where
    by_name :
        (b : Bool)
        → text_eq e.id id ≡ b
        → first_of (find_id id es) (if b then some e else get id m)
          ≡ first_of (if b then some e else find_id id es) (get id m)
    by_name false h = refl
    by_name true h =
        ap (λ (o : Option Entry). first_of o (some e))
          (ap (λ (t : Text). find_id t es) (sym ((text_eq_iff e.id id).0 h)) ∙ fresh)

-- A map that is made of the sorted entries of another one finds the same entries.
pub get-index_from-list :
    (id : Text) (m : Dict Text Entry)
    → IsKeyed m
    → get id (index_from [] (sort_entries (values m))) ≡ get id m
unfolding sort_entries get
get-index_from-list id m v =
    let named = values-IsNamed m v in
    get-index_from id [] (sort_by entry_less (values m)) (sort_entries-IsNamed (values m) named)
    ∙ ap (λ (o : Option Entry). first_of o none)
        (find_id-sort_entries id (values m) named ∙ get-values id m v)
    ∙ first_none (get id m)
  where
    first_none : (o : Option Entry) → first_of o none ≡ o
    first_none none = refl
    first_none (some e) = refl
