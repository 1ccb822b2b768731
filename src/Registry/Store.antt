-- ===== src/Registry/Store.antt =====
-- internal/registry/store.go: the entries by their names, in memory and in a file. `clone` copies an
-- entry, which is the identity on values; the mutex makes each operation one step. What JSON makes of
-- a list of entries is a parameter.
pub mod Lookup
pub mod Named
pub mod Saved
use wrtdeck.Prelude.{
  if◌then◌else◌, length, Dict, get, put, delete, values, Text, text_eq, nat_key, text_key, text_ltb,
  sort_by, ltz, eqz, Reading, not_exist, unreadable, contents, ℕ, Bool, true, false, not, Option,
  none, some, List, [], ◌∷◌, ◌++◌,
}
use wrtdeck.Registry.Model.{Entry}

-- `path` is whether there is a file to save_entries to.
pub record EntryStore : Type 0 where
  pub path : Bool
  pub entries : Dict Text Entry

pub record EntryCodec : Type 0 where
  pub encode : List Entry → Text
  pub decode : Text → Option (List Entry)

abbrev pub new_entries : Bool → EntryStore
new_entries path = record { path = path; entries = [] }

-- `for _, e := range entries { s.entries[e.ID] = e }`
unfoldable pub index_from : Dict Text Entry → List Entry → Dict Text Entry
index_from m [] = m
index_from m (e ∷ es) = index_from (put e.id e m) es

abbrev pub loaded_as : EntryStore → Option (List Entry) → EntryStore × Bool
loaded_as s none = (s, false)
loaded_as s (some es) = (record s { entries = index_from [] es }, true)

abbrev pub load_reading : EntryCodec → Reading → EntryStore → EntryStore × Bool
load_reading codec not_exist s = (s, true)
load_reading codec unreadable s = (s, false)
load_reading codec (contents content) s = loaded_as s (codec.decode content)

-- The answer is whether there was no error.
unfoldable pub load : EntryCodec → Reading → EntryStore → EntryStore × Bool
unfolding index_from
load codec reading s = if s.path then load_reading codec reading s else (s, true)

abbrev pub entry_less : Entry → Entry → Bool
entry_less a b =
    if not (text_eq a.group b.group)
    then text_ltb a.group b.group
    else if not (eqz a.ui.order b.ui.order)
    then ltz a.ui.order b.ui.order
    else text_ltb a.id b.id

unfoldable pub sort_entries : List Entry → List Entry
sort_entries es = sort_by entry_less es

-- The file, where there is one, and whether there was no error: `written` is whether every call of the
-- file system succeeded. A file that is not replaced as a whole stays as it was.
unfoldable pub save_entries : EntryCodec → Bool → EntryStore → Option Text → Option Text × Bool
unfolding sort_entries
save_entries codec written s file =
    if s.path
    then (if written
        then (some (codec.encode (sort_entries (values s.entries)) ++ 10 ∷ []), true)
        else (file, false))
    else (file, true)

unfoldable pub list : EntryStore → List Entry
unfolding sort_entries
list s = sort_entries (values s.entries)

unfoldable pub of_kind : Text → List Entry → List Entry
of_kind kind [] = []
of_kind kind (e ∷ es) = let rest = of_kind kind es in if text_eq e.kind kind then e ∷ rest else rest

unfoldable pub list_by_kind : Text → EntryStore → List Entry
unfolding list of_kind
list_by_kind kind s = of_kind kind (list s)

unfoldable pub get_entry : Text → EntryStore → Option Entry
get_entry id s = get id s.entries

-- The entry stays in memory where the file is not written.
unfoldable pub put_entry :
    EntryCodec → Bool → Entry → EntryStore → Option Text → EntryStore × Option Text × Bool
unfolding save_entries
put_entry codec written e s file =
    let s' = record s { entries = put e.id e s.entries } in
    let (file', saved) = save_entries codec written s' file in (s', file', saved)

abbrev pub deleted_as :
    EntryCodec
    → Bool
    → EntryStore
    → Option Text
    → Option Entry
    → EntryStore × (Option Text × Bool) × Bool
deleted_as codec written s file none = (s, (file, true), false)
deleted_as codec written s file (some e) = (s, save_entries codec written s file, true)

-- The store, the file with whether there was no error, and whether the entry was there.
unfoldable pub delete_entry :
    EntryCodec → Bool → Text → EntryStore → Option Text → EntryStore × (Option Text × Bool) × Bool
unfolding save_entries
delete_entry codec written id s file =
    deleted_as codec written (record s { entries = delete id s.entries }) file (get id s.entries)

unfoldable pub count_entries : EntryStore → ℕ
count_entries s = length s.entries
