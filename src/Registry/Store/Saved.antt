-- ===== src/Registry/Store/Saved.antt =====
-- The registry as a map from names, through any sequence of calls, and what its file gives back.
use wrtdeck.Registry.Store.Named.{get-index_from-list}
use mathlib.Core.Path.{fun_ext}
use wrtdeck.Prelude.{
  if◌then◌else◌, get-put, get-delete, get, delete, Text, text_eq, nat_key, text_key, contents, ◌≡◌,
  refl, ap, ◌∙◌, Bool, true, Option, none, some, List, [], ◌∷◌, ◌++◌,
}
use wrtdeck.Registry.Model.{Entry}
use wrtdeck.Registry.Store.{
  EntryStore, EntryCodec, new_entries, loaded_as, load, save_entries, list, get_entry, put_entry,
  deleted_as, delete_entry,
}
use wrtdeck.Registry.Store.Lookup.{IsKeyed, put-IsKeyed, delete-IsKeyed}

-- The calls that change the registry, with whether the file system takes the file.
pub data EntryCall : Type 0 where
  puts : Entry → Bool → EntryCall
  deletes : Text → Bool → EntryCall

unfoldable pub step_entries :
    EntryCodec → EntryCall → EntryStore × Option Text → EntryStore × Option Text
unfolding put_entry delete_entry
step_entries codec (puts e written) (s, file) =
    let (s', file', saved) = put_entry codec written e s file in (s', file')
step_entries codec (deletes id written) (s, file) =
    let (s', (file', saved), found) = delete_entry codec written id s file in (s', file')

unfoldable pub run_entries :
    EntryCodec → List EntryCall → EntryStore × Option Text → EntryStore × Option Text
unfolding step_entries
run_entries codec [] p = p
run_entries codec (call ∷ cs) p = run_entries codec cs (step_entries codec call p)

-- The abstract registry: a function from names, changed at one name.
abbrev pub RegistryOf : Type 0
RegistryOf = Text → Option Entry

abbrev pub changed : EntryCall → RegistryOf → RegistryOf
changed (puts e written) f id = if text_eq e.id id then some e else f id
changed (deletes name written) f id = if text_eq name id then none else f id

unfoldable pub meaning : List EntryCall → RegistryOf → RegistryOf
meaning [] f = f
meaning (call ∷ cs) f = meaning cs (changed call f)

-- What one call does to the entries.
record IsChanged (call : EntryCall) (before after : EntryStore) : Type 0 where
  same_path : after.path ≡ before.path
  keyed : IsKeyed after.entries
  abstract_view : (λ id. get_entry id after) ≡ changed call (λ id. get_entry id before)

step_entries_lem :
    (codec : EntryCodec) (call : EntryCall) (s : EntryStore) (file : Option Text)
    → IsKeyed s.entries
    → IsChanged call s (step_entries codec call (s, file)).0
unfolding step_entries get_entry put_entry delete_entry
step_entries_lem codec (puts e written) s file v = record {
  same_path = refl;
  keyed = put-IsKeyed e s.entries v;
  abstract_view = fun_ext λ id. get-put id e.id e s.entries;
}
step_entries_lem codec (deletes name written) s file v = by_found (get name s.entries)
  where
    by_found :
        (o : Option Entry)
        → IsChanged (deletes name written) s (
            (λ (r : EntryStore × (Option Text × Bool) × Bool). r.0)
              (deleted_as codec written (record s { entries = delete name s.entries }) file o))
    by_found none = record {
      same_path = refl;
      keyed = delete-IsKeyed name s.entries v;
      abstract_view = fun_ext λ id. get-delete id name s.entries;
    }
    by_found (some e) = record {
      same_path = refl;
      keyed = delete-IsKeyed name s.entries v;
      abstract_view = fun_ext λ id. get-delete id name s.entries;
    }

record IsMeant (after : EntryStore) (path : Bool) (f : RegistryOf) : Type 0 where
  same_path : after.path ≡ path
  keyed : IsKeyed after.entries
  abstract_view : (λ id. get_entry id after) ≡ f

run_entries_lem :
    (codec : EntryCodec) (cs : List EntryCall) (s : EntryStore) (file : Option Text)
    → IsKeyed s.entries
    → IsMeant (run_entries codec cs (s, file)).0 s.path (meaning cs (λ id. get_entry id s))
unfolding run_entries meaning
run_entries_lem codec [] s file v = record { same_path = refl; keyed = v; abstract_view = refl }
run_entries_lem codec (call ∷ cs) s file v =
    let step = step_entries_lem codec call s file v in
    let rest =
      run_entries_lem codec cs (step_entries codec call (s, file)).0
        (step_entries codec call (s, file)).1 step.keyed in
    record {
      same_path = rest.same_path ∙ step.same_path;
      keyed = rest.keyed;
      abstract_view = rest.abstract_view ∙ ap (meaning cs) step.abstract_view;
    }

-- Through any calls of `Put` and `Delete` on a new store, whether or not the file is written, the
-- store is the function from names that the same calls make of the empty one: `Put` binds the name
-- of its entry, `Delete` unbinds its name, and no other name changes.
pub get_entry-run_entries :
    (codec : EntryCodec) (cs : List EntryCall) (path : Bool) (file : Option Text)
    → (λ id. get_entry id (run_entries codec cs (new_entries path, file)).0)
      ≡ meaning cs (λ id. none)
unfolding get_entry get
get_entry-run_entries codec cs path file =
    (run_entries_lem codec cs (new_entries path) file (unfold IsKeyed in tt)).abstract_view

-- After any calls of `Put` and `Delete` on a new store with a file, if the codec reads back the
-- list of its entries with the line feed behind it, `Save` succeeds with a text that `Load` of any
-- store with a file turns into the same function from names.
pub load-save_entries :
    (codec : EntryCodec) (cs : List EntryCall) (file : Option Text) (t : EntryStore) (id : Text)
    → let s = (run_entries codec cs (new_entries true, file)).0 in
      codec.decode (codec.encode (list s) ++ 10 ∷ []) ≡ some (list s)
      → t.path ≡ true
      → (f : Text) × (save_entries codec true s file ≡ (some f, true))
        × (get_entry id (load codec (contents f) t).0 ≡ meaning cs (λ name. none) id)
unfolding save_entries load list get_entry
load-save_entries codec cs file t id decodes on =
    let s = (run_entries codec cs (new_entries true, file)).0 in
    let v = run_entries_lem codec cs (new_entries true) file (unfold IsKeyed in tt) in
    let f = codec.encode (list s) ++ 10 ∷ [] in
    let loaded : EntryStore × Bool → Option Entry = λ r. get id r.0.entries in
    (
      f,
      ap (λ (b : Bool). if b then (some f, true) else (file, true)) v.same_path,
      ap (λ (b : Bool). loaded (if b then loaded_as t (codec.decode f) else (t, true))) on
          ∙ ap (λ (o : Option (List Entry)). loaded (loaded_as t o)) decodes
          ∙ get-index_from-list id s.entries v.keyed
          ∙ ap (λ (g : RegistryOf). g id) (get_entry-run_entries codec cs true file),
    )
