-- ===== src/Api/Panel/Put.antt =====
-- What the answer to a new entry means.

use mathlib.Core.Path.{fun_ext}
use wrtdeck.Prelude.{
  if◌then◌else◌, get-put, put, Text, text_eq, nat_key, text_key, codes, ℕ, ◌≡◌, refl, ap, ◌∙◌, Bool,
  true, false, ◌&&◌, Option, some,
}
use wrtdeck.Registry.Model.{kind_source, Entry}
use wrtdeck.Registry.Problem.{Checked, ok, err}
use wrtdeck.Registry.Validate.{validate}
use wrtdeck.Registry.Validate.Accepted.{IsAccepted, validate-IsAccepted}
use wrtdeck.Registry.Store.{EntryStore, EntryCodec, save_entries, get_entry, put_entry}
use wrtdeck.Api.Panel.{
  Panel, PanelWorld, PanelReply, kind_changed, store_failed, invalid_entry, stored, Replied,
  reply_with, has_other_kind, put_as, put_checked, handle_registry_put,
}
use wrtdeck.Api.Panel.Synced.{IsPanel, IsInLine, after_registry_change-IsSynced}

-- The registry as a function from names, with one name changed.
abbrev pub view : Panel → Text → Option Entry
view p id = get_entry id p.store

abbrev pub bound : Text → Option Entry → (Text → Option Entry) → Text → Option Entry
bound name o f id = if text_eq name id then o else f id

-- What the answer to a change of an entry means.
abbrev pub PutMeans : PanelWorld → Entry → Panel → Panel → PanelReply → Type 0
PutMeans world given p after (stored e refreshes) =
    IsAccepted world.compiles world.urls e given
    × (view after ≡ bound e.id (some e) (view p))
    × IsInLine world after
PutMeans world given p after store_failed =
    (e : Entry) × IsAccepted world.compiles world.urls e given
    × (view after ≡ bound e.id (some e) (view p))
    × (after.sched ≡ p.sched)
    × (world.written ≡ false)
PutMeans world given p after (invalid_entry e) = after ≡ p
PutMeans world given p after kind_changed = after ≡ p
PutMeans world given p after _ = ⊥

-- A handler that answers, with a panel at work.
pub record IsAnswered (o : Replied) (means : Panel → PanelReply → Type 0) : Type 0 where
  pub after : Panel
  pub reply : PanelReply
  pub done : o ≡ some (after, reply)
  pub panel : IsPanel after
  pub meaning : means after reply

pub same_answer :
    (p : Panel) (reply : PanelReply) (means : Panel → PanelReply → Type 0)
    → IsPanel p
    → means p reply
    → IsAnswered (some (p, reply)) means
same_answer p reply means v m = record {
  after = p;
  reply = reply;
  done = refl;
  panel = v;
  meaning = m;
}

-- Only a failure of the file system is an error of `Save`.
pub unwritten :
    (codec : EntryCodec) (written : Bool) (s : EntryStore) (file : Option Text)
    → (save_entries codec written s file).1 ≡ false
    → written ≡ false
unfolding save_entries
unwritten codec false s file h = refl
unwritten codec true s file h = by_path s.path _ h
  where
    by_path :
        (b : Bool) (content : Option Text)
        → (λ (r : Option Text × Bool). r.1) (if b then (content, true) else (file, true)) ≡ false
        → true ≡ false
    by_path true content e = e
    by_path false content e = e

-- The handler of a new entry, whose body is read, answers without a panic and leaves the panel at
-- work: where it stores the entry, that was accepted under the name of the path, the registry has
-- it under its name and no other change, and the jobs are in line; where the file is not written,
-- which only a failure of the file system causes, the registry has it all the same, but the jobs
-- are as before; where the entry is refused, nothing has changed.
pub handle_registry_put-IsAnswered :
    (world : PanelWorld) (now : ℕ) (id : Text) (body : Entry) (p : Panel)
    → IsPanel p
    → IsAnswered
        (handle_registry_put world now id (some body) p)
        (PutMeans world (record body { id = id }) p)
unfolding handle_registry_put put_entry get_entry
handle_registry_put-IsAnswered world now id body p v =
    by_check (validate world.compiles world.urls (some given)) refl
  where
    given : Entry
    given = record body { id = id }

    put_entries : Entry → EntryStore
    put_entries e = record p.store { entries = put e.id e p.store.entries }

    placed : Entry → Option Text → Panel
    placed e file = record p { store = put_entries e; file = file }

    at_work : (e : Entry) (file : Option Text) → IsPanel (placed e file)
    at_work e file = record {
      hub_valid = v.hub_valid;
      scheduled = v.scheduled;
      started = v.started;
    }

    shows : (e : Entry) (file : Option Text) → view (placed e file) ≡ bound e.id (some e) (view p)
    shows e file = fun_ext λ j. get-put j e.id e p.store.entries

    by_save :
        (e : Entry) (file : Option Text) (saved : Bool)
        → (saved ≡ false → world.written ≡ false)
        → IsAccepted world.compiles world.urls e given
        → IsAnswered (put_as world now e p (put_entries e, file, saved)) (PutMeans world given p)
    by_save e file false unsaved accepts =
        same_answer (placed e file) store_failed _ (at_work e file)
          (e, accepts, shows e file, refl, unsaved refl)
    by_save e file true unsaved accepts =
        let reply = stored e (text_eq e.kind kind_source && e.enabled) in
        let s =
          after_registry_change-IsSynced world now e.id (codes "upsert") (placed e file)
            (at_work e file) in
        record {
          after = s.after;
          reply = reply;
          done = ap (reply_with reply) s.done;
          panel = s.panel;
          meaning = (
            accepts,
            ap (λ (t : EntryStore). λ j. get_entry j t) s.same_store ∙ shows e file,
            s.in_line,
          );
        }

    by_kind :
        (e : Entry) (b : Bool)
        → IsAccepted world.compiles world.urls e given
        → IsAnswered
            (if b
              then some (p, kind_changed)
              else put_as world now e p (put_entry world.codec world.written e p.store p.file))
            (PutMeans world given p)
    by_kind e true accepts = same_answer p kind_changed _ v refl
    by_kind e false accepts =
        let r = save_entries world.codec world.written (put_entries e) p.file in
        by_save e r.0 r.1 (unwritten world.codec world.written (put_entries e) p.file) accepts

    by_check :
        (c : Checked Entry)
        → validate world.compiles world.urls (some given) ≡ c
        → IsAnswered (put_checked world now id p c) (PutMeans world given p)
    by_check (err e) h = same_answer p (invalid_entry e) _ v refl
    by_check (ok e) h =
        by_kind e (has_other_kind e.kind (get_entry id p.store))
          (validate-IsAccepted world.compiles world.urls given e h)
