-- ===== src/Engine/Scheduler/Polled.antt =====
-- The sources that a synchronisation wants, and the jobs after it.
use wrtdeck.Prelude.{
  if◌then◌else◌, get-put, Dict, get, put, values, Text, text_eq, text_eq_iff, nat_key, text_key,
  sort_by, codes, trim_space, ◌≡◌, refl, sym, ap, ◌∙◌, Bool, true, false, not, ◌&&◌, Option, none,
  some, List, [], ◌∷◌,
}
use wrtdeck.Registry.Model.{
  kind_source, MqttSpec, is_blank, effective_mode, is_subscribe, Entry, subscribes,
}
use wrtdeck.Registry.Store.{EntryStore, entry_less, of_kind, list_by_kind, get_entry}
use wrtdeck.Registry.Store.Lookup.{find_id, IsKeyed, get-values}
use wrtdeck.Registry.Store.Named.{
  IsNamed, values-IsNamed, find_id-sort_entries, sort_entries-IsNamed, first_of,
}
use wrtdeck.Engine.Scheduler.{Scheduler, wanted_from, wanted, sync_jobs}
use wrtdeck.Engine.Scheduler.Slots.{IsScheduled}
use wrtdeck.Engine.Scheduler.Wanted.{mark_of_job, mark_of, mark-sync_jobs}

abbrev pub mode_of : Option MqttSpec → Text
mode_of none = []
mode_of (some spec) = spec.mode

-- A source that is enabled and that does not take its values from the messages of a broker.
abbrev pub is_polled : Entry → Bool
is_polled e =
    text_eq e.kind (codes "source")
    && (e.enabled
        && not (
            text_eq e.transport.type (codes "mqtt")
            && text_eq (mode_of e.transport.mqtt) (codes "subscribe")))

abbrev pub only : (Entry → Bool) → Option Entry → Option Entry
only test none = none
only test (some e) = if test e then some e else none

polls : Entry → Bool
polls e = e.enabled && not (subscribes e)

find_id-of_kind :
    (id kind : Text) (es : List Entry)
    → IsNamed es
    → find_id id (of_kind kind es) ≡ only (λ e. text_eq e.kind kind) (find_id id es)
unfolding of_kind IsNamed find_id
find_id-of_kind id kind [] v = refl
find_id-of_kind id kind (e ∷ es) (fresh, v) =
    by_tests (text_eq e.kind kind) (text_eq e.id id) refl refl (find_id-of_kind id kind es v)
  where
    by_tests :
        (a b : Bool)
        → text_eq e.kind kind ≡ a
        → text_eq e.id id ≡ b
        → find_id id (of_kind kind es) ≡ only (λ d. text_eq d.kind kind) (find_id id es)
        → find_id id (if a then e ∷ of_kind kind es else of_kind kind es)
          ≡ only (λ d. text_eq d.kind kind) (if b then some e else find_id id es)
    by_tests true true ea eb later =
        ap (λ (b : Bool). if b then some e else find_id id (of_kind kind es)) eb
        ∙ sym (ap (λ (a : Bool). if a then some e else none) ea)
    by_tests true false ea eb later =
        ap (λ (b : Bool). if b then some e else find_id id (of_kind kind es)) eb ∙ later
    by_tests false true ea eb later =
        later
        ∙ ap (λ (t : Text). only (λ d. text_eq d.kind kind) (find_id t es))
            (sym ((text_eq_iff e.id id).0 eb))
        ∙ ap (only (λ d. text_eq d.kind kind)) fresh
        ∙ sym (ap (λ (a : Bool). if a then some e else none) ea)
    by_tests false false ea eb later = later

of_kind-IsNamed : (kind : Text) (es : List Entry) → IsNamed es → IsNamed (of_kind kind es)
unfolding of_kind IsNamed
of_kind-IsNamed kind [] v = tt
of_kind-IsNamed kind (e ∷ es) (fresh, v) = by_kind (text_eq e.kind kind) (of_kind-IsNamed kind es v)
  where
    by_kind :
        (a : Bool)
        → IsNamed (of_kind kind es)
        → IsNamed (if a then e ∷ of_kind kind es else of_kind kind es)
    by_kind false named = named
    by_kind true named =
        (find_id-of_kind e.id kind es v ∙ ap (only (λ d. text_eq d.kind kind)) fresh, named)

get-wanted_from :
    (id : Text) (es : List Entry) (m : Dict Text Entry)
    → IsNamed es
    → get id (wanted_from es m) ≡ first_of (only polls (find_id id es)) (get id m)
unfolding wanted_from find_id IsNamed polls
get-wanted_from id [] m v = refl
get-wanted_from id (e ∷ es) m (fresh, v) =
    get-wanted_from id es (if polls e then put e.id e m else m) v
    ∙ by_tests (polls e) (text_eq e.id id) refl refl
  where
    by_tests :
        (a b : Bool)
        → polls e ≡ a
        → text_eq e.id id ≡ b
        → first_of (only polls (find_id id es)) (get id (if a then put e.id e m else m))
          ≡ first_of (only polls (if b then some e else find_id id es)) (get id m)
    by_tests a false ea eb = ap (first_of (only polls (find_id id es))) (unmoved a)
      where
        unmoved : (a : Bool) → get id (if a then put e.id e m else m) ≡ get id m
        unmoved false = refl
        unmoved true = get-put id e.id e m ∙ ap (λ (b : Bool). if b then some e else get id m) eb
    by_tests a true ea eb =
        ap (λ (o : Option Entry). first_of (only polls o) (get id (if a then put e.id e m else m)))
          (ap (λ (t : Text). find_id t es) (sym ((text_eq_iff e.id id).0 eb)) ∙ fresh)
        ∙ moved a
        ∙ sym (ap (λ (b : Bool). first_of (if b then some e else none) (get id m)) ea)
      where
        moved :
            (a : Bool)
            → get id (if a then put e.id e m else m)
              ≡ first_of (if a then some e else none) (get id m)
        moved false = refl
        moved true = get-put id e.id e m ∙ ap (λ (b : Bool). if b then some e else get id m) eb

subscribe_mode : (o : Option MqttSpec) → text_eq (mode_of o) (codes "subscribe") ≡ is_subscribe o
unfolding is_subscribe effective_mode trim_space
subscribe_mode none = refl
subscribe_mode (some spec) =
    by_blank (is_blank spec.mode) (text_eq spec.mode (codes "subscribe")) refl refl
  where
    by_blank :
        (a b : Bool)
        → is_blank spec.mode ≡ a
        → text_eq spec.mode (codes "subscribe") ≡ b
        → b ≡ text_eq (if a then codes "publish" else spec.mode) (codes "subscribe")
    by_blank true false ea eb = refl
    by_blank false b ea eb = sym eb
    by_blank true true ea eb =
        let shown : is_blank (codes "subscribe") ≡ true =
          ap is_blank (sym ((text_eq_iff spec.mode (codes "subscribe")).0 eb)) ∙ ea in
        cc

both_tests :
    (o : Option Entry)
    → first_of (only polls (only (λ e. text_eq e.kind kind_source) o)) none ≡ only is_polled o
unfolding polls subscribes is_subscribe
both_tests none = refl
both_tests (some e) =
    by_kind (text_eq e.kind kind_source)
    ∙ ap
        (λ (b : Bool).
          if text_eq e.kind kind_source
            && (e.enabled && not (text_eq e.transport.type (codes "mqtt") && b))
          then some e
          else none)
        (sym (subscribe_mode e.transport.mqtt))
  where
    by_kind :
        (a : Bool)
        → first_of (only polls (if a then some e else none)) none
          ≡ (if a && polls e then some e else none)
    by_kind false = refl
    by_kind true = by_polls (polls e)
      where
        by_polls :
            (b : Bool) → first_of (if b then some e else none) none ≡ (if b then some e else none)
        by_polls false = refl
        by_polls true = refl

-- The entries that are wanted.
get-wanted :
    (id : Text) (store : EntryStore)
    → IsKeyed store.entries
    → get id (wanted store) ≡ only is_polled (get_entry id store)
unfolding wanted list_by_kind get_entry get
get-wanted id store keyed =
    let named = values-IsNamed store.entries keyed in
    let sorted = sort_entries-IsNamed (values store.entries) named in
    let es = sort_by entry_less (values store.entries) in
    get-wanted_from id (of_kind kind_source es) [] (of_kind-IsNamed kind_source es sorted)
    ∙ ap (λ (o : Option Entry). first_of (only polls o) none)
        (find_id-of_kind id kind_source es sorted
          ∙ ap (only (λ e. text_eq e.kind kind_source)) (
              find_id-sort_entries id (values store.entries) named
              ∙ get-values id store.entries keyed))
    ∙ both_tests (get id store.entries)

-- After `Sync` of a scheduler that was started and is well-formed, with a registry that has each
-- entry under its own name, there is a job under a name exactly where the entry of that name is an
-- enabled source that does not subscribe by MQTT, and it is the job of that entry with its present
-- fingerprint.
pub sync_jobs_lem :
    (fingerprint : Entry → Text) (id : Text) (store : EntryStore) (s : Scheduler)
    → IsKeyed store.entries
    → IsScheduled s
    → s.is_started ≡ true
    → mark_of_job fingerprint (get id (sync_jobs fingerprint store s).jobs)
      ≡ mark_of fingerprint (only is_polled (get_entry id store))
sync_jobs_lem fingerprint id store s keyed v on =
    mark-sync_jobs fingerprint id store s v on
    ∙ ap (mark_of fingerprint) (get-wanted id store keyed)
