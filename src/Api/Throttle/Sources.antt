-- ===== src/Api/Throttle/Sources.antt =====
-- What the throttle keeps of each source: its well-formedness, and when a source is locked.

use wrtdeck.Api.Ip.{v4, v6, IpText, mask64}
use wrtdeck.Api.Throttle.{
  throttle_max_sources, AttemptRecord, LoginThrottle, new_login_throttle, normalize_source,
  allow_source, allow, is_recent, evict_oldest, found_or_new, fail_record, bound_sources,
  fail_source, fail, succeed,
}
use wrtdeck.Prelude.{
  Option-cases, All-put, All-delete, All-keep, length-put, length-delete-le, length-keep-le,
  IsTable, put-IsTable, delete-IsTable, keep-IsTable, drop_oldest-IsTable, length-drop_oldest,
  length, All, Dict, get, delete, keep, Text, nat_key, text_key, codes, oldest_key, drop_oldest, ℕ,
  ◌≤◌, ◌<◌, ◌≡◌, ◌≢◌, ◌⊎◌, inl, inr, List, [], ◌∷◌, ◌++◌, arith,
}

-- Between the calls no source has as many failures as lock it.
pub record IsValid (t : LoginThrottle) : Type 0 where
  pub table : IsTable t.by_ip
  pub bounded : length t.by_ip ≤ throttle_max_sources
  pub positive : 0 < t.max
  pub below : All (λ kv. kv.1.fails < t.max) t.by_ip

pub new_login_throttle-IsValid : (max lock_for : ℕ) → IsValid (new_login_throttle max lock_for)
unfolding new_login_throttle
new_login_throttle-IsValid max lock_for = record {
  table = record { distinct = tt; named = tt };
  bounded = omega arith;
  positive = ground arith;
  below = tt;
}

allow_source_cases :
    (remote : Text) (now : ℕ) (t : LoginThrottle)
    → ((allow_source remote now t).0 ≡ t)
      ⊎ ((allow_source remote now t).0 ≡ record t { by_ip = delete remote t.by_ip })
unfolding allow_source
allow_source_cases remote now t = ground arith

forget-IsValid :
    (remote : Text) (t : LoginThrottle)
    → IsValid t
    → IsValid (record t { by_ip = delete remote t.by_ip })
forget-IsValid remote t v = record {
  table = delete-IsTable remote t.by_ip v.table;
  bounded = omega (arith, v.bounded, length-delete-le remote t.by_ip);
  positive = v.positive;
  below = All-delete (λ kv. kv.1.fails < t.max) remote t.by_ip v.below;
}

pub allow_source-IsValid :
    (remote : Text) (now : ℕ) (t : LoginThrottle)
    → IsValid t
    → IsValid (allow_source remote now t).0
allow_source-IsValid remote now t v = elim (allow_source_cases remote now t) [
  | inl same ↦ rw same v
  | inr less ↦ rw less (forget-IsValid remote t v)
]

pub succeed-IsValid :
    (net : IpText) (remote : Text) (t : LoginThrottle) → IsValid t → IsValid (succeed net remote t)
unfolding succeed
succeed-IsValid net remote t v = forget-IsValid (normalize_source net remote) t v

module _ (now : ℕ) (by_ip : Dict Text AttemptRecord) where
  bound_sources-IsTable : IsTable by_ip → IsTable (bound_sources now by_ip)
  unfolding evict_oldest
  bound_sources-IsTable t =
      let kept_table = keep-IsTable (is_recent now) by_ip t in
      ground (
        arith,
        t,
        kept_table,
        drop_oldest-IsTable (λ r. r.first_fail) (keep (is_recent now) by_ip) kept_table,
      )

  bound_sources-lt :
      IsTable by_ip
      → length by_ip ≤ throttle_max_sources
      → length (bound_sources now by_ip) < throttle_max_sources
  unfolding evict_oldest
  bound_sources-lt t h = ground (
    arith,
    length-keep-le (is_recent now) by_ip,
    length-drop_oldest (λ r. r.first_fail) (keep (is_recent now) by_ip)
        (keep-IsTable (is_recent now) by_ip t),
  )

  bound_sources-All :
      (P : Text × AttemptRecord → Type 0) → All P by_ip → All P (bound_sources now by_ip)
  unfolding evict_oldest drop_oldest
  bound_sources-All P all = ground (
    arith,
    all,
    All-keep P (is_recent now) by_ip all,
    All-delete P (oldest_key (λ r. r.first_fail) [] 0 (keep (is_recent now) by_ip))
        (keep (is_recent now) by_ip),
  )

  pub bound_sources_room : length by_ip < throttle_max_sources → bound_sources now by_ip ≡ by_ip
  bound_sources_room h = ground arith

-- The record and the lock that a failure of the source leads to.
abbrev pub failed : Text → ℕ → LoginThrottle → AttemptRecord × ℕ
failed remote now t =
    fail_record t.max t.lock_for now (found_or_new now (get remote (bound_sources now t.by_ip)))

fail_record-lt :
    (max lock_for now : ℕ) (r : AttemptRecord)
    → 0 < max
    → (fail_record max lock_for now r).0.fails < max
unfolding fail_record
fail_record-lt max lock_for now r h = ground arith

pub fail_source-IsValid :
    (remote : Text) (now : ℕ) (t : LoginThrottle)
    → remote ≢ []
    → IsValid t
    → IsValid (fail_source remote now t).0
unfolding fail_source
fail_source-IsValid remote now t named v = record {
  table = put-IsTable remote _ _ named (bound_sources-IsTable now t.by_ip v.table);
  bounded = ground (
    arith,
    bound_sources-lt now t.by_ip v.table v.bounded,
    length-put remote (failed remote now t).0 (bound_sources now t.by_ip),
  );
  positive = v.positive;
  below =
      All-put (λ kv. kv.1.fails < t.max) remote (failed remote now t).0 (bound_sources now t.by_ip)
        (fail_record-lt t.max t.lock_for now _ v.positive)
        (bound_sources-All now t.by_ip (λ kv. kv.1.fails < t.max) v.below);
}

append-ne-nil : (s t : Text) → t ≢ [] → s ++ t ≢ []
append-ne-nil [] t h = h
append-ne-nil (a ∷ s) t h = λ e. cc

-- The key of a source is never empty.
pub normalize_source-ne-nil :
    (net : IpText) (remote : Text) → remote ≢ [] → normalize_source net remote ≢ []
unfolding normalize_source
normalize_source-ne-nil net remote h = elim (Option-cases (net.parse remote)) [
  | inl missing ↦ rw (missing, normalize_source) h
  | inr (v4 n, found) ↦ rw (found, normalize_source) (net.show_named (v4 n))
  | inr (v6 n, found) ↦
      rw (found, normalize_source)
        (append-ne-nil (net.show (v6 (mask64 n))) (codes "/64") (λ e. cc))
]

-- The calls of a server on its throttle.
pub data Call : Type 0 where
  allowed : Text → ℕ → Call
  failed_at : Text → ℕ → Call
  succeeded : Text → Call

unfoldable pub apply : IpText → Call → LoginThrottle → LoginThrottle
apply net (allowed remote now) t = (allow net remote now t).0
apply net (failed_at remote now) t = (fail net remote now t).0
apply net (succeeded remote) t = succeed net remote t

abbrev pub Named : Call → Type 0
Named (failed_at remote now) = remote ≢ []
Named _ = Unit

apply-IsValid :
    (net : IpText) (call : Call) (t : LoginThrottle)
    → Named call
    → IsValid t
    → IsValid (apply net call t)
unfolding apply allow fail
apply-IsValid net (allowed remote now) t named v =
    allow_source-IsValid (normalize_source net remote) now t v
apply-IsValid net (failed_at remote now) t named v =
    fail_source-IsValid (normalize_source net remote) now t
      (normalize_source-ne-nil net remote named) v
apply-IsValid net (succeeded remote) t named v = succeed-IsValid net remote t v

unfoldable pub run_logins : IpText → List Call → LoginThrottle → LoginThrottle
run_logins net [] t = t
run_logins net (call ∷ calls) t = run_logins net calls (apply net call t)

-- Through any sequence of calls that name a source, a well-formed throttle keeps its keys distinct
-- and not empty, holds at most 1024 sources, and no source has as many failures as lock it.
pub run_logins-IsValid :
    (net : IpText) (calls : List Call) (t : LoginThrottle)
    → All Named calls
    → IsValid t
    → IsValid (run_logins net calls t)
unfolding run_logins
run_logins-IsValid net [] t named v = v
run_logins-IsValid net (call ∷ calls) t (here, named) v =
    run_logins-IsValid net calls (apply net call t) named (apply-IsValid net call t here v)
