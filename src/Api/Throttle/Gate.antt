-- ===== src/Api/Throttle/Gate.antt =====
-- The global gate, which counts the failures of all sources.

use wrtdeck.Api.Throttle.{
  throttle_global_window, throttle_global_fails, throttle_global_lock, GlobalRecord, LoginThrottle,
  allow_source, count_global, fail_source,
}
use wrtdeck.Prelude.{
  length, All, Text, nat_key, text_key, ℕ, suc, ◌+◌, ◌≤◌, ◌<◌, ◌≡◌, refl, ap, ◌∙◌, false, List, [],
  ◌∷◌, arith,
}

-- Failures of any sources at any times, in their order.
unfoldable pub fail_each : List (Text × ℕ) → LoginThrottle → LoginThrottle
fail_each [] t = t
fail_each ((remote, now) ∷ rest) t = fail_each rest (fail_source remote now t).0

abbrev pub last_time : ℕ → List (Text × ℕ) → ℕ
last_time now [] = now
last_time now ((remote, next) ∷ rest) = last_time next rest

global-fail_source :
    (remote : Text) (now : ℕ) (t : LoginThrottle)
    → (fail_source remote now t).0.global ≡ count_global now t.global
unfolding fail_source
global-fail_source remote now t = refl

count_each : List (Text × ℕ) → GlobalRecord → GlobalRecord
count_each [] g = g
count_each ((remote, now) ∷ rest) g = count_each rest (count_global now g)

global-fail_each :
    (fails : List (Text × ℕ)) (t : LoginThrottle)
    → (fail_each fails t).global ≡ count_each fails t.global
unfolding fail_each count_each
global-fail_each [] t = refl
global-fail_each ((remote, now) ∷ rest) t =
    global-fail_each rest (fail_source remote now t).0
    ∙ ap (count_each rest) (global-fail_source remote now t)

count_each_step :
    (r : Text) (now : ℕ) (rest : List (Text × ℕ)) (g h : GlobalRecord)
    → count_global now g ≡ h
    → count_each ((r, now) ∷ rest) g ≡ count_each rest h
unfolding count_each
count_each_step r now rest g h e = ap (count_each rest) e

-- The failures that are left to the limit close the gate at the last of them.
count_each_closes :
    (remote : Text) (now : ℕ) (rest : List (Text × ℕ)) (g : GlobalRecord)
    → now ≤ g.first_fail + throttle_global_window
    → All (λ f. f.1 ≤ g.first_fail + throttle_global_window) rest
    → g.fails + suc (length rest) ≡ throttle_global_fails
    → (count_each ((remote, now) ∷ rest) g).until ≡ last_time now rest + throttle_global_lock
unfolding count_each count_global
count_each_closes remote now [] g recent all count = ground arith
count_each_closes remote now ((r, next) ∷ rest) g recent (soon, all) count =
    let counted : count_global now g ≡ record g { fails = g.fails + 1 } = ground arith in
    let g' : GlobalRecord = record g { fails = g.fails + 1 } in
    ap (λ h. h.until) (count_each_step remote now ((r, next) ∷ rest) g g' counted)
    ∙ count_each_closes r next rest g' soon all (omega arith)

opens :
    (now : ℕ) (g : GlobalRecord)
    → g.first_fail + throttle_global_window < now
    → count_global now g ≡ record g { fails = 1; first_fail = now }
unfolding count_global
opens now g h = ground arith

allow_source_closed :
    (remote : Text) (now : ℕ) (t : LoginThrottle)
    → now < t.global.until
    → (allow_source remote now t).1 ≡ false
unfolding allow_source
allow_source_closed remote now t early = ground arith

-- Fifty failures within one minute of the first, of whatever sources, where the last count began
-- more than a minute before: for one minute from the last of them every source is refused.
pub allow_source-fail_each :
    (remote source : Text) (first later : ℕ) (r : Text) (next : ℕ) (rest : List (Text × ℕ))
    (t : LoginThrottle)
    → t.global.first_fail + throttle_global_window < first
    → All (λ f. f.1 ≤ first + throttle_global_window) ((r, next) ∷ rest)
    → length ((source, first) ∷ (r, next) ∷ rest) ≡ throttle_global_fails
    → later < last_time next rest + throttle_global_lock
    → (allow_source remote later (fail_each ((source, first) ∷ (r, next) ∷ rest) t)).1 ≡ false
allow_source-fail_each remote source first later r next rest t quiet (soon, all) count early =
    let g : GlobalRecord = record t.global { fails = 1; first_fail = first } in
    let closed =
      ap (λ h. h.until)
        (global-fail_each ((source, first) ∷ (r, next) ∷ rest) t
          ∙ count_each_step source first ((r, next) ∷ rest) t.global g (opens first t.global quiet))
      ∙ count_each_closes r next rest g soon all (omega arith) in
    allow_source_closed remote later _ (omega arith)
