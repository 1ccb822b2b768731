-- ===== src/Api/Sessions/Tests.antt =====
-- Runs of the session table, and the theorems at concrete inputs.

use wrtdeck.Api.Sessions.{
  Session, SessionStore, new_session_store, prune, drop_oldest_session, issue, match_key, missing,
  hit, lookup,
}
use wrtdeck.Api.Sessions.Invariant.{IsValid, Call, issued, apply, run_sessions}
use wrtdeck.Api.Sessions.Lifetime.{answer_of, lookup_lem}
use wrtdeck.Prelude.{
  get, put, keep, nat_key, text_key, codes, ◌≡◌, refl, some, List, [], ◌∷◌, arith,
}

abbrev calls : List Call
calls =
    issued 10 (some (codes "tok-a")) (codes "10.0.0.2")
    ∷ issued 20 (some (codes "tok-b")) (codes "10.0.0.3")
    ∷ []

abbrev item_a : Session
item_a = record { token = codes "tok-a"; created = 10; expires = 110; remote = codes "10.0.0.2" }

abbrev item_b : Session
item_b = record { token = codes "tok-b"; created = 20; expires = 120; remote = codes "10.0.0.3" }

abbrev two : SessionStore
two = record { items = (codes "tok-a", item_a) ∷ (codes "tok-b", item_b) ∷ []; ttl = 100 }

run_two : run_sessions calls (new_session_store 100) ≡ two
unfolding run_sessions apply new_session_store issue prune drop_oldest_session keep put
run_two = refl

lookup-two :
    (lookup 115 (codes "tok-b") two
      ≡ (record two { items = (codes "tok-b", item_b) ∷ [] }, hit item_b))
    × ((lookup 115 (codes "tok-a") two).1 ≡ missing)
unfolding lookup match_key prune keep get
lookup-two = (refl, refl)

two-IsValid : IsValid two
unfolding get
two-IsValid = record {
  table = record { distinct = (refl, (refl, tt)); named = ((λ e. cc), ((λ e. cc), tt)) };
  bounded = omega arith;
}

lookup_lem_example :
    (lookup 50 (codes "tok-b") two).1 ≡ answer_of 50 (get (codes "tok-b") two.items)
lookup_lem_example = lookup_lem 50 (codes "tok-b") two two-IsValid
