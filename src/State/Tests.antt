-- ===== src/State/Tests.antt =====
-- Runs of the stores, and the theorems at concrete inputs.

use wrtdeck.Prelude.{
  get, put, delete, Text, nat_key, text_key, codes, pos, ℕ, min, ◌≡◌, refl, some, List, [], ◌∷◌,
  arith,
}
use wrtdeck.State.History.{last, new_history, append, get_samples, delete_samples}
use wrtdeck.State.History.Window.{Op, appended, deleted, run_ops, log, get_samples-run_ops}
use wrtdeck.State.Store.{okay, SourceState}

abbrev cpu : Text
cpu = codes "cpu"

abbrev ops : List (Op ℕ)
ops =
    appended cpu 4
    ∷ appended (codes "mem") 9
    ∷ appended cpu 3
    ∷ appended cpu 2
    ∷ deleted cpu
    ∷ appended cpu 1
    ∷ []

run_ops_two : get_samples cpu (pos 0) (run_ops ops (new_history (pos 2))) ≡ 3 ∷ 4 ∷ []
unfolding run_ops append get_samples delete_samples new_history put get delete
run_ops_two = refl

get_samples-run_ops_example :
    get_samples cpu (pos 1) (run_ops ops (new_history (pos 2))) ≡ last (min 1 2) (log cpu ops)
get_samples-run_ops_example = get_samples-run_ops 2 (pos 1) cpu ops (omega arith) (λ h. cc)

abbrev fine : SourceState ℕ
fine = record {
  id = cpu;
  status = okay;
  value = some 3;
  text = [];
  updated_at = 5;
  latency_ms = 1;
  error = [];
  detail = [];
}
