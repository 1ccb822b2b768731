-- ===== src/State/Store/Marks.antt =====
-- What the two marks make of a state, and that they leave the others.
use wrtdeck.Prelude.{
  if◌then◌else◌, Option-cases, get-put, get, Text, text_eq, text_eq_iff, nat_key, text_key, ◌≡◌,
  inl, inr, arith,
}
use wrtdeck.State.Store.{Store, get_state, as_stale, as_stale_found, mark_stale}

module _ {ℓ} {A : Type ℓ} (id : Text) (items : Store A) where
  -- The mark of staleness takes a state that is `ok` to `stale` and leaves any other, never makes a
  -- state where there is none, and leaves every other source.
  pub mark_stale_lem :
      (j : Text)
      → get_state j (mark_stale id items).0
        ≡ (if text_eq id j then as_stale_found (get_state j items) else get_state j items)
  unfolding get_state mark_stale
  mark_stale_lem j = elim (Option-cases (get id items)) [
    | inl e ↦ rw e (ground (arith, text_eq_iff id j))
    | inr (st, e) ↦ rw e (ground (arith, text_eq_iff id j, get-put j id (as_stale st) items))
  ]
