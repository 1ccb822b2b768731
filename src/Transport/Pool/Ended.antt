-- ===== src/Transport/Pool/Ended.antt =====
-- The connections of a pool that are taken from the map and shut down.

use wrtdeck.Prelude.{
  ◌==◌, if◌then◌else◌, ==_iff, Bool-cases, get-delete, Dict, get, delete, values, Text, text_eq,
  text_eq_iff, nat_key, text_key, ℕ, ◌≤◌, ◌≡◌, refl, sym, ap, ◌∙◌, inl, inr, Bool, true, false,
  ◌||◌, Option, none, some, List, [], ◌∷◌, ◌++◌, arith,
}
use wrtdeck.Transport.Pool.{
  Conn, Pool, at_conn, shutdown, forget, is_among, without_one, forget_found, forget_idle, end_conn,
  close_pool,
}
use wrtdeck.Transport.Pool.Runs.{none-some, IsPool, mapped, get-at_conn}
use wrtdeck.Transport.Pool.Dialled.{some_inj, if_none}

is_among-delete :
    (m : ℕ) (key : Text) (conns : Dict Text ℕ)
    → is_among m (values conns) ≡ false
    → is_among m (values (delete key conns)) ≡ false
unfolding is_among delete values
is_among-delete m key [] h = refl
is_among-delete m key ((k, j) ∷ conns) h = ground (arith, is_among-delete m key conns)

is_among-without_one :
    (m n : ℕ) (ns : List ℕ) → is_among m ns ≡ false → is_among m (without_one n ns) ≡ false
unfolding is_among without_one
is_among-without_one m n [] h = refl
is_among-without_one m n (j ∷ ns) h = ground (arith, is_among-without_one m n ns)

is_among-++ :
    (m : ℕ) (ns js : List ℕ)
    → is_among m ns ≡ false
    → is_among m js ≡ false
    → is_among m (ns ++ js) ≡ false
unfolding is_among
is_among-++ m [] js h i = i
is_among-++ m (n ∷ ns) js h i = ground (arith, is_among-++ m ns js)

-- A connection that is found idle is taken from the map.
module _ (n : ℕ) (c : Conn) (p : Pool) (at : get n p.heap ≡ some c) (v : IsPool p) where
  bound_before :
      (key : Text) (m : ℕ)
      → get key (delete c.key p.conns) ≡ some m
      → (text_eq c.key key ≡ false) × (get key p.conns ≡ some m)
  bound_before key m h = by_key (text_eq c.key key) refl (sym (get-delete key c.key p.conns) ∙ h)
    where
      by_key :
          (b : Bool)
          → text_eq c.key key ≡ b
          → (if b then none else get key p.conns) ≡ some m
          → (text_eq c.key key ≡ false) × (get key p.conns ≡ some m)
      by_key true e bound = absurd (none-some bound)
      by_key false e bound = (e, bound)

  -- Another key is bound to another connection.
  other_conn :
      (key : Text) (m : ℕ) → get key p.conns ≡ some m → text_eq c.key key ≡ false → (n == m) ≡ false
  other_conn key m bound apart = elim (Bool-cases (n == m)) [
    | inr other ↦ other
    | inl same ↦
        let (e, found, k, o) = v.held key m bound in
        let one : c ≡ e =
          some_inj (sym at ∙ ap (λ (j : ℕ). get j p.heap) ((==_iff n m).0 same) ∙ found) in
        let named = (text_eq_iff c.key key).1 (ap (λ (x : Conn). x.key) one ∙ k) in cc
  ]

  old_conn : (m : ℕ) → p.next_conn ≤ m → (n == m) ≡ false
  old_conn m h = elim (Bool-cases (n == m)) [
    | inr other ↦ other
    | inl same ↦ absurd (
        none-some
          (sym (v.fresh m h) ∙ ap (λ (j : ℕ). get j p.heap) (sym ((==_iff n m).0 same)) ∙ at))
  ]

  pub forget_found-IsPool : IsPool (forget_found n p (some c))
  unfolding forget is_among
  forget_found-IsPool = record {
    held = λ key m h. v.held key m (bound_before key m h).1;
    away = λ key m h.
        let (apart, bound) = bound_before key m h in
        ap (λ (b : Bool). b || is_among m p.ending) (other_conn key m bound apart)
        ∙ v.away key m bound;
    unbound = λ m h. is_among-delete m c.key p.conns (v.unbound m h);
    unended = λ m h. ap (λ (b : Bool). b || is_among m p.ending) (old_conn m h) ∙ v.unended m h;
    fresh = v.fresh;
  }

pub forget_idle-IsPool : (n : ℕ) (p : Pool) → IsPool p → IsPool (forget_idle n p)
unfolding forget_idle
forget_idle-IsPool n p v = by_test (is_among n p.checked)
  where
    by_conn : (o : Option Conn) → get n p.heap ≡ o → IsPool (forget_found n p o)
    by_conn none at = v
    by_conn (some c) at = forget_found-IsPool n c p at v

    by_test : (b : Bool) → IsPool (if b then forget_found n p (get n p.heap) else p)
    by_test true = by_conn (get n p.heap) refl
    by_test false = v

-- A connection that is shut down is not in the map.
pub end_conn-IsPool : (n : ℕ) (p : Pool) → IsPool p → IsPool (end_conn n p)
unfolding end_conn
end_conn-IsPool n p v = by_test (is_among n p.ending) refl
  where
    apart : (m : ℕ) → is_among n p.ending ≡ true → is_among m p.ending ≡ false → (n == m) ≡ false
    apart m here there = elim (Bool-cases (n == m)) [
      | inr other ↦ other
      | inl same ↦
          let clash : false ≡ true =
            sym there ∙ ap (λ (j : ℕ). is_among j p.ending) (sym ((==_iff n m).0 same)) ∙ here in
          cc
    ]

    by_test :
        (b : Bool)
        → is_among n p.ending ≡ b
        → IsPool
            (if b then record (at_conn shutdown n p) { ending = without_one n p.ending } else p)
    by_test false e = v
    by_test true e = record {
      held = λ key m h.
          let (c, found, same, o) = v.held key m h in
          (
            c,
            get-at_conn shutdown n m p
                ∙ ap (λ (b : Bool). if b then mapped shutdown (get m p.heap) else get m p.heap)
                    (apart m e (v.away key m h))
                ∙ found,
            same,
            o,
          );
      away = λ key m h. is_among-without_one m n p.ending (v.away key m h);
      unbound = v.unbound;
      unended = λ m h. is_among-without_one m n p.ending (v.unended m h);
      fresh = λ m h.
          get-at_conn shutdown n m p
          ∙ ap (λ (x : Option Conn). if n == m then mapped shutdown x else x) (v.fresh m h)
          ∙ if_none shutdown (n == m);
    }

pub close_pool-IsPool : (p : Pool) → IsPool p → IsPool (close_pool p)
unfolding close_pool get is_among values
close_pool-IsPool p v = record {
  held = λ key n h. absurd (none-some h);
  away = λ key n h. absurd (none-some h);
  unbound = λ n h. refl;
  unended = λ n h. is_among-++ n (values p.conns) p.ending (v.unbound n h) (v.unended n h);
  fresh = v.fresh;
}
