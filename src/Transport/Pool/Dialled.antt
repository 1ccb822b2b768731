-- ===== src/Transport/Pool/Dialled.antt =====
-- A change of one connection, and a new connection.

use wrtdeck.Registry.Model.{MqttSpec}
use wrtdeck.Prelude.{
  ◌==◌, if◌then◌else◌, ==_iff, Bool-cases, get-put, Dict, get, put, values, Text, text_eq,
  text_eq_iff, nat_key, text_key, ℕ, ◌<◌, ◌≡◌, refl, sym, ap, ◌∙◌, inl, inr, Bool, true, false,
  Option, none, some, [], ◌∷◌, arith,
}
use wrtdeck.Transport.Pool.{Conn, Pool, new_conn, at_conn, dial, is_among}
use wrtdeck.Transport.Pool.Runs.{none-some, IsPool, IsTame, mapped, get-at_conn}

pub some_inj {ℓ} : {A : Type ℓ} {a b : A} → some a ≡ some b → a ≡ b
some_inj h = cc

ltb_ne : (a b : ℕ) → a < b → (a == b) ≡ false
ltb_ne a b h = ground arith

is_among-put :
    (m n : ℕ) (key : Text) (conns : Dict Text ℕ)
    → (n == m) ≡ false
    → is_among m (values conns) ≡ false
    → is_among m (values (put key n conns)) ≡ false
unfolding is_among put values
is_among-put m n key [] apart h = ground arith
is_among-put m n key ((k, j) ∷ conns) apart h = ground (arith, is_among-put m n key conns apart)

pub if_none : (f : Conn → Conn) (b : Bool) → (if b then mapped f none else none) ≡ none
if_none f true = refl
if_none f false = refl

-- A test of two numbers in front of a tame change.
IsTame-if : (f : Conn → Conn) (b : Bool) → IsTame f → IsTame (λ c. if b then f c else c)
IsTame-if f true v = v
IsTame-if f false v = record { same_key = λ c. refl; same_closed = λ c. refl }

pub at_conn-IsPool :
    (f : Conn → Conn) (n : ℕ) (p : Pool) → IsTame f → IsPool p → IsPool (at_conn f n p)
at_conn-IsPool f n p t v = record {
  held = λ key m h.
      let (c, found, k, o) = v.held key m h in
      let u = IsTame-if f (n == m) t in
      (
        if n == m then f c else c,
        get-at_conn f n m p
            ∙ ap (λ (x : Option Conn). if n == m then mapped f x else x) found
            ∙ if_some (n == m) c,
        u.same_key c ∙ k,
        u.same_closed c ∙ o,
      );
  away = v.away;
  unbound = v.unbound;
  unended = v.unended;
  fresh = λ m h.
      get-at_conn f n m p
      ∙ ap (λ (x : Option Conn). if n == m then mapped f x else x) (v.fresh m h)
      ∙ if_none f (n == m);
}
  where
    if_some :
        (b : Bool) (c : Conn)
        → (if b then mapped f (some c) else some c) ≡ some (if b then f c else c)
    if_some true c = refl
    if_some false c = refl

-- A new connection, under a key that has none.
module _ (broker key : Text) (spec : MqttSpec) (p : Pool) (absent : get key p.conns ≡ none)
    (v : IsPool p) where
  abbrev made : Conn
  made = new_conn broker key spec

  found_old : (m : ℕ) (c : Conn) → get m p.heap ≡ some c → (p.next_conn == m) ≡ false
  found_old m c h = elim (Bool-cases (p.next_conn == m)) [
    | inr other ↦ other
    | inl same ↦ absurd (none-some (sym (v.fresh m (ground arith)) ∙ h))
  ]

  get-made :
      (m : ℕ)
      → get m (put p.next_conn made p.heap) ≡ (if p.next_conn == m then some made else get m p.heap)
  get-made m = get-put m p.next_conn made p.heap

  held_after :
      (k : Text) (m : ℕ) (b : Bool)
      → text_eq key k ≡ b
      → (if b then some p.next_conn else get k p.conns) ≡ some m
      → (c : Conn) × (get m (put p.next_conn made p.heap) ≡ some c)
        × (c.key ≡ k)
        × (c.closed ≡ false)
  held_after k m true e h =
      let here : (p.next_conn == m) ≡ true = (==_iff p.next_conn m).1 (some_inj h) in
      (
        made,
        get-made m ∙ ap (λ (b : Bool). if b then some made else get m p.heap) here,
        (text_eq_iff key k).0 e,
        refl,
      )
  held_after k m false e h =
      let (c, found, same, o) = v.held k m h in
      (
        c,
        get-made m
            ∙ ap (λ (b : Bool). if b then some made else get m p.heap) (found_old m c found)
            ∙ found,
        same,
        o,
      )

  away_after :
      (k : Text) (m : ℕ) (b : Bool)
      → (if b then some p.next_conn else get k p.conns) ≡ some m
      → is_among m p.ending ≡ false
  away_after k m true h =
      ap (λ (j : ℕ). is_among j p.ending) (sym (some_inj h)) ∙ v.unended p.next_conn (omega arith)
  away_after k m false h = v.away k m h

  pub dial-IsPool : IsPool (dial broker key spec p).0
  dial-IsPool = record {
    held =
        λ k m h. held_after k m (text_eq key k) refl (sym (get-put k key p.next_conn p.conns) ∙ h);
    away = λ k m h. away_after k m (text_eq key k) (sym (get-put k key p.next_conn p.conns) ∙ h);
    unbound = λ m h.
        is_among-put m p.next_conn key p.conns (ltb_ne p.next_conn m (omega arith))
          (v.unbound m (omega arith));
    unended = λ m h. v.unended m (omega arith);
    fresh = λ m h.
        get-made m
        ∙ ap (λ (b : Bool). if b then some made else get m p.heap)
            (ltb_ne p.next_conn m (omega arith))
        ∙ v.fresh m (omega arith);
  }
