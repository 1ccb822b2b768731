-- ===== src/Mqtt/Client/Free.antt =====
-- That a request is given a free identifier as long as there is one.
use wrtdeck.Mqtt.Client.{Client}
use wrtdeck.Prelude.{
  ◌==◌, if◌then◌else◌, ==_iff, Bool-cases, is_some, get-put, get-delete, delete-IsDistinct,
  length-delete, length, Dict, get, delete, IsDistinct, Text, nat_key, text_key, ℕ, zero, suc, ◌+◌,
  ◌≤◌, ◌<◌, ◌≡◌, refl, ap, ◌∙◌, ◌≢◌, ◌⊎◌, inl, inr, Bool, true, false, none, some, [], arith,
}
use wrtdeck.Mqtt.Client.Register.{
  next, register_loop, not_connected, registered, registered_as, register,
}

-- What the loop tries within `n` rounds after `s`: it goes up to 65535 and then on from 1.
abbrev Reached : ℕ → ℕ → ℕ → Type 0
Reached s n k = (s < k × k ≤ s + n) ⊎ (k + 65535 ≤ s + n)

next_bounds : (s : ℕ) → s ≤ 65535 → (1 ≤ next s) × (next s ≤ 65535)
next_bounds s h = ground arith

next-Reached :
    (s n k : ℕ)
    → s ≤ 65535
    → 1 ≤ k
    → k ≤ 65535
    → next s ≢ k
    → Reached s (suc n) k
    → Reached (next s) n k
next-Reached s n k small low high other r = ground arith

register_loop_busy :
    (n s k : ℕ) (pending : Dict ℕ Text)
    → s ≤ 65535
    → (register_loop n s pending).1 ≡ false
    → 1 ≤ k
    → k ≤ 65535
    → Reached s n k
    → is_some (get k pending) ≡ true
unfolding register_loop
register_loop_busy zero s k pending small none_free low high r = absurd (ground (arith, r))
register_loop_busy (suc n) s k pending small none_free low high r =
    elim (Bool-cases (is_some (get (next s) pending))) [
      | inl busy ↦ elim (Bool-cases (next s == k)) [
        | inl here ↦ rw ((==_iff (next s) k).0 here) at busy
        | inr other ↦
            let (_, top) = next_bounds s small in
            register_loop_busy n (next s) k pending top (rw busy at none_free) low high
              (next-Reached s n k small low high (ground (arith, other)) r)
      ]
      | inr free ↦ let bad : true ≡ false = rw free at none_free in cc bad
    ]

register_loop_free :
    (n s : ℕ) (pending : Dict ℕ Text)
    → s ≤ 65535
    → (register_loop n s pending).1 ≡ true
    → (1 ≤ (register_loop n s pending).0)
      × ((register_loop n s pending).0 ≤ 65535)
      × (get (register_loop n s pending).0 pending ≡ none)
unfolding register_loop
register_loop_free zero s pending small found = cc found
register_loop_free (suc n) s pending small found =
    elim (Bool-cases (is_some (get (next s) pending))) [
      | inl busy ↦
          rw busy (register_loop_free n (next s) pending (next_bounds s small).1 (rw busy at found))
      | inr free ↦ let (low, top) = next_bounds s small in rw free (low, top, ground (arith, free))
    ]

-- A map with distinct keys that binds each of 1 to `n` has `n` bindings.
pigeonhole :
    (n : ℕ) (m : Dict ℕ Text)
    → IsDistinct m
    → ((k : ℕ) → 1 ≤ k → k ≤ n → is_some (get k m) ≡ true)
    → n ≤ length m
pigeonhole zero m d all = omega arith
pigeonhole (suc n) m d all =
    let rest = delete (suc n) m in
    let fewer : n ≤ length rest =
      pigeonhole n rest (delete-IsDistinct (suc n) m d)
        (λ k low high. rw (get-delete k (suc n) m) (ground (arith, all k low (omega arith)))) in
    ground (arith, fewer, length-delete (suc n) m d, all (suc n) (omega arith) (omega arith))

register_eq :
    (c : Client) (p : ℕ × Bool)
    → c.connected ≡ true
    → register_loop 65535 c.next_id c.pending ≡ p
    → register c ≡ registered_as p c
unfolding register
register_eq c p up found =
    ap
      (λ (b : Bool).
        if b then registered_as (register_loop 65535 c.next_id c.pending) c else (c, not_connected))
      up
    ∙ ap (λ (q : ℕ × Bool). registered_as q c) found

register-registered :
    (c : Client) (id : ℕ)
    → register c ≡ registered_as (id, true) c
    → ((register c).1 ≡ registered id)
      × ((j : ℕ) → get j (register c).0.pending ≡ (if id == j then some [] else get j c.pending))
register-registered c id e = rw e (refl, λ j. get-put j id [] c.pending)

some_free :
    (c : Client)
    → IsDistinct c.pending
    → length c.pending < 65535
    → c.next_id ≤ 65535
    → (register_loop 65535 c.next_id c.pending).1 ≡ true
some_free c d room small = elim (Bool-cases (register_loop 65535 c.next_id c.pending).1) [
  | inl found ↦ found
  | inr none_free ↦
      let full : 65535 ≤ length c.pending = pigeonhole 65535 c.pending d (λ k low high.
        register_loop_busy 65535 c.next_id k c.pending small none_free low high (ground arith)) in
      absurd (omega (arith, full, room))
]

-- A connected client with fewer than 65535 waiting requests, on distinct identifiers, and a counter
-- of 16 bits gives the next request an identifier from 1 to 65535 that no other one waits for, with
-- an empty channel, and leaves the channels of the others.
pub register_lem :
    (c : Client)
    → c.connected ≡ true
    → IsDistinct c.pending
    → length c.pending < 65535
    → c.next_id ≤ 65535
    → (id : ℕ) × ((register c).1 ≡ registered id)
      × (1 ≤ id)
      × (id ≤ 65535)
      × (get id c.pending ≡ none)
      × ((j : ℕ) → get j (register c).0.pending ≡ (if id == j then some [] else get j c.pending))
register_lem c up d room small =
    let found = some_free c d room small in
    let (low, top, free) = register_loop_free 65535 c.next_id c.pending small found in
    let id = (register_loop 65535 c.next_id c.pending).0 in
    let (answer, bound) =
      register-registered c id (register_eq c (id, true) up (λ i. (id, found i))) in
    (id, answer, low, top, free, bound)

pub register_shape :
    (c : Client)
    → c.connected ≡ true
    → IsDistinct c.pending
    → length c.pending < 65535
    → c.next_id ≤ 65535
    → (id : ℕ) × (register c ≡ registered_as (id, true) c)
      × (id ≤ 65535)
      × (get id c.pending ≡ none)
register_shape c up d room small =
    let found = some_free c d room small in
    let (low, top, free) = register_loop_free 65535 c.next_id c.pending small found in
    let id = (register_loop 65535 c.next_id c.pending).0 in
    (id, register_eq c (id, true) up (λ i. (id, found i)), top, free)
