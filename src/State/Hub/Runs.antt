-- ===== src/State/Hub/Runs.antt =====
-- That every run of the operations keeps the channels well-formed.
use wrtdeck.Prelude.{
  ◌==◌, if◌then◌else◌, ==_iff, Bool-cases, Option-cases, get-put, get, nat_key, text_key, ℕ, ◌+◌,
  ◌≡◌, refl, inl, inr, Bool, true, false, Option, none, some, List, [], ◌∷◌, arith,
}
use wrtdeck.State.Hub.{
  Event, Channel, Hub, new_hub, publish, subscribe, cancel, close_hub, received_as, receive,
}
use wrtdeck.State.Hub.Channels.{has, OkChannel, IsValid}
use wrtdeck.State.Hub.Panics.{publish_lem, close_hub_lem, cancel-IsValid}

pub data Op (A : Type 0) : Type 0 where
  subscribed closed_hub : Op A
  published : Event A → Op A
  received cancelled : ℕ → Op A

module _ {A : Type 0} where
  fresh_id :
      (h : Hub A) → IsValid h → (get h.next_sub h.channels ≡ none) × (has h.next_sub h.subs ≡ false)
  fresh_id h v = elim (Option-cases (get h.next_sub h.channels)) [
    | inl e ↦ let (_, unsubscribed) = rw e at (v.channel h.next_sub) in (e, unsubscribed)
    | inr (ch, e) ↦ let made = rw e at (v.channel h.next_sub) in absurd (omega (arith, made.0))
  ]

  grown :
      (j : ℕ) (h : Hub A) (o : Option (Channel A))
      → (h.next_sub == j) ≡ false
      → OkChannel j h.next_sub h.closed (has j h.subs) o
      → OkChannel j (h.next_sub + 1) h.closed (has j (h.next_sub ∷ h.subs)) o
  unfolding has
  grown j h none other ok = ground (arith, ok, ==_iff h.next_sub j)
  grown j h (some ch) other ok = ground (arith, ok, ==_iff h.next_sub j)

  subscribed_fresh :
      (j : ℕ) (h : Hub A)
      → h.closed ≡ false
      → (h.next_sub == j) ≡ true
      → OkChannel {A = A} j
          (h.next_sub + 1)
          h.closed
          (has j (h.next_sub ∷ h.subs))
          (some (record { buffer = []; open_for = true; once_done = false }))
  unfolding has
  subscribed_fresh j h running same = ground (arith, ==_iff h.next_sub j)

  picked :
      (b : Bool) (x y : Hub A × Option ℕ)
      → (b ≡ true → IsValid x.0)
      → (b ≡ false → IsValid y.0)
      → IsValid (if b then x else y).0
  picked true x y p q = p refl
  picked false x y p q = q refl

  subscribe-IsValid : (h : Hub A) → IsValid h → IsValid (subscribe h).0
  unfolding subscribe
  subscribe-IsValid h v =
      picked h.closed _ _ (λ shut_down. v)
        (λ running. record {
          once = ((fresh_id h v).1, v.once);
          channel = λ j.
              rw
                (get-put j h.next_sub (record { buffer = []; open_for = true; once_done = false })
                  h.channels)
                (elim (Bool-cases (h.next_sub == j)) [
                  | inl same ↦ rw same (subscribed_fresh j h running same)
                  | inr other ↦ rw other (grown j h (get j h.channels) other (v.channel j))
                ]);
        })

  taken :
      (id : ℕ) (h : Hub A) (ch : Channel A) (buffer : List (Event A))
      → IsValid h
      → OkChannel id h.next_sub h.closed (has id h.subs) (some (record ch { buffer = buffer }))
      → IsValid (received_as id h ch buffer).0
  taken id h ch [] v ok = v
  taken id h ch (event ∷ rest) v ok = record {
    once = v.once;
    channel = λ j.
        rw (get-put j id (record ch { buffer = rest }) h.channels) (elim (Bool-cases (id == j)) [
          | inl same ↦
              let here : id ≡ j = (==_iff id j).0 same in rw (same, ← here) (ground (arith, ok))
          | inr other ↦ rw other (v.channel j)
        ]);
  }

  receive-IsValid : (id : ℕ) (h : Hub A) → IsValid h → IsValid (receive id h).0
  unfolding receive
  receive-IsValid id h v = elim (Option-cases (get id h.channels)) [
    | inl e ↦ rw e v
    | inr (ch, e) ↦ rw e (taken id h ch ch.buffer v (rw e at (v.channel id)))
  ]

  -- One operation, `none` for a panic.
  unfoldable pub apply : Op A → Hub A → Option (Hub A)
  unfolding subscribe close_hub publish receive cancel
  apply subscribed h = some (subscribe h).0
  apply closed_hub h = close_hub h
  apply (published event) h = publish event h
  apply (received id) h = some (receive id h).0
  apply (cancelled id) h = cancel id h

  abbrev pub apply_to : Op A → Option (Hub A) → Option (Hub A)
  apply_to op none = none
  apply_to op (some h) = apply op h

  -- The operations one after the other, the first of the list last.
  unfoldable pub run_hub : List (Op A) → Option (Hub A)
  unfolding apply new_hub
  run_hub [] = some new_hub
  run_hub (op ∷ ops) = apply_to op (run_hub ops)

  IsValid-result :
      (o : Option (Hub A)) (h after : Hub A)
      → o ≡ some h
      → IsValid h
      → o ≡ some after
      → IsValid after
  IsValid-result o h after known v done =
      let both : some h ≡ some after = cc (known, done) in
      let same : h ≡ after = cc both in rw (← same) v

  apply-IsValid :
      (op : Op A) (h after : Hub A) → IsValid h → apply op h ≡ some after → IsValid after
  unfolding apply
  apply-IsValid subscribed h after v done =
      IsValid-result (some (subscribe h).0) (subscribe h).0 after refl (subscribe-IsValid h v) done
  apply-IsValid closed_hub h after v done =
      let (h', result, valid, _, _) = close_hub_lem h v in
      IsValid-result (close_hub h) h' after result valid done
  apply-IsValid (published event) h after v done =
      let (h', result, valid, _) = publish_lem event h v in
      IsValid-result (publish event h) h' after result valid done
  apply-IsValid (received id) h after v done =
      IsValid-result (some (receive id h).0) (receive id h).0 after refl (receive-IsValid id h v)
        done
  apply-IsValid (cancelled id) h after v done = cancel-IsValid id h after v done

  apply_to-IsValid :
      (op : Op A) (o : Option (Hub A)) (after : Hub A)
      → ((h : Hub A) → o ≡ some h → IsValid h)
      → apply_to op o ≡ some after
      → IsValid after
  apply_to-IsValid op none after before done = cc done
  apply_to-IsValid op (some h) after before done = apply-IsValid op h after (before h refl) done

  new_hub-IsValid : IsValid {A = A} new_hub
  unfolding new_hub has get
  new_hub-IsValid = record { once = tt; channel = λ id. (omega arith, refl) }

  -- Whatever operations were run on a new hub, if none of them panicked, the subscribers have
  -- distinct numbers, a channel is open exactly while its subscriber is subscribed, which is until
  -- it cancels or the hub is closed, and no channel holds more than 16 events.
  pub run_hub-IsValid : (ops : List (Op A)) (h : Hub A) → run_hub ops ≡ some h → IsValid h
  unfolding run_hub
  run_hub-IsValid [] h done = IsValid-result (some new_hub) new_hub h refl new_hub-IsValid done
  run_hub-IsValid (op ∷ ops) h done = apply_to-IsValid op (run_hub ops) h (run_hub-IsValid ops) done
