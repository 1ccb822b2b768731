-- ===== src/State/Hub/Panics.antt =====
-- That the operations keep the channels well-formed, and when they panic.
use wrtdeck.Prelude.{
  ◌==◌, if◌then◌else◌, ==_iff, Bool-cases, Option-cases, is_some, get-put, length-append, get, put,
  nat_key, text_key, ℕ, ◌≡◌, refl, inl, inr, Bool, true, false, not, ◌&&◌, Option, none, some, [],
  ◌∷◌, arith,
}
use wrtdeck.State.Hub.{Event, Channel, Hub, without, publish, cancel_channel, cancel, close_hub}
use wrtdeck.State.Hub.Channels.{
  has, has-without, Once-without, OkChannel, IsValid, offered, shut, AllOpen, publish_loop_lem,
  close_loop_lem,
}

module _ {A : Type 0} where
  subs_open : (h : Hub A) → IsValid h → AllOpen h.subs h.channels
  subs_open h v id subscribed = elim (Option-cases (get id h.channels)) [
    | inl e ↦ rw e tt
    | inr (ch, e) ↦
        rw e (let (below, bounded, sub, state) = rw e at (v.channel id) in cc (sub, subscribed))
  ]

  OkChannel-offered :
      (event : Event A) (id next : ℕ) (closed subscribed : Bool) (o : Option (Channel A))
      → OkChannel id next closed subscribed o
      → OkChannel id next closed subscribed (if subscribed then offered event o else o)
  OkChannel-offered event id next closed subscribed none ok = ground (arith, ok)
  OkChannel-offered event id next closed subscribed (some ch) (below, bounded, sub, state) =
      ground (arith, below, bounded, sub, state, length-append ch.buffer (event ∷ []))

  -- A publication in a well-formed hub never panics and leaves it well-formed: where the hub is not
  -- closed, every subscriber is given the event behind those that wait, unless 16 wait already, and
  -- every other channel stays as it is.
  pub publish_lem :
      (event : Event A) (h : Hub A)
      → IsValid h
      → (after : Hub A) × (publish event h ≡ some after)
        × IsValid after
        × ((id : ℕ)
            → get id after.channels ≡ (
                if not h.closed && has id h.subs
                then offered event (get id h.channels)
                else get id h.channels))
  unfolding publish
  publish_lem event h v = elim (Bool-cases h.closed) [
    | inl shut_down ↦ (h, rw shut_down, v, λ id. rw shut_down)
    | inr running ↦
        let sent = publish_loop_lem h.subs event h.channels v.once (subs_open h v) in
        (
          record h { channels = sent.channels_after },
          rw (running, sent.no_panic),
          record {
            once = v.once;
            channel = λ id. rw (sent.each id) (
                OkChannel-offered event id h.next_sub h.closed (has id h.subs) (get id h.channels)
                  (v.channel id));
          },
          λ id. rw running (sent.each id),
        )
  ]

  -- Closing a well-formed hub never panics, leaves it well-formed and closed, and closes the
  -- channels of the subscribers and no other.
  pub close_hub_lem :
      (h : Hub A)
      → IsValid h
      → (after : Hub A) × (close_hub h ≡ some after)
        × IsValid after
        × (after.closed ≡ true)
        × ((id : ℕ)
            → get id after.channels ≡ (
                if not h.closed && has id h.subs
                then shut (get id h.channels)
                else get id h.channels))
  unfolding close_hub
  close_hub_lem h v = elim (Bool-cases h.closed) [
    | inl shut_down ↦ (h, rw shut_down, v, shut_down, λ id. rw shut_down)
    | inr running ↦
        let done = close_loop_lem h.subs h.channels v.once (subs_open h v) in
        (
          record h { closed = true; subs = []; channels = done.channels_after },
          rw (running, done.no_panic),
          record {
            once = tt;
            channel = λ id. rw (done.each id) (
                OkChannel-shut id h.next_sub h.closed (has id h.subs) (get id h.channels) running
                  (v.channel id));
          },
          refl,
          λ id. rw running (done.each id),
        )
  ]
    where
      OkChannel-shut :
          (id next : ℕ) (closed subscribed : Bool) (o : Option (Channel A))
          → closed ≡ false
          → OkChannel id next closed subscribed o
          → OkChannel id next true (has id []) (if subscribed then shut o else o)
      OkChannel-shut id next closed subscribed none running ok = unfold has in ground (arith, ok)
      OkChannel-shut id next closed subscribed (some ch) running (below, bounded, sub, state) =
          unfold has in ground (arith, below, bounded, sub, state)

  abbrev pub will_panic : Bool → Option (Channel A) → Bool
  will_panic closed none = false
  will_panic closed (some ch) = closed && not ch.once_done

  cancel_one :
      (id : ℕ) (h : Hub A) (o : Option (Channel A))
      → OkChannel id h.next_sub h.closed (has id h.subs) o
      → is_some (cancel_channel id h o) ≡ not (will_panic h.closed o)
  cancel_one id h none ok = refl
  cancel_one id h (some ch) (below, bounded, sub, state) = ground (arith, state)

  -- In a well-formed hub a cancel function panics exactly when the hub is closed and the function
  -- was not called before.
  pub cancel-panics :
      (id : ℕ) (h : Hub A)
      → IsValid h
      → is_some (cancel id h) ≡ not (will_panic h.closed (get id h.channels))
  unfolding cancel
  cancel-panics id h v = cancel_one id h (get id h.channels) (v.channel id)

  none_of : (o : Option (Hub A)) → is_some o ≡ false → o ≡ none
  none_of none h = refl
  none_of (some a) h = cc

  -- In a well-formed hub, after `Close` the cancel function of a subscriber that was still
  -- subscribed panics, since it closes the channel a second time.
  pub cancel-close_hub :
      (id : ℕ) (h : Hub A)
      → IsValid h
      → has id h.subs ≡ true
      → (after : Hub A) × (close_hub h ≡ some after) × (cancel id after ≡ none)
  cancel-close_hub id h v subscribed =
      let (after, done, valid, shut_down, each) = close_hub_lem h v in
      (
        after,
        done,
        elim (Option-cases (get id h.channels)) [
          | inl e ↦ let (_, unsubscribed) = rw e at (v.channel id) in cc (unsubscribed, subscribed)
          | inr (ch, e) ↦
              let (_, _, sub, state) = rw e at (v.channel id) in
              let running : h.closed ≡ false = ground (arith, sub, state, subscribed) in
              let still : ch.once_done ≡ false = ground (arith, sub, state, subscribed) in
              let gone : get id after.channels ≡ some (record ch { open_for = false }) =
                rw (running, subscribed, e) at (each id) in
              none_of (cancel id after)
                (rw (shut_down, gone, still) at (cancel-panics id after valid))
        ],
      )

  cancelled-IsValid :
      (id : ℕ) (ch : Channel A) (h : Hub A)
      → get id h.channels ≡ some ch
      → IsValid h
      → IsValid (record h {
        subs = without id h.subs;
        channels = put id (record ch { open_for = false; once_done = true }) h.channels;
      })
  cancelled-IsValid id ch h e v = record {
    once = Once-without id h.subs v.once;
    channel = λ j.
        let gone : Channel A = record ch { open_for = false; once_done = true } in
        let at_id : OkChannel id h.next_sub h.closed (has id h.subs) (some ch) =
          rw e at (v.channel id) in
        rw (has-without j id h.subs, get-put j id gone h.channels)
          (elim (Bool-cases (id == j)) [
            | inl same ↦
                let here : id ≡ j = (==_iff id j).0 same in
                rw (same, ← here) (ground (arith, at_id))
            | inr other ↦ rw other (v.channel j)
          ]);
  }

  cancel_found :
      (id : ℕ) (ch : Channel A) (h after : Hub A)
      → get id h.channels ≡ some ch
      → IsValid h
      → cancel_channel id h (some ch) ≡ some after
      → IsValid after
  cancel_found id ch h after e v done = elim (Bool-cases ch.once_done) [
    | inl again ↦
        let same : some h ≡ some after = rw again at done in
        let unchanged : h ≡ after = cc same in rw (← unchanged) v
    | inr first ↦ elim (Bool-cases ch.open_for) [
      | inl is_open ↦
          let same : some (record h {
            subs = without id h.subs;
            channels = put id (record ch { open_for = false; once_done = true }) h.channels;
          })
              ≡ some after =
            rw (first, is_open) at done in
          let changed : record h {
            subs = without id h.subs;
            channels = put id (record ch { open_for = false; once_done = true }) h.channels;
          }
              ≡ after =
            cc same in
          rw (← changed) (cancelled-IsValid id ch h e v)
      | inr is_shut ↦ let bad : none ≡ some after = rw (first, is_shut) at done in cc bad
    ]
  ]

  pub cancel-IsValid :
      (id : ℕ) (h after : Hub A) → IsValid h → cancel id h ≡ some after → IsValid after
  unfolding cancel
  cancel-IsValid id h after v done = elim (Option-cases (get id h.channels)) [
    | inl e ↦
        let same : some h ≡ some after = rw e at done in
        let unchanged : h ≡ after = cc same in rw (← unchanged) v
    | inr (ch, e) ↦ cancel_found id ch h after e v (rw e at done)
  ]
