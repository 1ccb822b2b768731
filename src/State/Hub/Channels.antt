-- ===== src/State/Hub/Channels.antt =====
-- The state of every channel that the hub has made, and that sends and closes find it open.
use wrtdeck.Prelude.{
  ltb, ◌==◌, if◌then◌else◌, ==_iff, Bool-cases, Option-cases, get-put, length, Dict, get, put,
  nat_key, text_key, ℕ, ◌≤◌, ◌<◌, ◌≡◌, refl, ◌∙◌, inl, inr, Bool, true, false, not, ◌&&◌, Option,
  none, some, List, [], ◌∷◌, ◌++◌, arith,
}
use wrtdeck.State.Hub.{
  subscriber_buffer, Event, Channel, Hub, without, offer_to, publish_loop, close_one, close_loop,
}

unfoldable pub has : ℕ → List ℕ → Bool
has id [] = false
has id (j ∷ js) = if j == id then true else has id js

abbrev pub Once : List ℕ → Type 0
Once [] = Unit
Once (id ∷ ids) = (has id ids ≡ false) × Once ids

pub has-without :
    (j id : ℕ) (ids : List ℕ) → has j (without id ids) ≡ (if id == j then false else has j ids)
unfolding has
has-without j id [] = ground arith
has-without j id (k ∷ ids) = ground (arith, has-without j id ids)

pub Once-without : (id : ℕ) (ids : List ℕ) → Once ids → Once (without id ids)
Once-without id [] o = tt
Once-without id (k ∷ ids) (fresh, o) = ground (arith, has-without k id ids, Once-without id ids o)

module _ {A : Type 0} where
  -- A channel that was made is open as long as neither the hub is closed nor its subscriber gone, and
  -- those that are open are the ones subscribed.
  abbrev pub OkChannel : ℕ → ℕ → Bool → Bool → Option (Channel A) → Type 0
  OkChannel id next closed subscribed none = (next ≤ id) × (subscribed ≡ false)
  OkChannel id next closed subscribed (some ch) =
      (id < next)
      × (length ch.buffer ≤ subscriber_buffer)
      × (subscribed ≡ ch.open_for)
      × (ch.open_for ≡ not closed && not ch.once_done)

  pub record IsValid (h : Hub A) : Type 0 where
    pub once : Once h.subs
    pub channel : (id : ℕ) → OkChannel id h.next_sub h.closed (has id h.subs) (get id h.channels)

  abbrev pub IsOpen : Option (Channel A) → Type 0
  IsOpen none = Unit
  IsOpen (some ch) = ch.open_for ≡ true

  abbrev pub offered : Event A → Option (Channel A) → Option (Channel A)
  offered event none = none
  offered event (some ch) = some (
      if ltb (length ch.buffer) subscriber_buffer
      then record ch { buffer = ch.buffer ++ event ∷ [] }
      else ch)

  abbrev pub shut : Option (Channel A) → Option (Channel A)
  shut none = none
  shut (some ch) = some (record ch { open_for = false })

  abbrev pub AllOpen : List ℕ → Dict ℕ (Channel A) → Type 0
  AllOpen ids channels = (id : ℕ) → has id ids ≡ true → IsOpen (get id channels)

  -- A loop over `ids` that does not panic and makes `f` of each channel.
  pub record Changed (f : Option (Channel A) → Option (Channel A)) (ids : List ℕ)
      (channels : Dict ℕ (Channel A)) (result : Option (Dict ℕ (Channel A))) : Type 0 where
    pub channels_after : Dict ℕ (Channel A)
    pub no_panic : result ≡ some channels_after
    pub each :
        (j : ℕ) → get j channels_after ≡ (if has j ids then f (get j channels) else get j channels)

  offer_each :
      (id j : ℕ) (event : Event A) (channels : Dict ℕ (Channel A)) (ch : Channel A)
      → get id channels ≡ some ch
      → get j (
          if ltb (length ch.buffer) subscriber_buffer
          then put id (record ch { buffer = ch.buffer ++ event ∷ [] }) channels
          else channels)
        ≡ (if has j (id ∷ []) then offered event (get j channels) else get j channels)
  unfolding has
  offer_each id j event channels ch bound = ground (
    arith,
    bound,
    ==_iff id j,
    get-put j id (record ch { buffer = ch.buffer ++ event ∷ [] }) channels,
  )

  offer_to_lem :
      (id : ℕ) (event : Event A) (channels : Dict ℕ (Channel A))
      → IsOpen (get id channels)
      → Changed (offered event) (id ∷ []) channels (offer_to id event (get id channels) channels)
  offer_to_lem id event channels o = elim (Option-cases (get id channels)) [
    | inl e ↦ record {
      channels_after = channels;
      no_panic = rw e;
      each = λ j. unfold has in ground (arith, e, ==_iff id j);
    }
    | inr (ch, e) ↦
        let is_open : ch.open_for ≡ true = rw e at o in
        record {
          channels_after = _;
          no_panic = rw (e, is_open);
          each = λ j. offer_each id j event channels ch e;
        }
  ]

  close_one_lem :
      (id : ℕ) (channels : Dict ℕ (Channel A))
      → IsOpen (get id channels)
      → Changed shut (id ∷ []) channels (close_one id channels (get id channels))
  close_one_lem id channels o = elim (Option-cases (get id channels)) [
    | inl e ↦ record {
      channels_after = channels;
      no_panic = rw e;
      each = λ j. unfold has in ground (arith, e, ==_iff id j);
    }
    | inr (ch, e) ↦
        let is_open : ch.open_for ≡ true = rw e at o in
        record {
          channels_after = put id (record ch { open_for = false }) channels;
          no_panic = rw (e, is_open);
          each = λ j.
              unfold has in
              ground
                (arith, e, ==_iff id j, get-put j id (record ch { open_for = false }) channels);
        }
  ]

  AllOpen-tail :
      (id : ℕ) (ids : List ℕ) (channels : Dict ℕ (Channel A))
      → AllOpen (id ∷ ids) channels
      → AllOpen ids channels
  unfolding has
  AllOpen-tail id ids channels all k h = all k (ground (arith, h))

  AllOpen-head :
      (id : ℕ) (ids : List ℕ) (channels : Dict ℕ (Channel A))
      → AllOpen (id ∷ ids) channels
      → IsOpen (get id channels)
  unfolding has
  AllOpen-head id ids channels all = all id (ground arith)

  module _ (f : Option (Channel A) → Option (Channel A)) (id : ℕ) (ids : List ℕ)
      (fresh : has id ids ≡ false) where
    AllOpen-Changed :
        (channels after : Dict ℕ (Channel A))
        → ((j : ℕ) → get j after ≡ (if has j (id ∷ []) then f (get j channels) else get j channels))
        → AllOpen ids channels
        → AllOpen ids after
    unfolding has
    AllOpen-Changed channels after each all k h = elim (Bool-cases (id == k)) [
      | inl same ↦
          let here : id ≡ k = (==_iff id k).0 same in
          let absent : has k ids ≡ false = rw here at fresh in cc (absent, h)
      | inr other ↦
          let kept_k : get k after ≡ get k channels = rw other at (each k) in rw kept_k (all k h)
    ]

    each_next :
        (j : ℕ) (o first : Option (Channel A))
        → first ≡ (if has j (id ∷ []) then f o else o)
        → (if has j ids then f first else first) ≡ (if has j (id ∷ ids) then f o else o)
    unfolding has
    each_next j o first e = elim (Bool-cases (id == j)) [
      | inl same ↦
          let here : id ≡ j = (==_iff id j).0 same in
          let absent : has j ids ≡ false = rw here at fresh in rw (absent, same) (rw same at e)
      | inr other ↦ rw other (let kept_o : first ≡ o = rw other at e in rw kept_o)
    ]

  Changed-nothing :
      (f : Option (Channel A) → Option (Channel A)) (channels : Dict ℕ (Channel A))
      → Changed f [] channels (some channels)
  unfolding has
  Changed-nothing f channels = record {
    channels_after = channels;
    no_panic = refl;
    each = λ j. refl;
  }

  pub publish_loop_lem :
      (ids : List ℕ) (event : Event A) (channels : Dict ℕ (Channel A))
      → Once ids
      → AllOpen ids channels
      → Changed (offered event) ids channels (publish_loop ids event channels)
  unfolding publish_loop
  publish_loop_lem [] event channels o all = Changed-nothing (offered event) channels
  publish_loop_lem (id ∷ ids) event channels (fresh, o) all =
      let first = offer_to_lem id event channels (AllOpen-head id ids channels all) in
      let rest = publish_loop_lem ids event first.channels_after o (
        AllOpen-Changed (offered event) id ids fresh channels first.channels_after first.each
          (AllOpen-tail id ids channels all)) in
      record {
        channels_after = rest.channels_after;
        no_panic = rw first.no_panic rest.no_panic;
        each = λ j.
            rest.each j
            ∙ each_next (offered event) id ids fresh j (get j channels) (get j first.channels_after)
                (first.each j);
      }

  pub close_loop_lem :
      (ids : List ℕ) (channels : Dict ℕ (Channel A))
      → Once ids
      → AllOpen ids channels
      → Changed shut ids channels (close_loop ids channels)
  unfolding close_loop
  close_loop_lem [] channels o all = Changed-nothing shut channels
  close_loop_lem (id ∷ ids) channels (fresh, o) all =
      let first = close_one_lem id channels (AllOpen-head id ids channels all) in
      let rest = close_loop_lem ids first.channels_after o (
        AllOpen-Changed shut id ids fresh channels first.channels_after first.each
          (AllOpen-tail id ids channels all)) in
      record {
        channels_after = rest.channels_after;
        no_panic = rw first.no_panic rest.no_panic;
        each = λ j.
            rest.each j
            ∙ each_next shut id ids fresh j (get j channels) (get j first.channels_after)
                (first.each j);
      }
