-- ===== src/State/Hub.antt =====
-- internal/state/hub.go: the events that are sent to the browsers.
pub mod Channels
pub mod Panics
pub mod Runs
mod Tests
use wrtdeck.Prelude.{
  ltb, ◌==◌, if◌then◌else◌, length, Dict, get, put, Text, nat_key, text_key, ℕ, ◌+◌, Bool, true,
  false, Option, none, some, List, [], ◌∷◌, ◌++◌,
}

abbrev pub subscriber_buffer : ℕ
subscriber_buffer = 16

pub record Event {ℓ} (A : Type ℓ) : Type ℓ where
  pub event_type : Text
  pub at : ℕ
  pub data_of : A

-- A channel with what waits in it, whether it is open, and whether the `once` of its subscriber has run.
pub record Channel {ℓ} (A : Type ℓ) : Type ℓ where
  pub buffer : List (Event A)
  pub open_for : Bool
  pub once_done : Bool

-- A channel is named by the number of its subscriber: `subs` holds the numbers of those that are
-- subscribed, and `channels` every channel that was made.
pub record Hub {ℓ} (A : Type ℓ) : Type ℓ where
  pub next_sub : ℕ
  pub subs : List ℕ
  pub closed : Bool
  pub channels : Dict ℕ (Channel A)

-- `none` is a panic: a send on a closed channel, or a second `close`.
abbrev pub without : ℕ → List ℕ → List ℕ
without id [] = []
without id (j ∷ js) = if j == id then without id js else j ∷ without id js

module _ {ℓ} {A : Type ℓ} where
  unfoldable pub new_hub : Hub A
  new_hub = record { next_sub = 0; subs = []; closed = false; channels = [] }

  -- The `select` with `default` in `Publish`.
  abbrev pub offer_to :
      ℕ → Event A → Option (Channel A) → Dict ℕ (Channel A) → Option (Dict ℕ (Channel A))
  offer_to id event none channels = some channels
  offer_to id event (some ch) channels =
      if ch.open_for
      then some (
          if ltb (length ch.buffer) subscriber_buffer
          then put id (record ch { buffer = ch.buffer ++ event ∷ [] }) channels
          else channels)
      else none

  abbrev pub and_then :
      Option (Dict ℕ (Channel A))
      → (Dict ℕ (Channel A) → Option (Dict ℕ (Channel A)))
      → Option (Dict ℕ (Channel A))
  and_then none f = none
  and_then (some channels) f = f channels

  unfoldable pub publish_loop : List ℕ → Event A → Dict ℕ (Channel A) → Option (Dict ℕ (Channel A))
  publish_loop [] event channels = some channels
  publish_loop (id ∷ ids) event channels =
      and_then (offer_to id event (get id channels) channels) (publish_loop ids event)

  abbrev pub with_channels : Hub A → Option (Dict ℕ (Channel A)) → Option (Hub A)
  with_channels h none = none
  with_channels h (some channels) = some (record h { channels = channels })

  unfoldable pub publish : Event A → Hub A → Option (Hub A)
  unfolding publish_loop
  publish event h =
      if h.closed then some h else with_channels h (publish_loop h.subs event h.channels)

  -- A hub that is closed gives a closed channel of its own, whose cancel function does nothing: `none`.
  unfoldable pub subscribe : Hub A → Hub A × Option ℕ
  subscribe h = if h.closed then (h, none) else (
    record h {
      next_sub = h.next_sub + 1;
      subs = h.next_sub ∷ h.subs;
      channels =
          put h.next_sub (record { buffer = []; open_for = true; once_done = false }) h.channels;
    },
    some h.next_sub,
  )

  -- `close(ch)`
  abbrev pub close_channel : Channel A → Option (Channel A)
  close_channel ch = if ch.open_for then some (record ch { open_for = false }) else none

  abbrev pub cancelled_as : ℕ → Hub A → Option (Channel A) → Option (Hub A)
  cancelled_as id h none = none
  cancelled_as id h (some ch) = some (record h {
    subs = without id h.subs;
    channels = put id (record ch { once_done = true }) h.channels;
  })

  abbrev pub cancel_channel : ℕ → Hub A → Option (Channel A) → Option (Hub A)
  cancel_channel id h none = some h
  cancel_channel id h (some ch) =
      if ch.once_done then some h else cancelled_as id h (close_channel ch)

  -- The function that `Subscribe` returned to the subscriber `id`.
  unfoldable pub cancel : ℕ → Hub A → Option (Hub A)
  cancel id h = cancel_channel id h (get id h.channels)

  unfoldable pub subscribers : Hub A → ℕ
  subscribers h = length h.subs

  abbrev pub closed_as : ℕ → Dict ℕ (Channel A) → Option (Channel A) → Option (Dict ℕ (Channel A))
  closed_as id channels none = none
  closed_as id channels (some ch) = some (put id ch channels)

  abbrev pub close_one : ℕ → Dict ℕ (Channel A) → Option (Channel A) → Option (Dict ℕ (Channel A))
  close_one id channels none = some channels
  close_one id channels (some ch) = closed_as id channels (close_channel ch)

  unfoldable pub close_loop : List ℕ → Dict ℕ (Channel A) → Option (Dict ℕ (Channel A))
  close_loop [] channels = some channels
  close_loop (id ∷ ids) channels =
      and_then (close_one id channels (get id channels)) (close_loop ids)

  unfoldable pub close_hub : Hub A → Option (Hub A)
  unfolding close_loop
  close_hub h =
      if h.closed
      then some h
      else with_channels (record h { closed = true; subs = [] }) (close_loop h.subs h.channels)

  abbrev pub received_as : ℕ → Hub A → Channel A → List (Event A) → Hub A × Option (Event A)
  received_as id h ch [] = (h, none)
  received_as id h ch (event ∷ rest) =
      (record h { channels = put id (record ch { buffer = rest }) h.channels }, some event)

  abbrev pub receive_from : ℕ → Hub A → Option (Channel A) → Hub A × Option (Event A)
  receive_from id h none = (h, none)
  receive_from id h (some ch) = received_as id h ch ch.buffer

  -- The subscriber takes the first event of its channel, if there is one.
  unfoldable pub receive : ℕ → Hub A → Hub A × Option (Event A)
  receive id h = receive_from id h (get id h.channels)
