-- ===== src/State/Hub/Tests.antt =====
-- Runs of the hub, and the theorems at concrete inputs.
use wrtdeck.Prelude.{nat_key, text_key, codes, ℕ, ◌≡◌, refl, true, none, some, [], ◌∷◌}
use wrtdeck.State.Hub.{Event, Hub, new_hub, subscribe, cancel, close_hub}
use wrtdeck.State.Hub.Channels.{has, IsValid}
use wrtdeck.State.Hub.Panics.{cancel-close_hub}
use wrtdeck.State.Hub.Runs.{subscribed, apply, run_hub, run_hub-IsValid}

abbrev tick : Event ℕ
tick = record { event_type = codes "source.updated"; at = 5; data_of = 1 }

abbrev one_sub : Hub ℕ
one_sub = (subscribe new_hub).0

one_sub_run : run_hub (subscribed ∷ []) ≡ some one_sub
unfolding run_hub apply
one_sub_run = refl

one_sub-IsValid : IsValid one_sub
one_sub-IsValid = run_hub-IsValid (subscribed ∷ []) one_sub one_sub_run

run_hub-IsValid_example : IsValid one_sub
run_hub-IsValid_example = run_hub-IsValid (subscribed ∷ []) one_sub one_sub_run

zero_subscribed : has 0 one_sub.subs ≡ true
unfolding subscribe new_hub has
zero_subscribed = refl

cancel-close_hub_example :
    (after : Hub ℕ) × (close_hub one_sub ≡ some after) × (cancel 0 after ≡ none)
cancel-close_hub_example = cancel-close_hub 0 one_sub one_sub-IsValid zero_subscribed
