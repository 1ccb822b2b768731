-- ===== src/Mqtt/Client/Converge.antt =====
-- What one request to the broker leaves, where it is granted.

use wrtdeck.Mqtt.Client.Free.{register_shape}
use wrtdeck.Prelude.{
  if◌then◌else◌, is_some, length, Dict, get, put, delete, IsDistinct, Text, nat_key, text_key,
  has_text, ℕ, ◌≤◌, ◌<◌, ◌≡◌, refl, ap, ◌∙◌, Bool, true, false, Option, none, some, List, [], ◌∷◌,
  arith,
}
use wrtdeck.Mqtt.Topic.{valid_topic_filter}
use wrtdeck.Mqtt.Client.{Client, send}
use wrtdeck.Mqtt.Client.Register.{Registered, registered_as, register, unregister}
use wrtdeck.Mqtt.Client.Subscriptions.{
  insert, sort_texts, names, subscribe_registered, subscribe_one, unsubscribe_registered,
  unsubscribe_one,
}

has_text-insert : (t u : Text) (us : List Text) → has_text t (insert u us) ≡ has_text t (u ∷ us)
unfolding has_text insert
has_text-insert t u [] = refl
has_text-insert t u (v ∷ us) = ground (arith, has_text-insert t u us)

pub has_text-sort_texts : (t : Text) (us : List Text) → has_text t (sort_texts us) ≡ has_text t us
unfolding has_text sort_texts
has_text-sort_texts t [] = refl
has_text-sort_texts t (u ∷ us) = has_text-insert t u (sort_texts us) ∙ rw (has_text-sort_texts t us)

pub has_text-names : (t : Text) (m : Dict Text ℕ) → has_text t (names m) ≡ is_some (get t m)
unfolding has_text get
has_text-names t [] = refl
has_text-names t ((u, v) ∷ m) = ground (arith, has_text-names t m)

-- A fresh binding is put at the end, and taken away again.
delete-put : (k : ℕ) (v : Text) (m : Dict ℕ Text) → get k m ≡ none → delete k (put k v m) ≡ m
unfolding delete put get
delete-put k v [] h = ground arith
delete-put k v ((j, w) ∷ m) h = ground (arith, delete-put k v m)

-- What a request needs, and leaves.
pub record IsReady (c : Client) : Type 0 where
  pub up : c.connected ≡ true
  pub accepts : c.writable ≡ true
  pub distinct : IsDistinct c.pending
  pub room : length c.pending < 65535
  pub small : c.next_id ≤ 65535

-- The request, once its identifier is known.
subscribe_eq :
    (topic : Text) (qos : ℕ) (answer : Option ℕ) (c : Client) (p : Client × Registered)
    → valid_topic_filter topic ≡ true
    → register c ≡ p
    → subscribe_one topic qos answer c ≡ subscribe_registered topic qos answer p
unfolding subscribe_one
subscribe_eq topic qos answer c p valid e =
    ap (λ (b : Bool). if b then subscribe_registered topic qos answer (register c) else (c, false))
      valid
    ∙ ap (λ (q : Client × Registered). subscribe_registered topic qos answer q) e

unsubscribe_eq :
    (topic : Text) (answer : Option ℕ) (c : Client) (p : Client × Registered)
    → register c ≡ p
    → unsubscribe_one topic answer c ≡ unsubscribe_registered topic answer p
unfolding unsubscribe_one
unsubscribe_eq topic answer c p e =
    ap (λ (q : Client × Registered). unsubscribe_registered topic answer q) e

-- A request that was answered leaves the client ready, with the subscriptions given.
pub record Settled (c : Client) (applied : Dict Text ℕ) (result : Client × Bool) : Type 0 where
  pub is_done : result.1 ≡ true
  pub still_ready : IsReady result.0
  pub now_applied : result.0.applied ≡ applied
  pub same_wanted : result.0.wanted ≡ c.wanted

subscribe-Settled :
    (topic : Text) (qos code id : ℕ) (c : Client)
    → code < 0x80
    → IsReady c
    → id ≤ 65535
    → get id c.pending ≡ none
    → Settled c
        (put topic qos c.applied)
        (subscribe_registered topic qos (some code) (registered_as (id, true) c))
unfolding send unregister
subscribe-Settled topic qos code id c granted r small_id free =
    ground (arith, delete-put id [] c.pending, r.up, r.accepts, r.distinct, r.room)

unsubscribe-Settled :
    (topic : Text) (code id : ℕ) (c : Client)
    → IsReady c
    → id ≤ 65535
    → get id c.pending ≡ none
    → Settled c
        (delete topic c.applied)
        (unsubscribe_registered topic (some code) (registered_as (id, true) c))
unfolding send unregister
unsubscribe-Settled topic code id c r small_id free =
    ground (arith, delete-put id [] c.pending, r.up, r.accepts, r.distinct, r.room)

pub subscribe_one_lem :
    (topic : Text) (qos code : ℕ) (c : Client)
    → valid_topic_filter topic ≡ true
    → code < 0x80
    → IsReady c
    → Settled c (put topic qos c.applied) (subscribe_one topic qos (some code) c)
subscribe_one_lem topic qos code c valid granted r =
    let (id, e, small_id, free) = register_shape c r.up r.distinct r.room r.small in
    rw (subscribe_eq topic qos (some code) c (registered_as (id, true) c) valid e)
      (subscribe-Settled topic qos code id c granted r small_id free)

pub unsubscribe_one_lem :
    (topic : Text) (code : ℕ) (c : Client)
    → IsReady c
    → Settled c (delete topic c.applied) (unsubscribe_one topic (some code) c)
unsubscribe_one_lem topic code c r =
    let (id, e, small_id, free) = register_shape c r.up r.distinct r.room r.small in
    rw (unsubscribe_eq topic (some code) c (registered_as (id, true) c) e)
      (unsubscribe-Settled topic code id c r small_id free)
