-- ===== src/Mqtt/Client/Subscriptions.antt =====
-- internal/mqtt/subscribe.go: the subscriptions that are wanted and those that the broker has granted.
use wrtdeck.Prelude.{
  ltb, leb, ◌==◌, if◌then◌else◌, is_some, Dict, get, put, delete, keep, Text, nat_key, text_key, ℕ,
  Bool, true, false, not, Option, none, some, List, [], ◌∷◌,
}
use wrtdeck.Mqtt.Build.{build_subscribe, build_unsubscribe}
use wrtdeck.Mqtt.Topic.{valid_topic_filter}
use wrtdeck.Mqtt.Client.{Client, send}
use wrtdeck.Mqtt.Client.Register.{
  Registered, not_connected, exhausted, registered, register, unregister,
}

-- `sort.Strings`, by insertion.
unfoldable pub text_leb : Text → Text → Bool
text_leb [] t = true
text_leb (c ∷ s) [] = false
text_leb (c ∷ s) (d ∷ t) =
    let rest = text_leb s t in if ltb c d then true else if c == d then rest else false

unfoldable pub insert : Text → List Text → List Text
unfolding text_leb
insert t [] = t ∷ []
insert t (u ∷ us) = let rest = insert t us in if text_leb t u then t ∷ u ∷ us else u ∷ rest

unfoldable pub sort_texts : List Text → List Text
unfolding insert
sort_texts [] = []
sort_texts (t ∷ ts) = insert t (sort_texts ts)

abbrev pub names : Dict Text ℕ → List Text
names [] = []
names ((topic, qos) ∷ m) = topic ∷ names m

unfoldable pub wanted_topics : Client → List Text
unfolding sort_texts
wanted_topics c = sort_texts (names c.wanted)

abbrev pub qos_or_zero : Option ℕ → ℕ
qos_or_zero none = 0
qos_or_zero (some qos) = qos

unfoldable pub wanted_qos : Text → Client → ℕ
wanted_qos topic c = qos_or_zero (get topic c.wanted)

-- What the broker answers to the request: the code that `wait` returns, or `none` for its error.
abbrev pub Answers : Type 0
Answers = Text → Option ℕ

abbrev pub subscribed_as : Text → ℕ → ℕ → Option ℕ → Client → Client × Bool
subscribed_as topic qos id none c = (unregister id c, false)
subscribed_as topic qos id (some code) c =
    if leb 0x80 code
    then (unregister id c, false)
    else (unregister id (record c { applied = put topic qos c.applied }), true)

abbrev pub subscribe_sent : Text → ℕ → ℕ → Option ℕ → Client × Bool → Client × Bool
subscribe_sent topic qos id answer (c, sent) =
    if sent then subscribed_as topic qos id answer c else (unregister id c, false)

abbrev pub subscribe_registered : Text → ℕ → Option ℕ → Client × Registered → Client × Bool
subscribe_registered topic qos answer (c, registered id) =
    subscribe_sent topic qos id answer (send (build_subscribe id topic qos) c)
subscribe_registered topic qos answer (c, not_connected) = (c, false)
subscribe_registered topic qos answer (c, exhausted) = (c, false)

-- `subscribe_one`, with the answer of the broker. Nothing else is done to the client meanwhile.
unfoldable pub subscribe_one : Text → ℕ → Option ℕ → Client → Client × Bool
unfolding valid_topic_filter register send build_subscribe unregister
subscribe_one topic qos answer c =
    if valid_topic_filter topic
    then subscribe_registered topic qos answer (register c)
    else (c, false)

abbrev pub unsubscribed_as : Text → ℕ → Option ℕ → Client → Client × Bool
unsubscribed_as topic id none c = (unregister id c, false)
unsubscribed_as topic id (some code) c =
    (unregister id (record c { applied = delete topic c.applied }), true)

abbrev pub unsubscribe_sent : Text → ℕ → Option ℕ → Client × Bool → Client × Bool
unsubscribe_sent topic id answer (c, sent) =
    if sent then unsubscribed_as topic id answer c else (unregister id c, false)

abbrev pub unsubscribe_registered : Text → Option ℕ → Client × Registered → Client × Bool
unsubscribe_registered topic answer (c, registered id) =
    unsubscribe_sent topic id answer (send (build_unsubscribe id topic) c)
unsubscribe_registered topic answer (c, not_connected) = (c, false)
unsubscribe_registered topic answer (c, exhausted) = (c, false)

unfoldable pub unsubscribe_one : Text → Option ℕ → Client → Client × Bool
unfolding register send build_unsubscribe unregister
unsubscribe_one topic answer c = unsubscribe_registered topic answer (register c)

-- The loops of `reconcile`, which stop at the first error.
unfoldable pub subscribe_all : List Text → Answers → Client → Client × Bool
subscribe_all [] answers c = (c, true)
subscribe_all (topic ∷ topics) answers c =
    let (c', done) = subscribe_one topic (wanted_qos topic c) (answers topic) c in
    let rest = subscribe_all topics answers c' in if done then rest else (c', false)

unfoldable pub unsubscribe_all : List Text → Answers → Client → Client × Bool
unsubscribe_all [] answers c = (c, true)
unsubscribe_all (topic ∷ topics) answers c =
    let (c', done) = unsubscribe_one topic (answers topic) c in
    let rest = unsubscribe_all topics answers c' in if done then rest else (c', false)

-- `applied, ok := c.applied[topic]; ok && applied == qos`
abbrev pub is_applied : Option ℕ → ℕ → Bool
is_applied none qos = false
is_applied (some applied) qos = applied == qos

abbrev pub to_add : Client → List Text
to_add c = names (keep (λ topic qos. not (is_applied (get topic c.applied) qos)) c.wanted)

abbrev pub to_remove : Client → List Text
to_remove c = names (keep (λ topic qos. not (is_some (get topic c.wanted))) c.applied)

unfoldable pub reconcile : Answers → Answers → Client → Client × Bool
unfolding sort_texts subscribe_all unsubscribe_all
reconcile grants drops c =
    let remove = sort_texts (to_remove c) in
    let (c', done) = subscribe_all (sort_texts (to_add c)) grants c in
    if c.connected
    then (if done then unsubscribe_all remove drops c' else (c', false))
    else (c, true)

unfoldable pub set_subscriptions : Dict Text ℕ → Answers → Answers → Client → Client × Bool
unfolding reconcile
set_subscriptions desired grants drops c = reconcile grants drops (record c { wanted = desired })
