-- ===== src/Mqtt/Client/Reconcile.antt =====
-- That the subscriptions of a connection become those that are wanted.
use wrtdeck.Prelude.{
  ltb, if◌then◌else◌, ltb→lt, ==_iff, Option-cases, is_some, kept, get-put, get-delete, get-keep,
  All, get, put, delete, keep, IsDistinct, Text, text_eq, text_eq_iff, nat_key, text_key,
  text_eq_refl, has_text, ℕ, ◌<◌, ◌≡◌, refl, sym, ap, ◌∙◌, inl, inr, Bool, true, false, not, Option,
  none, some, List, [], ◌∷◌, arith,
}
use wrtdeck.Mqtt.Topic.{valid_topic_filter}
use wrtdeck.Mqtt.Client.{Client}
use wrtdeck.Mqtt.Client.Subscriptions.{
  sort_texts, qos_or_zero, wanted_qos, Answers, subscribe_one, unsubscribe_one, subscribe_all,
  unsubscribe_all, is_applied, to_add, to_remove, reconcile,
}
use wrtdeck.Mqtt.Client.Converge.{
  has_text-sort_texts, has_text-names, IsReady, Settled, subscribe_one_lem, unsubscribe_one_lem,
}

abbrev pub is_granted : Option ℕ → Bool
is_granted none = false
is_granted (some code) = ltb code 0x80

-- The loops over `topics`, where every request is granted: each of the topics is bound to `value`.
record Looped (topics : List Text) (value : Text → Option ℕ) (c : Client) (result : Client × Bool)
    : Type 0 where
  is_done : result.1 ≡ true
  still_ready : IsReady result.0
  each :
      (t : Text) → get t result.0.applied ≡ (if has_text t topics then value t else get t c.applied)
  same_wanted : result.0.wanted ≡ c.wanted

wanted_value : Client → Text → Option ℕ
wanted_value c t = some (wanted_qos t c)

dropped_value : Text → Option ℕ
dropped_value t = none

Looped-nothing : (value : Text → Option ℕ) (c : Client) → IsReady c → Looped [] value c (c, true)
unfolding has_text
Looped-nothing value c r = record {
  is_done = refl;
  still_ready = r;
  each = λ t. refl;
  same_wanted = refl;
}

Looped-first :
    (topic : Text) (topics : List Text) (value : Text → Option ℕ) (c d : Client)
    (rest : Client × Bool)
    → d.wanted ≡ c.wanted
    → ((t : Text) → get t d.applied ≡ (if text_eq topic t then value t else get t c.applied))
    → Looped topics value d rest
    → Looped (topic ∷ topics) value c rest
unfolding has_text
Looped-first topic topics value c d rest same first l = record {
  is_done = l.is_done;
  still_ready = l.still_ready;
  each = λ t. l.each t ∙ ground (arith, first t);
  same_wanted = l.same_wanted ∙ same;
}

put_value :
    (topic t : Text) (c d : Client)
    → d.applied ≡ put topic (wanted_qos topic c) c.applied
    → get t d.applied ≡ (if text_eq topic t then wanted_value c t else get t c.applied)
unfolding wanted_value
put_value topic t c d e =
    rw (e, get-put t topic (wanted_qos topic c) c.applied) (ground (arith, text_eq_iff topic t))

same_value : (c d : Client) → d.wanted ≡ c.wanted → wanted_value d ≡ wanted_value c
unfolding wanted_value wanted_qos
same_value c d e = rw e

granted_code : (o : Option ℕ) → is_granted o ≡ true → (code : ℕ) × (o ≡ some code) × (code < 0x80)
granted_code none h = cc h
granted_code (some code) h = (code, refl, ltb→lt code 0x80 h)

module _ (grants drops : Answers) (granted : (t : Text) → is_granted (grants t) ≡ true)
    (dropped : (t : Text) → is_some (drops t) ≡ true) where
  subscribe_all_lem :
      (topics : List Text) (c : Client)
      → All (λ t. valid_topic_filter t ≡ true) topics
      → IsReady c
      → Looped topics (wanted_value c) c (subscribe_all topics grants c)
  unfolding subscribe_all
  subscribe_all_lem [] c valid r = Looped-nothing (wanted_value c) c r
  subscribe_all_lem (topic ∷ topics) c (here, valid) r =
      let (code, e, low) = granted_code (grants topic) (granted topic) in
      let s : Settled c (put topic (wanted_qos topic c) c.applied)
          (subscribe_one topic (wanted_qos topic c) (grants topic) c) =
        rw e (subscribe_one_lem topic (wanted_qos topic c) code c here low r) in
      let d = (subscribe_one topic (wanted_qos topic c) (grants topic) c).0 in
      let rest : Looped topics (wanted_value c) d (subscribe_all topics grants d) =
        rw (same_value c d s.same_wanted) at (subscribe_all_lem topics d valid s.still_ready) in
      rw s.is_done (
        Looped-first topic topics (wanted_value c) c d (subscribe_all topics grants d) s.same_wanted
          (λ t. put_value topic t c d s.now_applied) rest)

  unsubscribe_all_lem :
      (topics : List Text) (c : Client)
      → IsReady c
      → Looped topics dropped_value c (unsubscribe_all topics drops c)
  unfolding unsubscribe_all dropped_value
  unsubscribe_all_lem [] c r = Looped-nothing dropped_value c r
  unsubscribe_all_lem (topic ∷ topics) c r = elim (Option-cases (drops topic)) [
    | inl e ↦ let bad : false ≡ true = rw e at (dropped topic) in cc bad
    | inr (code, e) ↦
        let s : Settled c (delete topic c.applied) (unsubscribe_one topic (drops topic) c) =
          rw e (unsubscribe_one_lem topic code c r) in
        let d = (unsubscribe_one topic (drops topic) c).0 in
        rw s.is_done (
          Looped-first topic topics dropped_value c d (unsubscribe_all topics drops d) s.same_wanted
            (λ t. rw (s.now_applied, get-delete t topic c.applied))
            (unsubscribe_all_lem topics d s.still_ready))
  ]

  All-of_has :
      (P : Text → Type 0) (topics : List Text)
      → ((t : Text) → has_text t topics ≡ true → P t)
      → All P topics
  unfolding has_text
  All-of_has P [] h = tt
  All-of_has P (topic ∷ topics) h = (
    h topic (ground (arith, text_eq_refl topic)),
    All-of_has P topics (λ t e. h t (ground (arith, e))),
  )

  added :
      (t : Text) (c : Client)
      → IsDistinct c.wanted
      → has_text t (sort_texts (to_add c))
        ≡ is_some
            (kept (λ topic qos. not (is_applied (get topic c.applied) qos)) t (get t c.wanted))
  added t c d =
      has_text-sort_texts t (to_add c)
      ∙ has_text-names t (keep (λ topic qos. not (is_applied (get topic c.applied) qos)) c.wanted)
      ∙ ap (λ (o : Option ℕ). is_some o)
          (get-keep (λ topic qos. not (is_applied (get topic c.applied) qos)) t c.wanted d)

  removed :
      (t : Text) (c : Client)
      → IsDistinct c.applied
      → has_text t (sort_texts (to_remove c))
        ≡ is_some (kept (λ topic qos. not (is_some (get topic c.wanted))) t (get t c.applied))
  removed t c d =
      has_text-sort_texts t (to_remove c)
      ∙ has_text-names t (keep (λ topic qos. not (is_some (get topic c.wanted))) c.applied)
      ∙ ap (λ (o : Option ℕ). is_some o)
          (get-keep (λ topic qos. not (is_some (get topic c.wanted))) t c.applied d)

  settled_value :
      (t : Text) (c : Client) (a w : Option ℕ)
      → get t c.applied ≡ a
      → get t c.wanted ≡ w
      → (if is_some (kept (λ topic qos. not (is_some (get topic c.wanted))) t a)
          then none
          else if is_some (kept (λ topic qos. not (is_applied (get topic c.applied) qos)) t w)
          then some (qos_or_zero w)
          else a)
        ≡ w
  settled_value t c none none ea ew = refl
  settled_value t c (some x) none ea ew = ground (arith, ew)
  settled_value t c none (some q) ea ew = ground (arith, ea)
  settled_value t c (some x) (some q) ea ew = ground (arith, ew, ea, ==_iff x q)

  reconcile_eq :
      (c : Client)
      → c.connected ≡ true
      → (subscribe_all (sort_texts (to_add c)) grants c).1 ≡ true
      → reconcile grants drops c
        ≡ unsubscribe_all
            (sort_texts (to_remove c))
            drops
            (subscribe_all (sort_texts (to_add c)) grants c).0
  unfolding reconcile
  reconcile_eq c up done =
      let first = subscribe_all (sort_texts (to_add c)) grants c in
      let last = unsubscribe_all (sort_texts (to_remove c)) drops first.0 in
      ap (λ (b : Bool). if b then (if first.1 then last else (first.0, false)) else (c, true)) up
      ∙ ap (λ (b : Bool). if b then last else (first.0, false)) done

  wanted_of :
      (t : Text) (c : Client) (w : Option ℕ)
      → is_some (kept (λ topic qos. not (is_applied (get topic c.applied) qos)) t w) ≡ true
      → is_some w ≡ true
  wanted_of t c none h = h
  wanted_of t c (some q) h = refl

  -- Where the client is connected, writable and has a free identifier, both maps of subscriptions
  -- have distinct keys, every wanted topic is a valid filter, and the broker grants every request,
  -- `reconcile` succeeds, and the subscriptions that are applied are then those that are wanted,
  -- each with its level.
  pub reconcile_lem :
      (c : Client)
      → IsReady c
      → IsDistinct c.wanted
      → IsDistinct c.applied
      → ((t : Text) → is_some (get t c.wanted) ≡ true → valid_topic_filter t ≡ true)
      → ((reconcile grants drops c).1 ≡ true)
        × ((t : Text) → get t (reconcile grants drops c).0.applied ≡ get t c.wanted)
        × ((reconcile grants drops c).0.wanted ≡ c.wanted)
  unfolding wanted_value dropped_value wanted_qos
  reconcile_lem c r dw da valid =
      let add = sort_texts (to_add c) in
      let remove = sort_texts (to_remove c) in
      let all_valid : All (λ t. valid_topic_filter t ≡ true) add =
        All-of_has (λ t. valid_topic_filter t ≡ true) add
          (λ t h. valid t (wanted_of t c (get t c.wanted) (sym (added t c dw) ∙ h))) in
      let a = subscribe_all_lem add c all_valid r in
      let d = (subscribe_all add grants c).0 in
      let u = unsubscribe_all_lem remove d a.still_ready in
      rw (reconcile_eq c r.up a.is_done) (
        u.is_done,
        λ t.
            u.each t
            ∙ rw (a.each t, removed t c da, added t c dw)
                (settled_value t c (get t c.applied) (get t c.wanted) refl refl),
        u.same_wanted ∙ a.same_wanted,
      )
