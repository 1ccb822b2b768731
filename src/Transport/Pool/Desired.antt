-- ===== src/Transport/Pool/Desired.antt =====
-- The subscriptions that a connection asks its broker for.
use wrtdeck.Prelude.{
  if◌then◌else◌, Bool-cases, get-put, Dict, get, put, Text, text_eq, text_eq_iff, nat_key, text_key,
  ℤ, pos, negsuc, ltz, ℕ, ◌≡◌, refl, sym, ap, ◌∙◌, ◌⊎◌, inl, inr, Bool, true, false, Option, none,
  some, [], ◌∷◌, arith,
}
use wrtdeck.Transport.Pool.{Subscription, Conn, raises, desired_from, desired_locked}

-- The greater of two qualities, where there are two.
abbrev pub higher : Option ℤ → Option ℤ → Option ℤ
higher none b = b
higher (some p) none = some p
higher (some p) (some q) = if ltz p q then some q else some p

-- The highest quality of the subscriptions to a topic.
unfoldable pub highest : Text → Dict ℕ Subscription → Option ℤ
highest topic [] = none
highest topic ((id, sub) ∷ subs) =
    let rest = highest topic subs in
    if text_eq sub.topic topic then higher (some sub.qos) rest else rest

higher-none : (o : Option ℤ) → higher o none ≡ o
higher-none none = refl
higher-none (some p) = refl

none-higher : (o : Option ℤ) → higher none o ≡ o
none-higher o = refl

higher_assoc : (a b c : Option ℤ) → higher (higher a b) c ≡ higher a (higher b c)
higher_assoc none b c = refl
higher_assoc (some p) none c = refl
higher_assoc (some p) (some q) none = higher-none (higher (some p) (some q))
higher_assoc (some (pos p)) (some (pos q)) (some (pos r)) = ground arith
higher_assoc (some (pos p)) (some (pos q)) (some (negsuc r)) = ground arith
higher_assoc (some (pos p)) (some (negsuc q)) (some (pos r)) = ground arith
higher_assoc (some (pos p)) (some (negsuc q)) (some (negsuc r)) = ground arith
higher_assoc (some (negsuc p)) (some (pos q)) (some (pos r)) = ground arith
higher_assoc (some (negsuc p)) (some (pos q)) (some (negsuc r)) = ground arith
higher_assoc (some (negsuc p)) (some (negsuc q)) (some (pos r)) = ground arith
higher_assoc (some (negsuc p)) (some (negsuc q)) (some (negsuc r)) = ground arith

raises_lem :
    (qos : ℤ) (old : Option ℤ) → (if raises qos old then some qos else old) ≡ higher old (some qos)
raises_lem qos none = refl
raises_lem qos (some old) = refl

module _ (topic : Text) (sub : Subscription) (out : Dict Text ℤ) where
  abbrev next_out : Bool → Dict Text ℤ
  next_out b = if b then put sub.topic sub.qos out else out

  -- One subscription raises the quality of its own topic.
  get-next_out :
      (b : Bool)
      → get topic (next_out b) ≡ (
          if text_eq sub.topic topic
          then (if b then some sub.qos else get topic out)
          else get topic out)
  get-next_out true = get-put topic sub.topic sub.qos out
  get-next_out false = elim (Bool-cases (text_eq sub.topic topic)) [
    | inl h ↦ rw h refl
    | inr h ↦ rw h refl
  ]

  raised :
      get topic (next_out (raises sub.qos (get sub.topic out)))
      ≡ (if text_eq sub.topic topic then higher (get topic out) (some sub.qos) else get topic out)
  raised =
      get-next_out (raises sub.qos (get sub.topic out))
      ∙ same_topic (Bool-cases (text_eq sub.topic topic))
    where
      same_topic :
          (text_eq sub.topic topic ≡ true) ⊎ (text_eq sub.topic topic ≡ false)
          → (if text_eq sub.topic topic
              then (if raises sub.qos (get sub.topic out) then some sub.qos else get topic out)
              else get topic out)
            ≡ (if text_eq sub.topic topic
                then higher (get topic out) (some sub.qos)
                else get topic out)
      same_topic (inr h) = rw h refl
      same_topic (inl h) =
          let e : get sub.topic out ≡ get topic out =
            ap (λ (t : Text). get t out) ((text_eq_iff sub.topic topic).0 h) in
          rw h (
            ap (λ (o : Option ℤ). if raises sub.qos o then some sub.qos else get topic out) e
            ∙ raises_lem sub.qos (get topic out))

get-desired_from :
    (topic : Text) (out : Dict Text ℤ) (subs : Dict ℕ Subscription)
    → get topic (desired_from out subs) ≡ higher (get topic out) (highest topic subs)
unfolding desired_from highest
get-desired_from topic out [] = sym (higher-none (get topic out))
get-desired_from topic out ((id, sub) ∷ subs) =
    get-desired_from topic (next_out topic sub out (raises sub.qos (get sub.topic out))) subs
    ∙ ap (λ (o : Option ℤ). higher o (highest topic subs)) (raised topic sub out)
    ∙ one_more (text_eq sub.topic topic)
  where
    one_more :
        (b : Bool)
        → higher
            (if b then higher (get topic out) (some sub.qos) else get topic out)
            (highest topic subs)
          ≡ higher
              (get topic out)
              (if b then higher (some sub.qos) (highest topic subs) else highest topic subs)
    one_more true = higher_assoc (get topic out) (some sub.qos) (highest topic subs)
    one_more false = refl

-- What a connection asks its broker for under a topic is the highest quality of the subscriptions
-- to that topic, and nothing where there is none.
pub get-desired_locked :
    (topic : Text) (c : Conn) → get topic (desired_locked c) ≡ highest topic c.subs
unfolding desired_locked get
get-desired_locked topic c = get-desired_from topic [] c.subs ∙ none-higher (highest topic c.subs)
