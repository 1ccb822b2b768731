-- ===== src/Mqtt/Packet/Truncated.antt =====
-- Reading a packet whose bytes have not all arrived.

use wrtdeck.Mqtt.Packet.Frames.{max_length, read_packet-wrap}
use wrtdeck.Mqtt.Packet.{
  eof, bad_length, Result, ok, err, ◌>>=◌, read_length_loop, read_remaining_length, read_byte_from,
  read_full, read_packet, wrap,
}
use wrtdeck.Prelude.{
  leb, ◌==◌, lt→ltb, leb→le, Bool-cases, length, take, drop, length-append, Text, nat_key, text_key,
  ℕ, zero, suc, ◌+◌, ◌*◌, ◌≤◌, ◌<◌, bit_and, ◌≡◌, refl, ap, ◌∙◌, ◌≢◌, ◌⊎◌, inl, inr, true, [], ◌∷◌,
  ◌++◌, append-nil, arith,
}

-- More bytes behind the stream, where a read has answered.
abbrev extend {ℓ} : {A : Type ℓ} → Text → Result (A × Text) → Result (A × Text)
extend more (ok (a, rest)) = ok (a, rest ++ more)
extend more (err e) = err e

read_length_loop-append :
    (rounds multiplier value : ℕ) (stream more : Text)
    → read_length_loop rounds multiplier value stream ≢ err eof
    → read_length_loop rounds multiplier value (stream ++ more)
      ≡ extend more (read_length_loop rounds multiplier value stream)
unfolding read_length_loop
read_length_loop-append zero multiplier value stream more h = refl
read_length_loop-append (suc rounds) multiplier value [] more h = absurd (h refl)
read_length_loop-append (suc rounds) multiplier value (b ∷ stream) more h =
    elim (Bool-cases (bit_and b 0x80 == 0)) [
      | inl last ↦ rw last
      | inr inner ↦ rw inner (
          read_length_loop-append rounds (multiplier * 128) (value + bit_and b 0x7f * multiplier)
            stream more (rw inner at h))
    ]

take-append : (n : ℕ) (xs ys : Text) → n ≤ length xs → take n (xs ++ ys) ≡ take n xs
take-append zero xs ys h = refl
take-append (suc n) [] ys h = absurd (omega arith)
take-append (suc n) (x ∷ xs) ys h = ap (◌∷◌ x) (take-append n xs ys (omega arith))

drop-append : (n : ℕ) (xs ys : Text) → n ≤ length xs → drop n (xs ++ ys) ≡ drop n xs ++ ys
drop-append zero xs ys h = refl
drop-append (suc n) [] ys h = absurd (omega arith)
drop-append (suc n) (x ∷ xs) ys h = drop-append n xs ys (omega arith)

read_full_more :
    (n : ℕ) (stream more : Text)
    → read_full n stream ≢ err eof
    → read_full n (stream ++ more) ≡ extend more (read_full n stream)
unfolding read_full
read_full_more n stream more h = elim (Bool-cases (leb n (length stream))) [
  | inl enough ↦
      let longer : leb n (length (stream ++ more)) ≡ true =
        ground (arith, length-append stream more) in
      rw (
        enough,
        longer,
        take-append n stream more (leb→le _ _ enough),
        drop-append n stream more (leb→le _ _ enough),
      )
  | inr short ↦ absurd (h (rw short))
]

abbrev Extends {ℓ} : {A : Type ℓ} → Text → Result (A × Text) → Result (A × Text) → Type ℓ
Extends more m longer = m ≢ err eof → longer ≡ extend more m

-- Two reads in a row.
Extends-bind :
    {A B : Type 0} (more : Text) (m longer : Result (A × Text)) (f : A × Text → Result (B × Text))
    → Extends more m longer
    → ((a : A) (rest : Text) → Extends more (f (a, rest)) (f (a, rest ++ more)))
    → Extends more (m >>= f) (longer >>= f)
Extends-bind more (ok (a, rest)) longer f first then_f h = rw (first (λ e. cc)) (then_f a rest h)
Extends-bind more (err eof) longer f first then_f h = absurd (h refl)
Extends-bind more (err bad_length) longer f first then_f h = rw (first (λ e. cc))

-- A read that does not want for bytes answers the same with more of them behind.
read_packet-append :
    (stream more : Text)
    → read_packet stream ≢ err eof
    → read_packet (stream ++ more) ≡ extend more (read_packet stream)
unfolding read_packet read_byte_from read_remaining_length
read_packet-append [] more h = absurd (h refl)
read_packet-append (b ∷ stream) more h =
    Extends-bind more (read_remaining_length stream) (read_remaining_length (stream ++ more)) _
      (read_length_loop-append 4 1 0 stream more)
      (λ size rest.
        Extends-bind more (read_full size rest) (read_full size (rest ++ more)) _
          (read_full_more size rest more) (λ body last done. refl))
      h

Result-cases {ℓ} :
    {A : Type ℓ} (r : Result A) → (r ≡ err eof) ⊎ (r ≡ err bad_length) ⊎ ((a : A) × (r ≡ ok a))
Result-cases (ok a) = inr (inr (a, refl))
Result-cases (err eof) = inl refl
Result-cases (err bad_length) = inr (inl refl)

unwrapped :
    (p f : ℕ) (body : Text)
    → p < 16
    → f < 16
    → length body < max_length
    → read_packet (wrap p f body) ≡ ok (record { ptype = p; flags = f; body = body }, [])
unwrapped p f body hp hf small =
    rw (append-nil, lt→ltb (length body) max_length small) at (read_packet-wrap p f body [] hp hf)

-- On every proper prefix of a packet that `wrap` wrote, with a type and flags below 16 and a body
-- below 128 ^ 4 bytes, the reader reports that the stream ended.
pub read_packet_truncated :
    (p f x : ℕ) (body front back : Text)
    → p < 16
    → f < 16
    → length body < max_length
    → wrap p f body ≡ front ++ x ∷ back
    → read_packet front ≡ err eof
read_packet_truncated p f x body front back hp hf small e =
    let whole : read_packet (front ++ x ∷ back)
        ≡ ok (record { ptype = p; flags = f; body = body }, []) =
      rw (← e) (unwrapped p f body hp hf small) in
    elim (Result-cases (read_packet front)) [
      | inl short ↦ short
      | inr (inl bad) ↦
          let same = read_packet-append front (x ∷ back) (rw bad (λ q. cc)) in
          let refused : read_packet (front ++ x ∷ back) ≡ err bad_length =
            same ∙ ap (extend (x ∷ back)) bad in
          cc (whole, refused)
      | inr (inr ((pkt, rest), good)) ↦
          let same = read_packet-append front (x ∷ back) (rw good (λ q. cc)) in
          let taken : read_packet (front ++ x ∷ back) ≡ ok (pkt, rest ++ x ∷ back) =
            same ∙ ap (extend (x ∷ back)) good in
          let none_left : rest ++ x ∷ back ≡ [] = cc (whole, taken) in
          absurd (omega (arith, ap length none_left, length-append rest (x ∷ back)))
    ]
