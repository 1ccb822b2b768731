-- ===== src/Mqtt/Packet/Length.antt =====
-- The variable-length integer that counts the bytes of a packet: what is written, and read back.
use native.Mathlib.Nat.{pow-suc}
use wrtdeck.Mqtt.Packet.{
  bad_length, ok, err, length_loop, append_remaining_length, read_length_loop,
  read_remaining_length,
}
use wrtdeck.Prelude.{
  ltb, if◌then◌else◌, ltb→lt, ltb→ge, Bool-cases, bit_and_127, bit_and_128, bit_or_128, Text,
  nat_key, text_key, ℕ, zero, suc, ◌+◌, ◌*◌, ◌/◌, ◌%◌, ◌^◌, ◌≤◌, ◌<◌, bit_or, ◌≡◌, refl, sym, ap,
  ◌∙◌, inl, inr, true, [], ◌∷◌, ◌++◌, append-nil, append_assoc, arith,
}

length_loop_buf :
    (fuel : ℕ) (buf : Text) (n : ℕ) → length_loop fuel buf n ≡ buf ++ length_loop fuel [] n
unfolding length_loop
length_loop_buf zero buf n = sym (append-nil buf)
length_loop_buf (suc fuel) buf n = elim (Bool-cases (ltb 0 (n / 128))) [
  | inl more ↦ rw more (
      length_loop_buf fuel (buf ++ bit_or (n % 128) 0x80 ∷ []) (n / 128)
      ∙ append_assoc buf (bit_or (n % 128) 0x80 ∷ []) (length_loop fuel [] (n / 128))
      ∙ ap (λ t. buf ++ t) (sym (length_loop_buf fuel (bit_or (n % 128) 0x80 ∷ []) (n / 128))))
  | inr last ↦ rw last
]

pub append_remaining_length_buf :
    (buf : Text) (n : ℕ) → append_remaining_length buf n ≡ buf ++ append_remaining_length [] n
unfolding append_remaining_length
append_remaining_length_buf buf n = length_loop_buf (suc n) buf n

-- The bytes of the loop, one at a time.
length_loop_more :
    (fuel n : ℕ)
    → 128 ≤ n
    → length_loop (suc fuel) [] n ≡ (n % 128 + 128) ∷ length_loop fuel [] (n / 128)
unfolding length_loop
length_loop_more fuel n h =
    let more : ltb 0 (n / 128) ≡ true = ground arith in
    rw more (
      length_loop_buf fuel (bit_or (n % 128) 0x80 ∷ []) (n / 128)
      ∙ ap (λ (b : ℕ). b ∷ length_loop fuel [] (n / 128)) (bit_or_128 (n % 128) (omega arith)))

length_loop_last : (fuel n : ℕ) → n < 128 → length_loop (suc fuel) [] n ≡ n ∷ []
unfolding length_loop
length_loop_last fuel n h = ground arith

-- One round of the reader on either kind of byte.
read_more :
    (rounds multiplier value d : ℕ) (stream : Text)
    → d < 128
    → read_length_loop (suc rounds) multiplier value ((d + 128) ∷ stream)
      ≡ read_length_loop rounds (multiplier * 128) (value + d * multiplier) stream
unfolding read_length_loop
read_more rounds multiplier value d stream h =
    ground (arith, bit_and_127 (d + 128), bit_and_128 (d + 128))

read_last :
    (rounds multiplier value d : ℕ) (stream : Text)
    → d < 128
    → read_length_loop (suc rounds) multiplier value (d ∷ stream)
      ≡ ok (value + d * multiplier, stream)
unfolding read_length_loop
read_last rounds multiplier value d stream h = ground (arith, bit_and_127 d, bit_and_128 d)

split_digit : (n m v : ℕ) → v + n % 128 * m + n / 128 * (m * 128) ≡ v + n * m
split_digit n m v =
    let parts : n ≡ n / 128 * 128 + n % 128 = omega arith in
    omega (arith, ap (λ (t : ℕ). t * m) parts)

read_length_loop-length_loop :
    (fuel rounds multiplier value n : ℕ) (rest : Text)
    → n < fuel
    → n < 128 ^ suc rounds
    → read_length_loop (suc rounds) multiplier value (length_loop fuel [] n ++ rest)
      ≡ ok (value + n * multiplier, rest)
read_length_loop-length_loop zero rounds multiplier value n rest h k = absurd (omega arith)
read_length_loop-length_loop (suc fuel) zero multiplier value n rest h k =
    rw (length_loop_last fuel n (omega arith))
      (read_last zero multiplier value n rest (omega arith))
read_length_loop-length_loop (suc fuel) (suc rounds) multiplier value n rest h k =
    elim (Bool-cases (ltb n 128)) [
      | inl small ↦
          rw (length_loop_last fuel n (ltb→lt _ _ small))
            (read_last (suc rounds) multiplier value n rest (ltb→lt _ _ small))
      | inr large ↦ rw (length_loop_more fuel n (ltb→ge _ _ large)) (
          read_more (suc rounds) multiplier value (n % 128) (length_loop fuel [] (n / 128) ++ rest)
            (omega arith)
          ∙ read_length_loop-length_loop fuel rounds (multiplier * 128)
              (value + n % 128 * multiplier) (n / 128) rest
              (let big = ltb→ge _ _ large in omega arith) (omega (arith, pow-suc 128 (suc rounds)))
          ∙ ap (λ (t : ℕ). ok (t, rest)) (split_digit n multiplier value))
    ]

one_le_pow : (k : ℕ) → 1 ≤ 128 ^ k
one_le_pow zero = omega arith
one_le_pow (suc k) = omega (arith, one_le_pow k, pow-suc 128 k)

read_length_loop_long :
    (fuel rounds multiplier value n : ℕ) (rest : Text)
    → n < fuel
    → 128 ^ rounds ≤ n
    → read_length_loop rounds multiplier value (length_loop fuel [] n ++ rest) ≡ err bad_length
read_length_loop_long fuel zero multiplier value n rest h k = unfold read_length_loop in refl
read_length_loop_long zero (suc rounds) multiplier value n rest h k = absurd (omega arith)
read_length_loop_long (suc fuel) (suc rounds) multiplier value n rest h k =
    let grows = pow-suc 128 rounds in
    let positive = one_le_pow rounds in
    let large : 128 ≤ n = omega (arith, grows, positive) in
    rw (length_loop_more fuel n large) (
      read_more rounds multiplier value (n % 128) (length_loop fuel [] (n / 128) ++ rest)
        (omega arith)
      ∙ read_length_loop_long fuel rounds (multiplier * 128) (value + n % 128 * multiplier)
          (n / 128) rest (omega arith) (omega (arith, grows)))

-- A length below 128 ^ 4 is read back as it was written, and what follows it is left; a longer one
-- is written in more than four bytes, and the reader refuses it.
pub read_remaining_length-append :
    (n : ℕ) (rest : Text)
    → read_remaining_length (append_remaining_length [] n ++ rest)
      ≡ (if ltb n (128 ^ 4) then ok (n, rest) else err bad_length)
unfolding read_remaining_length append_remaining_length
read_remaining_length-append n rest = elim (Bool-cases (ltb n (128 ^ 4))) [
  | inl small ↦ rw small (
      read_length_loop-length_loop (suc n) 3 1 0 n rest (omega arith) (ltb→lt _ _ small)
      ∙ ap (λ (t : ℕ). ok (t, rest)) (omega arith))
  | inr long ↦ rw long (read_length_loop_long (suc n) 4 1 0 n rest (omega arith) (ltb→ge _ _ long))
]

length_loop_enough :
    (f g : ℕ) (buf : Text) (n : ℕ) → n < f → n < g → length_loop f buf n ≡ length_loop g buf n
unfolding length_loop
length_loop_enough zero g buf n h k = absurd (omega arith)
length_loop_enough (suc f) zero buf n h k = absurd (omega arith)
length_loop_enough (suc f) (suc g) buf n h k = elim (Bool-cases (ltb 0 (n / 128))) [
  | inl more ↦
      let positive : 0 < n / 128 = ltb→lt 0 (n / 128) more in
      rw more (
        length_loop_enough f g (buf ++ bit_or (n % 128) 0x80 ∷ []) (n / 128) (omega arith)
          (omega arith))
  | inr last ↦ rw last
]

-- The loop that writes a length comes to its end before its fuel does: with any fuel greater than
-- the length the bytes are the same, and they are those that `append_remaining_length` writes.
pub append_remaining_length_enough :
    (fuel : ℕ) (buf : Text) (n : ℕ)
    → n < fuel
    → length_loop fuel buf n ≡ append_remaining_length buf n
unfolding append_remaining_length
append_remaining_length_enough fuel buf n h = length_loop_enough fuel (suc n) buf n h (omega arith)
