-- ===== src/Mqtt/Packet/Frames.antt =====
-- A packet on the wire: its fixed header, its length and its body.
use wrtdeck.Mqtt.Packet.{
  bad_length, ok, err, append_remaining_length, read_byte_from, read_full, read_packet, wrap,
}
use wrtdeck.Mqtt.Packet.Length.{append_remaining_length_buf, read_remaining_length-append}
use wrtdeck.Prelude.{
  ltb, leb, if◌then◌else◌, Bool-cases, bit_or-add, bit_and_15, length, length-append,
  take-length_append, drop-length_append, Text, nat_key, text_key, ℕ, ◌+◌, ◌*◌, ◌%◌, ◌^◌, ◌<◌,
  bit_or, ◌≡◌, inl, inr, true, [], ◌∷◌, ◌++◌, append_assoc, arith,
}

abbrev pub max_length : ℕ
max_length = 128 ^ 4

head_byte : (p f : ℕ) → p < 16 → f < 16 → bit_or (p * 16 % 256) f ≡ p * 16 + f
head_byte p f hp hf =
    let whole : p * 16 % 256 ≡ p * 16 = omega arith in rw whole (bit_or-add 4 p f hf)

wrap_shape :
    (p f : ℕ) (body : Text)
    → p < 16
    → f < 16
    → wrap p f body ≡ (p * 16 + f) ∷ append_remaining_length [] (length body) ++ body
unfolding wrap
wrap_shape p f body hp hf =
    rw (
      append_remaining_length_buf (bit_or (p * 16 % 256) f ∷ []) (length body),
      head_byte p f hp hf,
    )

read_full-append : (body rest : Text) → read_full (length body) (body ++ rest) ≡ ok (body, rest)
unfolding read_full
read_full-append body rest =
    let enough : leb (length body) (length (body ++ rest)) ≡ true =
      ground (arith, length-append body rest) in
    rw (enough, take-length_append body rest, drop-length_append body rest)

-- A type and flags below 16 and any body, written by `wrap`, are read back as they were, and the
-- bytes behind the packet are left, whatever they are; a body of 128 ^ 4 bytes or more is refused
-- by the reader as too long.
pub read_packet-wrap :
    (p f : ℕ) (body rest : Text)
    → p < 16
    → f < 16
    → read_packet (wrap p f body ++ rest) ≡ (
        if ltb (length body) max_length
        then ok (record { ptype = p; flags = f; body = body }, rest)
        else err bad_length)
unfolding read_packet read_byte_from
read_packet-wrap p f body rest hp hf =
    rw
      (
        wrap_shape p f body hp hf,
        append_assoc (append_remaining_length [] (length body)) body rest,
        read_remaining_length-append (length body) (body ++ rest),
      )
      (elim (Bool-cases (ltb (length body) max_length)) [
        | inl small ↦
            rw (small, read_full-append body rest) (ground (arith, bit_and_15 (p * 16 + f)))
        | inr long ↦ rw long
      ])
