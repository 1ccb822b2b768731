-- ===== src/Mqtt/Decoder/Reads.antt =====
-- What the decoder reads back of what the packets are made of, and that it never leaves its buffer.
use native.Mathlib.Nat.{add-zero}
use wrtdeck.Mqtt.Packet.{append_uint16, append_string}
use wrtdeck.Mqtt.Decoder.{Decoder, read_byte, read_uint16, read_bytes, read_string, read_rest}
use wrtdeck.Prelude.{
  ltb, bit_or-add, length, get_or, length-append, take-length_append, drop-length_append,
  get_or_append, Text, nat_key, text_key, ℕ, ◌+◌, ◌*◌, ◌/◌, ◌%◌, ◌^◌, ◌≤◌, ◌<◌, bit_or, ◌≡◌, refl,
  sym, ap, ◌∙◌, false, Option, some, [], ◌∷◌, ◌++◌, append_assoc, arith,
}

-- A decoder that has read `done` and still has `rest`.
abbrev pub decoder_at : Text → Text → Decoder
decoder_at done rest = record { buf = done ++ rest; pos = length done }

decoder_moved :
    (done bytes rest : Text) (n : ℕ)
    → length bytes ≡ n
    → record { buf = done ++ (bytes ++ rest); pos = length done + n }
      ≡ decoder_at (done ++ bytes) rest
decoder_moved done bytes rest n e =
    let moved : length done + n ≡ length (done ++ bytes) =
      omega (arith, e, length-append done bytes) in
    let same : done ++ (bytes ++ rest) ≡ (done ++ bytes) ++ rest =
      sym (append_assoc done bytes rest) in
    λ i. record { buf = same i; pos = moved i }

word_bytes : (v : ℕ) → v < 2 ^ 16 → bit_or (v / 256 % 256 * 256 % 2 ^ 16) (v % 256) ≡ v
word_bytes v h =
    let high : v / 256 % 256 * 256 % 2 ^ 16 ≡ v / 256 * 2 ^ 8 = omega arith in
    rw high (omega (arith, bit_or-add 8 (v / 256) (v % 256) (omega arith)))

module _ (done rest : Text) where
  first_elem : (a : ℕ) → get_or (done ++ a ∷ rest) (length done) 0 ≡ a
  first_elem a = rw (← add-zero (length done)) (get_or_append done (a ∷ rest) 0 0)

  second_elem : (a b : ℕ) → get_or (done ++ a ∷ b ∷ rest) (length done + 1) 0 ≡ b
  second_elem a b = get_or_append done (a ∷ b ∷ rest) 1 0

pub read_uint16-append :
    (done rest : Text) (v : ℕ)
    → v < 2 ^ 16
    → read_uint16 (decoder_at done (append_uint16 [] v ++ rest))
      ≡ (decoder_at (done ++ append_uint16 [] v) rest, some v)
unfolding read_uint16 append_uint16
read_uint16-append done rest v h =
    let bytes : Text = (v / 256 % 256) ∷ (v % 256) ∷ [] in
    let enough : ltb (length (done ++ (bytes ++ rest))) (length done + 2) ≡ false =
      ground (arith, length-append done (bytes ++ rest)) in
    rw
      (
        enough,
        first_elem done ((v % 256) ∷ rest) (v / 256 % 256),
        second_elem done rest (v / 256 % 256) (v % 256),
        word_bytes v h,
      )
      (ap (λ (d : Decoder). (d, some v)) (decoder_moved done bytes rest 2 refl))

pub read_bytes-append :
    (done bytes rest : Text)
    → read_bytes (some (length bytes)) (decoder_at done (bytes ++ rest))
      ≡ (decoder_at (done ++ bytes) rest, some bytes)
unfolding read_bytes
read_bytes-append done bytes rest =
    let enough : ltb (length (done ++ (bytes ++ rest))) (length done + length bytes) ≡ false =
      ground (arith, length-append done (bytes ++ rest), length-append bytes rest) in
    rw (enough, drop-length_append done (bytes ++ rest), take-length_append bytes rest)
      (ap (λ (d : Decoder). (d, some bytes)) (decoder_moved done bytes rest (length bytes) refl))

-- A string of fewer than 65536 bytes is read back as it was appended, wherever it stands in the
-- buffer, and the decoder then stands behind it.
pub read_string-append :
    (done s rest : Text)
    → length s < 2 ^ 16
    → read_string (decoder_at done (append_string [] s ++ rest))
      ≡ (decoder_at (done ++ append_string [] s) rest, some s)
unfolding read_string append_string
read_string-append done s rest h =
    let n = length s in
    let fits : n % 2 ^ 16 ≡ n = omega arith in
    let prefix = append_uint16 [] n in
    rw fits (
      ap (λ (p : Decoder × Option ℕ). read_bytes p.1 p.0) (read_uint16-append done (s ++ rest) n h)
      ∙ read_bytes-append (done ++ prefix) s rest
      ∙ ap (λ (t : Text). (decoder_at t rest, some s)) (append_assoc done prefix s))

-- The reads stay within the buffer, which they leave as it is, and never go back.
pub record Advances (d e : Decoder) : Type 0 where
  pub same_buf : e.buf ≡ d.buf
  pub forward : d.pos ≤ e.pos
  pub within : e.pos ≤ length e.buf

pub read_byte-Advances : (d : Decoder) → d.pos ≤ length d.buf → Advances d (read_byte d).0
unfolding read_byte
read_byte-Advances d h = ground arith

pub read_uint16-Advances : (d : Decoder) → d.pos ≤ length d.buf → Advances d (read_uint16 d).0
unfolding read_uint16
read_uint16-Advances d h = ground arith

read_bytes-Advances :
    (n : Option ℕ) (d : Decoder) → d.pos ≤ length d.buf → Advances d (read_bytes n d).0
unfolding read_bytes
read_bytes-Advances n d h = ground arith

pub read_string-Advances : (d : Decoder) → d.pos ≤ length d.buf → Advances d (read_string d).0
unfolding read_string
read_string-Advances d h =
    ground
      (arith, read_uint16-Advances d h, read_bytes-Advances (read_uint16 d).1 (read_uint16 d).0)

pub read_rest-Advances : (d : Decoder) → d.pos ≤ length d.buf → Advances d (read_rest d).0
unfolding read_rest
read_rest-Advances d h = ground arith
