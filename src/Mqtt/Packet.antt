-- ===== src/Mqtt/Packet.antt =====
-- internal/mqtt/packet.go: the control packets on the wire. A byte is a number below 256, a string
-- the list of its bytes, and a stream the bytes that are still to be read.
pub mod Length
pub mod Frames
pub mod Truncated
use wrtdeck.Prelude.{
  ltb, leb, ◌==◌, if◌then◌else◌, length, take, drop, Text, nat_key, text_key, ℕ, zero, suc, ◌+◌,
  ◌*◌, ◌/◌, ◌%◌, ◌^◌, ◌<◌, bit_and, bit_or, [], ◌∷◌, ◌++◌,
}

abbrev pub packet_connect : ℕ
packet_connect = 0x01

abbrev pub packet_connack : ℕ
packet_connack = 0x02

abbrev pub packet_publish : ℕ
packet_publish = 0x03

abbrev pub packet_puback : ℕ
packet_puback = 0x04

abbrev pub packet_pubrec : ℕ
packet_pubrec = 0x05

abbrev pub packet_pubrel : ℕ
packet_pubrel = 0x06

abbrev pub packet_pubcomp : ℕ
packet_pubcomp = 0x07

abbrev pub packet_subscribe : ℕ
packet_subscribe = 0x08

abbrev pub packet_suback : ℕ
packet_suback = 0x09

abbrev pub packet_unsubscribe : ℕ
packet_unsubscribe = 0x0a

abbrev pub packet_unsuback : ℕ
packet_unsuback = 0x0b

abbrev pub packet_pingreq : ℕ
packet_pingreq = 0x0c

abbrev pub packet_pingresp : ℕ
packet_pingresp = 0x0d

abbrev pub packet_disconnect : ℕ
packet_disconnect = 0x0e

abbrev pub protocol_level : ℕ
protocol_level = 0x04

abbrev pub IsByte : ℕ → Type 0
IsByte b = b < 256

pub record Packet : Type 0 where
  pub ptype : ℕ
  pub flags : ℕ
  pub body : Text

-- The error of a read: the stream ended, or the length field is too long.
pub data ReadError : Type 0 where
  eof bad_length : ReadError

pub data Result {ℓ} (A : Type ℓ) : Type ℓ where
  ok : A → Result A
  err : ReadError → Result A

infixl 5 ◌>>=◌
abbrev pub ◌>>=◌ {ℓ κ} : {A : Type ℓ} {B : Type κ} → Result A → (A → Result B) → Result B
ok a >>= f = f a
err e >>= f = err e

-- The loop of `append_remaining_length`, with fuel: `n` divided by 128 falls, so that `suc n` rounds
-- are enough, and the result for no fuel is never asked for.
unfoldable pub length_loop : ℕ → Text → ℕ → Text
length_loop zero buf n = buf
length_loop (suc fuel) buf n =
    let digit = n % 128 in
    let rest = n / 128 in
    let more = length_loop fuel (buf ++ bit_or digit 0x80 ∷ []) rest in
    if ltb 0 rest then more else buf ++ digit ∷ []

unfoldable pub append_remaining_length : Text → ℕ → Text
unfolding length_loop
append_remaining_length buf n = length_loop (suc n) buf n

-- The loop of `read_remaining_length`, over the rounds that are left of the four.
unfoldable pub read_length_loop : ℕ → ℕ → ℕ → Text → Result (ℕ × Text)
read_length_loop zero multiplier value stream = err bad_length
read_length_loop (suc rounds) multiplier value [] = err eof
read_length_loop (suc rounds) multiplier value (b ∷ stream) =
    let value' = value + bit_and b 0x7f * multiplier in
    let more = read_length_loop rounds (multiplier * 128) value' stream in
    if bit_and b 0x80 == 0 then ok (value', stream) else more

unfoldable pub read_remaining_length : Text → Result (ℕ × Text)
unfolding read_length_loop
read_remaining_length stream = read_length_loop 4 1 0 stream

unfoldable pub read_byte_from : Text → Result (ℕ × Text)
read_byte_from [] = err eof
read_byte_from (b ∷ stream) = ok (b, stream)

-- `io.ReadFull` into a buffer of the given length.
unfoldable pub read_full : ℕ → Text → Result (Text × Text)
read_full n stream = if leb n (length stream) then ok (take n stream, drop n stream) else err eof

unfoldable pub read_packet : Text → Result (Packet × Text)
unfolding read_byte_from read_full read_remaining_length
read_packet stream = do
  (head, after_head) ← read_byte_from stream
  (size, after_size) ← read_remaining_length after_head
  (body, rest) ← read_full size after_size
  ok (record { ptype = head / 16; flags = bit_and head 0x0f; body = body }, rest)

-- `ptype<<4 | flags` is a byte: the high bits of `ptype` are lost.
unfoldable pub wrap : ℕ → ℕ → Text → Text
unfolding append_remaining_length
wrap ptype flags body =
    append_remaining_length (bit_or (ptype * 16 % 256) flags ∷ []) (length body) ++ body

unfoldable pub append_uint16 : Text → ℕ → Text
append_uint16 buf v = buf ++ (v / 256 % 256) ∷ (v % 256) ∷ []

-- `uint16(len(s))` keeps the low 16 bits of the length. `append_binary` has the same body.
unfoldable pub append_string : Text → Text → Text
unfolding append_uint16
append_string buf s = append_uint16 buf (length s % 2 ^ 16) ++ s

unfoldable pub append_binary : Text → Text → Text
unfolding append_uint16
append_binary buf b = append_uint16 buf (length b % 2 ^ 16) ++ b
