-- ===== src/Mqtt/Decoder.antt =====
-- internal/mqtt/packet.go: the decoder, which reads the body of a packet from front to back. A read
-- returns the decoder with the value, `none` for `io.ErrUnexpectedEOF`.
pub mod Reads
use wrtdeck.Prelude.{
  ltb, leb, if◌then◌else◌, length, get_or, take, drop, Text, nat_key, text_key, ℕ, ◌+◌, ◌-◌, ◌*◌,
  ◌%◌, ◌^◌, bit_or, Option, none, some,
}

pub record Decoder : Type 0 where
  pub buf : Text
  pub pos : ℕ

unfoldable pub remaining : Decoder → ℕ
remaining d = length d.buf - d.pos

unfoldable pub read_byte : Decoder → Decoder × Option ℕ
read_byte d =
    if leb (length d.buf) d.pos
    then (d, none)
    else (record d { pos = d.pos + 1 }, some (get_or d.buf d.pos 0))

unfoldable pub read_uint16 : Decoder → Decoder × Option ℕ
read_uint16 d = if ltb (length d.buf) (d.pos + 2) then (d, none) else (
  record d { pos = d.pos + 2 },
  some (bit_or (get_or d.buf d.pos 0 * 256 % 2 ^ 16) (get_or d.buf (d.pos + 1) 0)),
)

-- The part of `read_string` behind its length.
unfoldable pub read_bytes : Option ℕ → Decoder → Decoder × Option Text
read_bytes none d = (d, none)
read_bytes (some n) d =
    if ltb (length d.buf) (d.pos + n)
    then (d, none)
    else (record d { pos = d.pos + n }, some (take n (drop d.pos d.buf)))

unfoldable pub read_string : Decoder → Decoder × Option Text
unfolding read_uint16 read_bytes
read_string d = let (d', n) = read_uint16 d in read_bytes n d'

unfoldable pub read_rest : Decoder → Decoder × Text
read_rest d = (record d { pos = length d.buf }, drop d.pos d.buf)
