-- ===== src/Transport.antt =====
-- internal/transport/transport.go: what the transports share. A body is its bytes; base64 is a parameter.
pub mod Exec
pub mod Pool
mod Tests
use wrtdeck.Prelude.{
  ltb, leb, if◌then◌else◌, length, is_empty, take, Text, text_eq, nat_key, text_key, codes, ℤ, pos,
  nat_of, is_positive, mul_duration, trim_space, lower_text, bytes_of, ℕ, ◌+◌, ◌-◌, ◌*◌, Bool,
  false, not, ◌&&◌, ◌||◌, Option, none, some, List, [], ◌∷◌, ◌++◌,
}

-- Of the options, what the transports that are modelled read. A duration is not negative here.
pub record TransportOptions : Type 0 where
  pub max_body_bytes : ℤ
  pub default_timeout : ℕ
  pub exec_enabled : Bool
  pub exec_blocklist : List Text

unfoldable pub default_options : TransportOptions
default_options = record {
  max_body_bytes = pos 262144;
  default_timeout = 5000000000;
  exec_enabled = false;
  exec_blocklist = [];
}

pub record TransportReply : Type 0 where
  pub status_code : ℕ
  pub body : List ℕ
  pub body_text : Text
  pub detail : Text

unfoldable pub timeout_of : ℤ → TransportOptions → ℕ
timeout_of ms opts =
    if is_positive ms
    then mul_duration (nat_of ms) 1000000
    else if ltb 0 opts.default_timeout
    then opts.default_timeout
    else 5000000000

abbrev pub hex_value : ℕ → Option ℕ
hex_value c =
    if leb b'0' c && leb c b'9'
    then some (c - b'0')
    else if leb b'a' c && leb c b'f'
    then some (c - b'a' + 10)
    else if leb b'A' c && leb c b'F'
    then some (c - b'A' + 10)
    else none

abbrev pub cons_byte : Option ℕ → Option ℕ → Option (List ℕ) → Option (List ℕ)
cons_byte (some high) (some low) (some bytes) = some ((high * 16 + low) ∷ bytes)
cons_byte _ _ _ = none

-- `hex.DecodeString`
unfoldable pub decode_hex : Text → Option (List ℕ)
decode_hex [] = some []
decode_hex (c ∷ []) = none
decode_hex (c ∷ d ∷ s) = cons_byte (hex_value c) (hex_value d) (decode_hex s)

unfoldable pub encode_payload : (Text → Option (List ℕ)) → Text → Text → Option (List ℕ)
unfolding decode_hex
encode_payload base64 payload encoding =
    let name = lower_text (trim_space encoding) in
    if is_empty name || text_eq name (codes "text") || text_eq name (codes "json")
    then some (bytes_of payload)
    else if text_eq name (codes "hex")
    then decode_hex (trim_space payload)
    else if text_eq name (codes "base64")
    then base64 (trim_space payload)
    else none

unfoldable pub truncate : ℤ → List ℕ → List ℕ
truncate limit body =
    if not (is_positive limit) || leb (length body) (nat_of limit)
    then body
    else take (nat_of limit) body

-- Of a body that is ASCII, so that a byte is a character.
unfoldable pub preview : ℤ → Text → Text
preview limit body =
    let trimmed = trim_space body in
    if is_positive limit && ltb (nat_of limit) (length trimmed)
    then take (nat_of limit) trimmed ++ codes "..."
    else trimmed
