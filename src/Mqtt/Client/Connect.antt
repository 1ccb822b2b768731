-- ===== src/Mqtt/Client/Connect.antt =====
-- internal/mqtt/client.go: the broker's address, the answer to CONNECT, and the waits.
use wrtdeck.Prelude.{
  ltb, ◌==◌, if◌then◌else◌, length, get_or, Text, text_eq, nat_key, text_key, codes, ℤ, nat_of,
  is_positive, mul_duration, exceeds, ℕ, ◌*◌, ◌^◌, ◌<◌, min, ◌≡◌, Bool, not, ◌||◌, arith,
}
use wrtdeck.Mqtt.Packet.{packet_connack, Packet, Result, ok, err, read_packet}
use wrtdeck.Mqtt.Client.{Client}

-- The three delays of `Options`, in nanoseconds.
pub record Options : Type 0 where
  pub keepalive : ℕ
  pub connect_timeout : ℕ
  pub max_reconnect_delay : ℕ

abbrev pub one_second : ℕ
one_second = 1000000000

abbrev pub ack_timeout : ℕ
ack_timeout = 10 * one_second

-- A duration that is not positive is replaced.
abbrev pub or_default : ℤ → ℕ → ℕ
or_default d default_value = if is_positive d then nat_of d else default_value

-- The defaults of `NewClient`.
unfoldable pub options_of : ℤ → ℤ → ℤ → Options
options_of keepalive connect_timeout max_reconnect_delay = record {
  keepalive = or_default keepalive (30 * one_second);
  connect_timeout = or_default connect_timeout (5 * one_second);
  max_reconnect_delay = or_default max_reconnect_delay (30 * one_second);
}

-- The product of the attempt and a second is a signed 64-bit one. A negative product is not above the
-- limit, and is returned as its pattern.
unfoldable pub backoff : ℕ → Options → ℕ
backoff attempt opts =
    let delay = mul_duration (if ltb attempt 1 then 1 else attempt) one_second in
    if exceeds delay opts.max_reconnect_delay then opts.max_reconnect_delay else delay

-- `url.Parse` gives the scheme in small letters.
unfoldable pub is_tls_scheme : Text → Bool
is_tls_scheme scheme =
    text_eq scheme (codes "mqtts") || text_eq scheme (codes "ssl") || text_eq scheme (codes "tls")

unfoldable pub default_port : Text → Text
default_port scheme =
    if text_eq scheme (codes "mqtts")
      || text_eq scheme (codes "ssl")
      || text_eq scheme (codes "tls")
    then codes "8883"
    else codes "1883"

-- The switch on the scheme in `dial`.
unfoldable pub supported_scheme : Text → Bool
supported_scheme scheme =
    text_eq scheme (codes "mqtt")
    || text_eq scheme (codes "tcp")
    || text_eq scheme (codes "mqtts")
    || text_eq scheme (codes "ssl")
    || text_eq scheme (codes "tls")

pub data Handshake : Type 0 where
  unreadable wrong_type short_body : Handshake
  refused : ℕ → Handshake
  accepted : Handshake

-- What `handshake` makes of the bytes that follow CONNECT.
abbrev pub check_reply : Packet → Handshake
check_reply reply =
    if not (reply.ptype == packet_connack)
    then wrong_type
    else if ltb (length reply.body) 2
    then short_body
    else if get_or reply.body 1 0 == 0
    then accepted
    else refused (get_or reply.body 1 0)

abbrev pub check_read : Result (Packet × Text) → Handshake
check_read (err e) = unreadable
check_read (ok (reply, rest)) = check_reply reply

unfoldable pub handshake : Text → Handshake
unfolding read_packet
handshake stream = check_read (read_packet stream)

pub data Readiness : Type 0 where
  closed_client ready waiting : Readiness

-- One round of `AwaitConnection`.
unfoldable pub await_connection : Client → Readiness
await_connection c = if c.closed then closed_client else if c.connected then ready else waiting

product_fits : (n : ℕ) → n < 2 ^ 33 → n * one_second < 2 ^ 63
product_fits n h = omega arith

-- The delay before attempt `n` to connect again, with `n` below 2 ^ 33, is `n` seconds, at least
-- one and never more than the limit.
pub backoff_lem :
    (attempt : ℕ) (opts : Options)
    → attempt < 2 ^ 33
    → backoff attempt opts
      ≡ min ((if ltb attempt 1 then 1 else attempt) * one_second) opts.max_reconnect_delay
unfolding backoff
backoff_lem attempt opts small = ground (arith, product_fits attempt small)
