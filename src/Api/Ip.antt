-- ===== src/Api/Ip.antt =====
-- What internal/api uses of the package net. An address is its number of 32 or of 128 bits; an
-- IPv6 form of an IPv4 address counts as the latter, as `To4` has it. How addresses are written is a
-- parameter.
use wrtdeck.Prelude.{Text, nat_key, text_key, ℕ, ◌*◌, ◌/◌, ◌^◌, ◌<◌, ◌≡◌, ◌≢◌, Option, []}

pub data Ip : Type 0 where
  v4 : ℕ → Ip
  v6 : ℕ → Ip

-- `net.ParseIP`, with `none` for nil, and `IP.String`, whose result is never empty and differs for
-- the addresses of two networks that end in 64 zero bits.
pub record IpText : Type 0 where
  pub parse : Text → Option Ip
  pub show : Ip → Text
  pub show_named : (ip : Ip) → show ip ≢ []
  pub show_networks :
      (a b : ℕ) → a < 2 ^ 64 → b < 2 ^ 64 → show (v6 (a * 2 ^ 64)) ≡ show (v6 (b * 2 ^ 64)) → a ≡ b

-- `ip.Mask(net.CIDRMask(64, 128))` of a 128-bit address.
abbrev pub mask64 : ℕ → ℕ
mask64 n = n / 2 ^ 64 * 2 ^ 64
