-- ===== src/Api/Samples.antt =====
-- Addresses for the tests.
use wrtdeck.Prelude.{
  Text, nat_key, text_key, ℕ, zero, suc, ◌*◌, ◌^◌, ◌<◌, ◌≡◌, ◌≢◌, Option, none, some, [], ◌∷◌,
  arith,
}
use wrtdeck.Api.Ip.{Ip, v4, v6, IpText}

-- Addresses written as a tag and a number.
abbrev pub parse_tagged : Text → Option Ip
parse_tagged (zero ∷ n ∷ []) = some (v4 n)
parse_tagged (suc t ∷ n ∷ []) = some (v6 n)
parse_tagged _ = none

abbrev pub show_tagged : Ip → Text
show_tagged (v4 n) = 0 ∷ n ∷ []
show_tagged (v6 n) = 1 ∷ n ∷ []

pub show_tagged-ne : (ip : Ip) → show_tagged ip ≢ []
show_tagged-ne (v4 n) e = cc
show_tagged-ne (v6 n) e = cc

pub show_tagged_networks :
    (a b : ℕ)
    → a < 2 ^ 64
    → b < 2 ^ 64
    → show_tagged (v6 (a * 2 ^ 64)) ≡ show_tagged (v6 (b * 2 ^ 64))
    → a ≡ b
show_tagged_networks a b ha hb e = ground arith

abbrev pub tagged : IpText
tagged = record {
  parse = parse_tagged;
  show = show_tagged;
  show_named = show_tagged-ne;
  show_networks = show_tagged_networks;
}
