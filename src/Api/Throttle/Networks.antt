-- ===== src/Api/Throttle/Networks.antt =====
-- Which sources the throttle counts together.
use mathlib.Core.List.{append_cancel_right}
use wrtdeck.Api.Ip.{v6, IpText, mask64}
use wrtdeck.Api.Throttle.{normalize_source}
use wrtdeck.Prelude.{Text, nat_key, text_key, codes, ℕ, ◌/◌, ◌^◌, ◌<◌, ◌≡◌, ◌↔◌, some, ◌++◌, arith}

-- Two sources that are IPv6 addresses below 2 ^ 128 count as one exactly when their first 64 bits
-- agree.
pub normalize_source-eq_iff :
    (net : IpText) (a b : Text) (n m : ℕ)
    → net.parse a ≡ some (v6 n)
    → net.parse b ≡ some (v6 m)
    → n < 2 ^ 128
    → m < 2 ^ 128
    → (normalize_source net a ≡ normalize_source net b) ↔ (n / 2 ^ 64 ≡ m / 2 ^ 64)
unfolding normalize_source
normalize_source-eq_iff net a b n m ha hb n_small m_small = (
  λ e.
      let shown : net.show (v6 (mask64 n)) ++ codes "/64"
          ≡ net.show (v6 (mask64 m)) ++ codes "/64" =
        ground arith in
      net.show_networks (n / 2 ^ 64) (m / 2 ^ 64) (omega arith) (omega arith)
        (append_cancel_right _ _ (codes "/64") shown),
  λ e. let masked : mask64 n ≡ mask64 m = omega arith in ground arith,
)
