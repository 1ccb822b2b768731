-- ===== src/Gateway/Safety.antt =====
-- When the gateway adds the panel's token to a request.
use wrtdeck.Prelude.{
  if◌then◌else◌, is_empty, Text, nat_key, text_key, codes, ◌≡◌, refl, ◌⊎◌, inl, inr, Bool, true,
  false, not, ◌||◌, ◌++◌,
}
use wrtdeck.Gateway.{GatewayOptions, CgiRequest, set_header}
use wrtdeck.Gateway.Luci.{session_id, Ubus, probe_session, authorization, authorize}

-- A chain of five tests that all leave `x`.
chain {ℓ} :
    {A : Type ℓ} (a b c d e : Bool) (x y : A)
    → let out =
        if a then x else if b then x else if c then x else if d then x else if e then x else y in
      (out ≡ x) ⊎ ((a ≡ false) × (b ≡ false) × (c ≡ false) × (d ≡ false) × (e ≡ false) × (out ≡ y))
chain true b c d e x y = inl refl
chain false true c d e x y = inl refl
chain false false true d e x y = inl refl
chain false false false true e x y = inl refl
chain false false false false true x y = inl refl
chain false false false false false x y = inr (refl, refl, refl, refl, refl, refl)

-- What has to hold for the token to be added.
pub record IsGranted (ubus : Ubus) (opts : GatewayOptions) (cookie : Text) (req : CgiRequest)
    : Type 0 where
  pub allowed : opts.inject ≡ true
  pub verifies : opts.verify_luci ≡ true
  pub has_token : is_empty opts.token ≡ false
  pub anonymous : is_empty (authorization req) ≡ true
  pub has_session : is_empty (session_id cookie) ≡ false
  pub logged_in : probe_session ubus (session_id cookie) ≡ true

not-false : (b : Bool) → not b ≡ false → b ≡ true
not-false true h = refl
not-false false h = cc

or_false : (a b : Bool) → (not a || b) ≡ false → (a ≡ true) × (b ≡ false)
or_false true b h = (refl, h)
or_false false b h = cc

-- The gateway leaves a request as it is, or adds the token of the panel as its `Authorization`; the
-- latter only where injection and the check of LuCI are on, there is a token, the request has no
-- credential of its own, and the session of the cookie is named and found to be logged in.
pub authorize_lem :
    (ubus : Ubus) (opts : GatewayOptions) (cookie : Text) (req : CgiRequest)
    → (authorize ubus opts cookie req ≡ req)
      ⊎ (IsGranted ubus opts cookie req
          × (authorize ubus opts cookie req
              ≡ set_header (codes "Authorization") (codes "Bearer " ++ opts.token) req))
unfolding authorize
authorize_lem ubus opts cookie req =
    elim (chain (not (is_empty (authorization req))) (not opts.inject || is_empty opts.token)
      (not opts.verify_luci) (is_empty (session_id cookie))
      (not (probe_session ubus (session_id cookie))) req
      (set_header (codes "Authorization") (codes "Bearer " ++ opts.token) req)) [
        | inl same ↦ inl same
        | inr (a, b, c, d, e, out) ↦
            let (injects, token) = or_false opts.inject (is_empty opts.token) b in
            inr (
              record {
                allowed = injects;
                verifies = not-false opts.verify_luci c;
                has_token = token;
                anonymous = not-false (is_empty (authorization req)) a;
                has_session = d;
                logged_in = not-false (probe_session ubus (session_id cookie)) e;
              },
              out,
            )
      ]
