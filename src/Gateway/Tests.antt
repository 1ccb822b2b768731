-- ===== src/Gateway/Tests.antt =====
-- Runs of the gateway, and the theorems at concrete inputs.
use wrtdeck.Prelude.{
  if◌then◌else◌, is_empty, get, put, delete, Text, text_eq, nat_key, text_key, codes, ℤ, trim_space,
  split, has_prefix, lower_text, string, object, no_fields, field, ◌≡◌, refl, ◌⊎◌, true, false,
  Option, none, some, [], ◌∷◌, ◌++◌,
}
use wrtdeck.Gateway.{
  is_blocked_path, GatewayOptions, Environment, env, request_target, CgiRequest, set_header,
  mark_proxied, copy_env_headers, request_body, NewRequest, read_request,
}
use wrtdeck.Gateway.Luci.{session_id, Ubus, probe_session, authorize, forbidden, forwarded, run}
use wrtdeck.Gateway.Safety.{IsGranted, authorize_lem}
use wrtdeck.Gateway.Forwarded.{IsForwarded, run_forwarded}

abbrev panel : GatewayOptions
panel = record {
  upstream = codes "http://127.0.0.1:8080";
  token = codes "t0k";
  verify_luci = true;
  inject = true;
}

-- A browser that is logged in to the router asks for the states.
abbrev browser : Environment
browser name =
    if text_eq name (codes "PATH_INFO")
    then codes "/api/v1/states"
    else if text_eq name (codes "REMOTE_ADDR")
    then codes "192.168.1.7"
    else if text_eq name (codes "HTTP_COOKIE")
    then codes "sysauth=5e55"
    else []

-- The session of the cookie belongs to root.
abbrev sessions : Ubus
sessions sid =
    if text_eq sid (codes "5e55")
    then some (some (object (field (codes "username") (string (codes "root")) no_fields)))
    else none

abbrev any_request : NewRequest
any_request method url = some (codes "127.0.0.1:8080")

abbrev no_int : Text → Option ℤ
no_int t = none

abbrev bare : CgiRequest
bare = record {
  method = codes "GET";
  url = codes "http://127.0.0.1:8080/api/v1/states";
  host = codes "127.0.0.1:8080";
  headers =
      (codes "X-Forwarded-For", codes "192.168.1.7")
      ∷ (codes "X-Forwarded-Proto", codes "http")
      ∷ [];
  body_length = none;
}

abbrev sent : CgiRequest
sent = record bare {
  headers =
      (codes "X-Forwarded-For", codes "192.168.1.7")
      ∷ (codes "X-Forwarded-Proto", codes "http")
      ∷ (codes "Authorization", codes "Bearer t0k")
      ∷ [];
}

states_sent : run any_request no_int sessions panel browser ≡ forwarded sent
unfolding run read_request request_target request_body copy_env_headers mark_proxied authorize
    session_id probe_session trim_space has_prefix get put delete split lower_text
states_sent = refl

-- The address that signs a browser in is not passed on.
handoff_forbidden :
    run any_request no_int sessions panel (λ name.
      if text_eq name (codes "PATH_INFO") then codes "/api/v1/session/handoff" else browser name)
    ≡ forbidden
unfolding run read_request request_target is_blocked_path trim_space has_prefix
handoff_forbidden = refl

browser_named : is_empty (env browser (codes "REMOTE_ADDR")) ≡ false
unfolding trim_space
browser_named = refl

run_forwarded_example : IsForwarded browser panel sent
run_forwarded_example =
    run_forwarded any_request no_int sessions panel browser sent browser_named states_sent

authorize_lem_example :
    (authorize sessions panel (codes "sysauth=5e55") bare ≡ bare)
    ⊎ (IsGranted sessions panel (codes "sysauth=5e55") bare
        × (authorize sessions panel (codes "sysauth=5e55") bare
            ≡ set_header (codes "Authorization") (codes "Bearer " ++ panel.token) bare))
authorize_lem_example = authorize_lem sessions panel (codes "sysauth=5e55") bare
