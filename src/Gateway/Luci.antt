-- ===== src/Gateway/Luci.antt =====
-- internal/gateway/luci.go and the course of a call in gateway.go: when the panel's token is added to a
-- request. What ubus answers about a session is a parameter.
use wrtdeck.Prelude.{
  ◌==◌, if◌then◌else◌, is_empty, Dict, get, put, Text, text_eq, nat_key, text_key, codes, ℤ,
  trim_space, split, Value, string, object, Fields, ℕ, inl, inr, Bool, false, not, ◌||◌, Option,
  none, some, List, [], ◌∷◌, ◌++◌,
}
use wrtdeck.Extract.{field_of}
use wrtdeck.Gateway.{
  GatewayOptions, Environment, env, Refusal, no_path, not_api, denied, bad_length, bad_request,
  CgiRequest, set_header, NewRequest, read_request,
}

unfoldable pub luci_cookie_names : List Text
luci_cookie_names = codes "sysauth_https" ∷ codes "sysauth_http" ∷ codes "sysauth" ∷ []

-- `strings.Cut` at one character.
unfoldable pub cut : ℕ → Text → Option (Text × Text)
cut sep [] = none
cut sep (c ∷ s) =
    if c == sep
    then some ([], s)
    else elim (cut sep s) [ none ↦ none | some (before, after) ↦ some (c ∷ before, after) ]

abbrev pub put_cookie : Option (Text × Text) → Dict Text Text → Dict Text Text
put_cookie none jars = jars
put_cookie (some (name, value)) jars = put (trim_space name) (trim_space value) jars

unfoldable pub cookies_from : List Text → Dict Text Text → Dict Text Text
unfolding cut
cookies_from [] jars = jars
cookies_from (part ∷ parts) jars = cookies_from parts (put_cookie (cut b'=' (trim_space part)) jars)

abbrev pub text_or_empty : Option Text → Text
text_or_empty none = []
text_or_empty (some t) = t

-- The first of the names that has a value.
unfoldable pub first_cookie : List Text → Dict Text Text → Text
first_cookie [] jars = []
first_cookie (name ∷ names) jars =
    let value = text_or_empty (get name jars) in
    let rest = first_cookie names jars in if is_empty value then rest else value

unfoldable pub session_id : Text → Text
unfolding luci_cookie_names cookies_from first_cookie
session_id cookie =
    if is_empty cookie
    then []
    else first_cookie luci_cookie_names (cookies_from (split b';' cookie) [])

abbrev pub is_name_value : Option Value → Bool
is_name_value (some (string t)) = not (is_empty (trim_space t))
is_name_value _ = false

unfoldable pub has_username : Fields → Bool
unfolding field_of
has_username fields =
    is_name_value (field_of (codes "username") fields)
    || is_name_value (field_of (codes "user") fields)

abbrev pub names_user : Option Value → Bool
names_user (some (object fields)) = has_username fields
names_user _ = false

unfoldable pub session_is_logged_in : Option Value → Bool
unfolding has_username field_of
session_is_logged_in (some (object fields)) =
    has_username fields || names_user (field_of (codes "values") fields)
session_is_logged_in _ = false

-- What the call of ubus prints, read as JSON; `none` where the call fails.
abbrev pub Ubus : Type 0
Ubus = Text → Option (Option Value)

abbrev pub answered : Option (Option Value) → Bool
answered none = false
answered (some payload) = session_is_logged_in payload

unfoldable pub probe_session : Ubus → Text → Bool
unfolding session_is_logged_in
probe_session ubus sid = answered (ubus sid)

abbrev pub authorization : CgiRequest → Text
authorization req = text_or_empty (get (codes "Authorization") req.headers)

unfoldable pub authorize : Ubus → GatewayOptions → Text → CgiRequest → CgiRequest
unfolding session_id probe_session
authorize ubus opts cookie req =
    if not (is_empty (authorization req))
    then req
    else if not opts.inject || is_empty opts.token
    then req
    else if not opts.verify_luci
    then req
    else let sid = session_id cookie in
      if is_empty sid
      then req
      else if not (probe_session ubus sid)
      then req
      else set_header (codes "Authorization") (codes "Bearer " ++ opts.token) req

-- A call answers by itself with 403 or 400, or forwards a request.
pub data GatewayAnswer : Type 0 where
  forbidden : GatewayAnswer
  rejected : Refusal → GatewayAnswer
  forwarded : CgiRequest → GatewayAnswer

abbrev pub refused_as : Refusal → GatewayAnswer
refused_as denied = forbidden
refused_as no_path = rejected no_path
refused_as (not_api target) = rejected (not_api target)
refused_as bad_length = rejected bad_length
refused_as bad_request = rejected bad_request

unfoldable pub run :
    NewRequest → (Text → Option ℤ) → Ubus → GatewayOptions → Environment → GatewayAnswer
unfolding read_request authorize
run new_request parse_int ubus opts getenv = elim (read_request new_request parse_int opts getenv) [
  | inl e ↦ refused_as e
  | inr req ↦ forwarded (authorize ubus opts (env getenv (codes "HTTP_COOKIE")) req)
]

-- What is not passed back to the browser.
unfoldable pub is_hop_by_hop : Text → Bool
is_hop_by_hop name =
    text_eq name (codes "Connection")
    || text_eq name (codes "Keep-Alive")
    || text_eq name (codes "Proxy-Authenticate")
    || text_eq name (codes "Proxy-Authorization")
    || text_eq name (codes "Te")
    || text_eq name (codes "Trailer")
    || text_eq name (codes "Transfer-Encoding")
    || text_eq name (codes "Upgrade")

unfoldable pub written_headers : List (Text × Text) → List (Text × Text)
unfolding is_hop_by_hop
written_headers [] = []
written_headers ((name, value) ∷ headers) =
    let rest = written_headers headers in if is_hop_by_hop name then rest else (name, value) ∷ rest
