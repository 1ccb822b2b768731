-- ===== src/Gateway.antt =====
-- internal/gateway: the request that a CGI process forwards to the panel, and the credentials that it
-- adds. The environment of the process is a function, the request headers are a map by their names.
pub mod Luci
pub mod Safety
pub mod Headers
mod Target
pub mod Forwarded
mod Tests
use wrtdeck.Prelude.{
  ◌==◌, if◌then◌else◌, length, is_empty, Dict, put, delete, Text, text_eq, nat_key, text_key, codes,
  ℤ, pos, negsuc, trim_space, has_prefix, lower_text, ℕ, zero, suc, ◌/◌, ◌⊎◌, inl, inr, Bool, not,
  ◌||◌, Option, none, some, [], ◌∷◌, ◌++◌,
}

abbrev pub api_prefix : Text
api_prefix = codes "/api/v1"

unfoldable pub is_blocked_path : Text → Bool
is_blocked_path target = text_eq target (codes "/api/v1/session/handoff")

pub record GatewayOptions : Type 0 where
  pub upstream : Text
  pub token : Text
  pub verify_luci : Bool
  pub inject : Bool

-- `os.Getenv`, which gives the empty text where nothing is set.
abbrev pub Environment : Type 0
Environment = Text → Text

abbrev pub env : Environment → Text → Text
env getenv name = trim_space (getenv name)

unfoldable pub before_query : Text → Text
before_query [] = []
before_query (c ∷ s) = if c == b'?' then [] else c ∷ before_query s

unfoldable pub strip_prefix_uri : Text → Text
unfolding before_query
strip_prefix_uri uri = before_query uri

pub data Refusal : Type 0 where
  no_path : Refusal
  not_api : (target : Text) → Refusal
  denied : Refusal
  bad_length : Refusal
  bad_request : Refusal

abbrev pub with_slash : Text → Text
with_slash target = if has_prefix target (codes "/") then target else b'/' ∷ target

abbrev pub is_api : Text → Bool
is_api target = text_eq target api_prefix || has_prefix target (api_prefix ++ codes "/")

abbrev pub target_checked : Text → Refusal ⊎ Text
target_checked target =
    if not (is_api target)
    then inl (not_api target)
    else if is_blocked_path target
    then inl denied
    else inr target

unfoldable pub request_target : Environment → Refusal ⊎ Text
unfolding strip_prefix_uri is_blocked_path
request_target getenv =
    let path = trim_space (env getenv (codes "PATH_INFO")) in
    let target =
      if is_empty path then strip_prefix_uri (env getenv (codes "REQUEST_URI")) else path in
    if is_empty target then inl no_path else target_checked (with_slash target)

abbrev pub is_secure_name : Text → Bool
is_secure_name value =
    let name = lower_text value in
    text_eq name (codes "on") || text_eq name (codes "1") || text_eq name (codes "https")

unfoldable pub request_scheme : Environment → Text
request_scheme getenv =
    let forwarded = env getenv (codes "HTTP_X_FORWARDED_PROTO") in
    if not (is_empty forwarded)
    then forwarded
    else if is_secure_name (env getenv (codes "HTTPS"))
        || is_secure_name (env getenv (codes "REQUEST_SCHEME"))
    then codes "https"
    else codes "http"

-- A request: its address, its host and its headers.
pub record CgiRequest : Type 0 where
  pub method : Text
  pub url : Text
  pub host : Text
  pub headers : Dict Text Text
  pub body_length : Option ℕ

abbrev pub set_header : Text → Text → CgiRequest → CgiRequest
set_header name value req = record req { headers = put name value req.headers }

-- Where there is a value.
abbrev pub set_given : Text → Text → CgiRequest → CgiRequest
set_given name value req = if is_empty value then req else set_header name value req

unfoldable pub mark_proxied : Environment → CgiRequest → CgiRequest
unfolding request_scheme
mark_proxied getenv req = set_header (codes "X-Forwarded-Proto") (request_scheme getenv) (
    set_given (codes "X-Forwarded-Host") (env getenv (codes "HTTP_HOST"))
      (set_given (codes "X-Forwarded-For") (env getenv (codes "REMOTE_ADDR")) req))

-- The headers that are passed on, with the variables that hold them.
unfoldable pub kept_headers : Dict Text Text
kept_headers =
    (codes "Content-Type", codes "CONTENT_TYPE")
    ∷ (codes "Accept", codes "HTTP_ACCEPT")
    ∷ (codes "Accept-Language", codes "HTTP_ACCEPT_LANGUAGE")
    ∷ (codes "Origin", codes "HTTP_ORIGIN")
    ∷ (codes "Referer", codes "HTTP_REFERER")
    ∷ (codes "X-Requested-With", codes "HTTP_X_REQUESTED_WITH")
    ∷ []

unfoldable pub copy_headers : Environment → Dict Text Text → CgiRequest → CgiRequest
copy_headers getenv [] req = req
copy_headers getenv ((name, variable) ∷ names) req =
    copy_headers getenv names (set_given name (env getenv variable) req)

unfoldable pub copy_env_headers : Environment → CgiRequest → CgiRequest
unfolding kept_headers copy_headers
copy_env_headers getenv req =
    let req' =
      set_given (codes "Authorization") (env getenv (codes "HTTP_AUTHORIZATION"))
        (copy_headers getenv kept_headers req) in
    record req' { headers = delete (codes "Accept-Encoding") req'.headers }

-- `strconv.ParseInt` is a parameter.
abbrev pub length_as : Option ℤ → Refusal ⊎ Option ℕ
length_as none = inl bad_length
length_as (some (pos zero)) = inr none
length_as (some (pos (suc n))) = inr (some (suc n))
length_as (some (negsuc n)) = inl bad_length

unfoldable pub request_body : (Text → Option ℤ) → Environment → Refusal ⊎ Option ℕ
request_body parse_int getenv =
    let raw = trim_space (env getenv (codes "CONTENT_LENGTH")) in
    if is_empty raw then inr none else length_as (parse_int raw)

infixl 5 ◌>>=◌
abbrev pub ◌>>=◌ {ℓ κ} : {A : Type ℓ} {B : Type κ} → Refusal ⊎ A → (A → Refusal ⊎ B) → Refusal ⊎ B
inl e >>= f = inl e
inr a >>= f = f a

abbrev pub with_query : Text → Text → Text
with_query url query = if is_empty query then url else url ++ b'?' ∷ query

abbrev pub method_or_get : Text → Text
method_or_get method = if is_empty method then codes "GET" else method

abbrev pub with_host : Text → CgiRequest → CgiRequest
with_host host req = if is_empty host then req else record req { host = host }

-- `http.NewRequest`: the host that it reads from the address, where it takes both.
abbrev pub NewRequest : Type 0
NewRequest = Text → Text → Option Text

abbrev pub built : Text → Text → Option ℕ → Option Text → Refusal ⊎ CgiRequest
built method url length none = inl bad_request
built method url length (some host) =
    inr (record { method = method; url = url; host = host; headers = []; body_length = length })

abbrev pub build_request :
    NewRequest → GatewayOptions → Environment → Text → Option ℕ → Refusal ⊎ CgiRequest
build_request new_request opts getenv target length =
    let method = method_or_get (env getenv (codes "REQUEST_METHOD")) in
    let url = with_query (opts.upstream ++ target) (env getenv (codes "QUERY_STRING")) in
    built method url length (new_request method url)

abbrev pub finish_request : Environment → CgiRequest → CgiRequest
finish_request getenv req =
    mark_proxied getenv (with_host (env getenv (codes "HTTP_HOST")) (copy_env_headers getenv req))

unfoldable pub read_request :
    NewRequest → (Text → Option ℤ) → GatewayOptions → Environment → Refusal ⊎ CgiRequest
unfolding request_target request_body copy_env_headers mark_proxied
read_request new_request parse_int opts getenv = do
  target ← request_target getenv
  length ← request_body parse_int getenv
  req ← build_request new_request opts getenv target length
  inr (finish_request getenv req)
