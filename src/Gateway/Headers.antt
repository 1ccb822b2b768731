-- ===== src/Gateway/Headers.antt =====
-- What the steps of the gateway leave of the address and the headers of a request.
use wrtdeck.Prelude.{
  if◌then◌else◌, get-put, is_empty, Dict, get, Text, text_eq, nat_key, text_key, text_eq_refl,
  codes, ◌≡◌, refl, ap, ◌∙◌, inl, inr, Bool, false, some, [], ◌∷◌, ◌++◌,
}
use wrtdeck.Gateway.{
  GatewayOptions, Environment, env, request_scheme, CgiRequest, set_header, set_given, mark_proxied,
  kept_headers, copy_headers, copy_env_headers, with_host,
}
use wrtdeck.Gateway.Luci.{Ubus, authorize}
use wrtdeck.Gateway.Safety.{authorize_lem}

get-set_header :
    (name value other : Text) (req : CgiRequest)
    → text_eq name other ≡ false
    → get other (set_header name value req).headers ≡ get other req.headers
get-set_header name value other req apart =
    get-put other name value req.headers
    ∙ ap (λ (b : Bool). if b then some value else get other req.headers) apart

get-set_given :
    (name value other : Text) (req : CgiRequest)
    → text_eq name other ≡ false
    → get other (set_given name value req).headers ≡ get other req.headers
get-set_given name [] other req apart = refl
get-set_given name (c ∷ value) other req apart = get-set_header name (c ∷ value) other req apart

get-set_given_same :
    (name value : Text) (req : CgiRequest)
    → is_empty value ≡ false
    → get name (set_given name value req).headers ≡ some value
get-set_given_same name [] req h = cc
get-set_given_same name (c ∷ value) req h =
    get-put name name (c ∷ value) req.headers
    ∙ ap (λ (b : Bool). if b then some (c ∷ value) else get name req.headers) (text_eq_refl name)

-- The address of the browser is noted whatever was copied before.
pub get-mark_proxied :
    (getenv : Environment) (req : CgiRequest)
    → is_empty (env getenv (codes "REMOTE_ADDR")) ≡ false
    → get (codes "X-Forwarded-For") (mark_proxied getenv req).headers
      ≡ some (env getenv (codes "REMOTE_ADDR"))
unfolding mark_proxied
get-mark_proxied getenv req named =
    let first = set_given (codes "X-Forwarded-For") (env getenv (codes "REMOTE_ADDR")) req in
    let second = set_given (codes "X-Forwarded-Host") (env getenv (codes "HTTP_HOST")) first in
    get-set_header (codes "X-Forwarded-Proto") (request_scheme getenv) (codes "X-Forwarded-For")
      second refl
    ∙ get-set_given (codes "X-Forwarded-Host") (env getenv (codes "HTTP_HOST"))
        (codes "X-Forwarded-For") first refl
    ∙ get-set_given_same (codes "X-Forwarded-For") (env getenv (codes "REMOTE_ADDR")) req named

-- A credential does not touch the mark.
pub get-authorize :
    (ubus : Ubus) (opts : GatewayOptions) (cookie : Text) (req : CgiRequest)
    → get (codes "X-Forwarded-For") (authorize ubus opts cookie req).headers
      ≡ get (codes "X-Forwarded-For") req.headers
get-authorize ubus opts cookie req = elim (authorize_lem ubus opts cookie req) [
  | inl same ↦ ap (λ (r : CgiRequest). get (codes "X-Forwarded-For") r.headers) same
  | inr (granted, out) ↦
      ap (λ (r : CgiRequest). get (codes "X-Forwarded-For") r.headers) out
      ∙ get-set_header (codes "Authorization") (codes "Bearer " ++ opts.token)
          (codes "X-Forwarded-For") req refl
]

url-set_given : (name value : Text) (req : CgiRequest) → (set_given name value req).url ≡ req.url
url-set_given name [] req = refl
url-set_given name (c ∷ value) req = refl

pub url-authorize :
    (ubus : Ubus) (opts : GatewayOptions) (cookie : Text) (req : CgiRequest)
    → (authorize ubus opts cookie req).url ≡ req.url
url-authorize ubus opts cookie req = elim (authorize_lem ubus opts cookie req) [
  | inl same ↦ ap (λ (r : CgiRequest). r.url) same
  | inr (granted, out) ↦ ap (λ (r : CgiRequest). r.url) out
]

pub url-with_host : (host : Text) (req : CgiRequest) → (with_host host req).url ≡ req.url
url-with_host [] req = refl
url-with_host (c ∷ host) req = refl

pub url-mark_proxied :
    (getenv : Environment) (req : CgiRequest) → (mark_proxied getenv req).url ≡ req.url
unfolding mark_proxied
url-mark_proxied getenv req =
    let first = set_given (codes "X-Forwarded-For") (env getenv (codes "REMOTE_ADDR")) req in
    url-set_given (codes "X-Forwarded-Host") (env getenv (codes "HTTP_HOST")) first
    ∙ url-set_given (codes "X-Forwarded-For") (env getenv (codes "REMOTE_ADDR")) req

url-copy_headers :
    (getenv : Environment) (names : Dict Text Text) (req : CgiRequest)
    → (copy_headers getenv names req).url ≡ req.url
unfolding copy_headers
url-copy_headers getenv [] req = refl
url-copy_headers getenv ((name, variable) ∷ names) req =
    url-copy_headers getenv names (set_given name (env getenv variable) req)
    ∙ url-set_given name (env getenv variable) req

pub url-copy_env_headers :
    (getenv : Environment) (req : CgiRequest) → (copy_env_headers getenv req).url ≡ req.url
unfolding copy_env_headers
url-copy_env_headers getenv req =
    url-set_given (codes "Authorization") (env getenv (codes "HTTP_AUTHORIZATION"))
      (copy_headers getenv kept_headers req)
    ∙ url-copy_headers getenv kept_headers req
