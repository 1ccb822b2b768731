-- ===== src/Gateway/Forwarded.antt =====
-- What the gateway forwards, and how the panel sees it.

use wrtdeck.Prelude.{
  if◌then◌else◌, is_empty-trim_space-trim_space, length, is_empty, get, Text, nat_key, text_key,
  codes, ℤ, trim_space, ℕ, ◌≡◌, refl, sym, ap, ◌∙◌, ◌⊎◌, inl, inr, Bool, true, false, not, ◌||◌,
  Option, none, some, [], ◌∷◌, ◌++◌, arith,
}
use wrtdeck.Gateway.{
  GatewayOptions, Environment, env, Refusal, no_path, not_api, denied, bad_length, bad_request,
  request_target, CgiRequest, mark_proxied, copy_env_headers, request_body, ◌>>=◌, with_query,
  method_or_get, with_host, NewRequest, built, build_request, finish_request, read_request,
}
use wrtdeck.Gateway.Target.{IsAllowed, request_target_lem}
use wrtdeck.Config.Password.{Crypto}
use wrtdeck.Api.Ip.{IpText}
use wrtdeck.Api.Handoff.{issue_code}
use wrtdeck.Api.Server.{Request, Server}
use wrtdeck.Api.Server.Handlers.{remote_not_allowed, code_as, handle_session_handoff}
use wrtdeck.Gateway.Luci.{text_or_empty, Ubus, authorize, GatewayAnswer, forwarded, refused_as, run}
use wrtdeck.Gateway.Headers.{
  get-mark_proxied, get-authorize, url-authorize, url-with_host, url-mark_proxied,
  url-copy_env_headers,
}
use wrtdeck.Api.Remote.{
  Net, HttpRequest, proxy_headers, some_header, arrived_via_proxy, is_loopback_addr,
  is_local_request,
}

-- What the panel finds under a name in the headers of a forwarded request.
abbrev pub header_of : CgiRequest → Text → Text
header_of req name = text_or_empty (get name req.headers)

-- A request of the gateway as the panel receives it.
abbrev pub received : Text → CgiRequest → HttpRequest
received remote req = record {
  method = req.method;
  path = req.url;
  remote_addr = remote;
  host = req.host;
  header = header_of req;
  is_tls = false;
}

bind-inr {ℓ κ} :
    {A : Type ℓ} {B : Type κ} {last : B} (first : Refusal ⊎ A) (next : A → Refusal ⊎ B)
    → first >>= next ≡ inr last
    → (mid : A) × (first ≡ inr mid) × (next mid ≡ inr last)
bind-inr (inl e) next h = cc
bind-inr (inr mid) next h = (mid, refl, h)

-- The handler of the panel that issues login codes refuses the request, whatever its credentials
-- are.
abbrev pub GetsNoCode {ℓ} :
    {A : Type ℓ} (crypto : Crypto) (ip : IpText) (net : Net A) (remote : Text) → CgiRequest → Type 0
GetsNoCode crypto ip net remote req =
    (now : ℕ) (r : Request) (code : Option Text) (s : Server)
    → handle_session_handoff crypto ip now
        (record r { is_local = is_local_request net (received remote req) }) code s
      ≡ (s, remote_not_allowed)

-- What holds of a request that is forwarded.
pub record IsForwarded (getenv : Environment) (opts : GatewayOptions) (req : CgiRequest)
    : Type 1 where
  pub target : Text
  pub allowed : IsAllowed target
  pub url : req.url ≡ with_query (opts.upstream ++ target) (env getenv (codes "QUERY_STRING"))
  pub marked : (remote : Text) → arrived_via_proxy (received remote req) ≡ true
  pub no_code :
      {A : Type 0} (crypto : Crypto) (ip : IpText) (net : Net A) (remote : Text)
      → GetsNoCode crypto ip net remote req

no_code_if_marked {ℓ} :
    {A : Type ℓ} (crypto : Crypto) (ip : IpText) (net : Net A) (remote : Text) (req : CgiRequest)
    → arrived_via_proxy (received remote req) ≡ true
    → GetsNoCode crypto ip net remote req
unfolding handle_session_handoff is_local_request
no_code_if_marked crypto ip net remote req marked now r code s =
    ap
      (λ (b : Bool).
        if not (b || not (is_loopback_addr net remote))
        then code_as crypto ip s (issue_code now code s.handoffs)
        else (s, remote_not_allowed))
      marked

some_header-first :
    (header : Text → Text) (value : Text)
    → header (codes "X-Forwarded-For") ≡ value
    → is_empty (trim_space value) ≡ false
    → some_header proxy_headers header ≡ true
unfolding some_header proxy_headers
some_header-first header value found named =
    let filled = ap (λ (t : Text). is_empty (trim_space t)) found ∙ named in
    ap
      (λ (b : Bool).
        if b then some_header (codes "X-Forwarded-Host" ∷ codes "X-Real-Ip" ∷ []) header else true)
      filled

seen_by_proxy :
    (getenv : Environment) (req : CgiRequest) (remote : Text)
    → get (codes "X-Forwarded-For") req.headers ≡ some (env getenv (codes "REMOTE_ADDR"))
    → is_empty (env getenv (codes "REMOTE_ADDR")) ≡ false
    → arrived_via_proxy (received remote req) ≡ true
unfolding arrived_via_proxy
seen_by_proxy getenv req remote found named =
    some_header-first (header_of req) (env getenv (codes "REMOTE_ADDR")) (ap text_or_empty found)
      (is_empty-trim_space-trim_space (getenv (codes "REMOTE_ADDR")) ∙ named)

forwarded_shape :
    (m : Refusal ⊎ CgiRequest) (f : CgiRequest → CgiRequest) {req : CgiRequest}
    → (elim m as (λ _. GatewayAnswer) [ inl e ↦ refused_as e | inr r ↦ forwarded (f r) ])
      ≡ forwarded req
    → (r : CgiRequest) × (m ≡ inr r) × (f r ≡ req)
forwarded_shape (inl denied) f h = cc
forwarded_shape (inl no_path) f h = cc
forwarded_shape (inl (not_api target)) f h = cc
forwarded_shape (inl bad_length) f h = cc
forwarded_shape (inl bad_request) f h = cc
forwarded_shape (inr r) f h = (r, refl, cc)

url-built :
    (method url : Text) (length : Option ℕ) (host : Option Text) (req : CgiRequest)
    → built method url length host ≡ inr req
    → req.url ≡ url
url-built method url length none req h = cc
url-built method url length (some host) req h = ground arith

url-build_request :
    (new_request : NewRequest) (opts : GatewayOptions) (getenv : Environment) (target : Text)
    (length : Option ℕ) (req : CgiRequest)
    → build_request new_request opts getenv target length ≡ inr req
    → req.url ≡ with_query (opts.upstream ++ target) (env getenv (codes "QUERY_STRING"))
url-build_request new_request opts getenv target length req h =
    let method = method_or_get (env getenv (codes "REQUEST_METHOD")) in
    let url = with_query (opts.upstream ++ target) (env getenv (codes "QUERY_STRING")) in
    url-built method url length (new_request method url) req h

-- What a request is read as.
pub record IsRead (getenv : Environment) (opts : GatewayOptions) (req : CgiRequest) : Type 0 where
  pub target : Text
  pub allowed : IsAllowed target
  pub url : req.url ≡ with_query (opts.upstream ++ target) (env getenv (codes "QUERY_STRING"))
  pub base : CgiRequest
  pub marks : req ≡ mark_proxied getenv base

read_request_lem :
    (new_request : NewRequest) (parse_int : Text → Option ℤ) (opts : GatewayOptions)
    (getenv : Environment) (req : CgiRequest)
    → read_request new_request parse_int opts getenv ≡ inr req
    → IsRead getenv opts req
unfolding read_request
read_request_lem new_request parse_int opts getenv req h =
    let finish : CgiRequest → Refusal ⊎ CgiRequest = λ raw. inr (finish_request getenv raw) in
    let build : Text → Option ℕ → Refusal ⊎ CgiRequest =
      λ target length. build_request new_request opts getenv target length >>= finish in
    let (target, found, h1) =
      bind-inr (request_target getenv) (λ target. request_body parse_int getenv >>= build target)
        h in
    let (length, counted, h2) = bind-inr (request_body parse_int getenv) (build target) h1 in
    let (raw, made, h3) =
      bind-inr (build_request new_request opts getenv target length) finish h2 in
    let copied = copy_env_headers getenv raw in
    let base = with_host (env getenv (codes "HTTP_HOST")) copied in
    let marks : req ≡ mark_proxied getenv base = cc in
    record {
      target = target;
      allowed = request_target_lem getenv target found;
      url =
          ap (λ (r : CgiRequest). r.url) marks
          ∙ url-mark_proxied getenv base
          ∙ url-with_host (env getenv (codes "HTTP_HOST")) copied
          ∙ url-copy_env_headers getenv raw
          ∙ url-build_request new_request opts getenv target length raw made;
      base = base;
      marks = marks;
    }

-- Where the address of the browser is known, a request that the gateway forwards goes to a target
-- whose text is `/api/v1`, or begins with `/api/v1/`, and is not `/api/v1/session/handoff`, at the
-- upstream with the query behind it. The panel recognises from its headers that it arrived by a
-- proxy, so that the handler that issues login codes, should another text of the target lead to it,
-- refuses it and changes nothing, whatever its credentials are.
pub run_forwarded :
    (new_request : NewRequest) (parse_int : Text → Option ℤ) (ubus : Ubus) (opts : GatewayOptions)
    (getenv : Environment) (req : CgiRequest)
    → is_empty (env getenv (codes "REMOTE_ADDR")) ≡ false
    → run new_request parse_int ubus opts getenv ≡ forwarded req
    → IsForwarded getenv opts req
unfolding run
run_forwarded new_request parse_int ubus opts getenv req named h =
    let cookie = env getenv (codes "HTTP_COOKIE") in
    let (raw, read, same) =
      forwarded_shape (read_request new_request parse_int opts getenv) (authorize ubus opts cookie)
        h in
    let is_read = read_request_lem new_request parse_int opts getenv raw read in
    let value = env getenv (codes "REMOTE_ADDR") in
    let found : get (codes "X-Forwarded-For") req.headers ≡ some value =
      ap (λ (r : CgiRequest). get (codes "X-Forwarded-For") r.headers) (sym same)
      ∙ get-authorize ubus opts cookie raw
      ∙ ap (λ (r : CgiRequest). get (codes "X-Forwarded-For") r.headers) is_read.marks
      ∙ get-mark_proxied getenv is_read.base named in
    let marked : (remote : Text) → arrived_via_proxy (received remote req) ≡ true =
      λ remote. seen_by_proxy getenv req remote found named in
    record {
      target = is_read.target;
      allowed = is_read.allowed;
      url =
          ap (λ (r : CgiRequest). r.url) (sym same)
          ∙ url-authorize ubus opts cookie raw
          ∙ is_read.url;
      marked = marked;
      no_code = λ crypto ip net remote. no_code_if_marked crypto ip net remote req (marked remote);
    }
