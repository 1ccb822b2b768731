-- ===== src/Api/Remote.antt =====
-- internal/api/remote.go: the addresses of a request. The package net is a parameter.
pub mod Hosts
pub mod Forged
mod Tests
use wrtdeck.Prelude.{
  ◌==◌, if◌then◌else◌, is_empty, Text, nat_key, text_key, codes, trim_space, split, contains, Bool,
  true, false, not, ◌||◌, Option, none, some, List, [], ◌∷◌, reverse,
}

pub record Net {ℓ} (A : Type ℓ) : Type ℓ where
  pub split_host_port : Text → Option (Text × Text)
  pub parse_ip : Text → Option A
  pub show_ip : A → Text
  pub same_ip : A → A → Bool
  pub cidr_contains : Text → A → Option Bool
  pub is_loopback : A → Bool
  pub is_private : A → Bool
  pub is_link_local : A → Bool

-- The address of the connection, the host and the headers by their names.
pub record HttpRequest : Type 0 where
  pub method : Text
  pub path : Text
  pub remote_addr : Text
  pub host : Text
  pub header : Text → Text
  pub is_tls : Bool

-- `strings.Trim(s, "[]")`
abbrev pub drop_brackets : Text → Text
drop_brackets [] = []
drop_brackets (c ∷ s) = if c == b'[' || c == b']' then drop_brackets s else c ∷ s

abbrev pub trim_brackets : Text → Text
trim_brackets s = reverse (drop_brackets (reverse (drop_brackets s)))

abbrev pub host_or : Text → Option (Text × Text) → Text
host_or remote none = remote
host_or remote (some (host, port)) = host

unfoldable pub proxy_headers : List Text
proxy_headers = codes "X-Forwarded-For" ∷ codes "X-Forwarded-Host" ∷ codes "X-Real-Ip" ∷ []

unfoldable pub some_header : List Text → (Text → Text) → Bool
some_header [] header = false
some_header (name ∷ names) header =
    if is_empty (trim_space (header name)) then some_header names header else true

unfoldable pub arrived_via_proxy : HttpRequest → Bool
unfolding some_header proxy_headers
arrived_via_proxy r = some_header proxy_headers r.header

module _ {ℓ} {A : Type ℓ} (net : Net A) where
  unfoldable pub remote_ip : Text → Option A
  remote_ip remote = net.parse_ip (trim_brackets (host_or remote (net.split_host_port remote)))

  abbrev pub is_true : Option Bool → Bool
  is_true none = false
  is_true (some b) = b

  abbrev pub equals_ip : A → Option A → Bool
  equals_ip ip none = false
  equals_ip ip (some target) = net.same_ip target ip

  -- What one entry of the list says of an address.
  unfoldable pub proxy_matches : A → Text → Bool
  proxy_matches ip raw =
      let name = trim_space raw in
      if is_empty name
      then false
      else if contains b'/' name
      then is_true (net.cidr_contains name ip)
      else equals_ip ip (net.parse_ip name)

  unfoldable pub is_trusted_proxy : A → List Text → Bool
  unfolding proxy_matches
  is_trusted_proxy ip [] = false
  is_trusted_proxy ip (raw ∷ raws) = if proxy_matches ip raw then true else is_trusted_proxy ip raws

  unfoldable pub is_private_ip : Option A → Bool
  is_private_ip none = false
  is_private_ip (some ip) = net.is_loopback ip || net.is_private ip || net.is_link_local ip

  abbrev pub is_loopback_ip : Option A → Bool
  is_loopback_ip none = false
  is_loopback_ip (some ip) = net.is_loopback ip

  unfoldable pub is_loopback_addr : Text → Bool
  unfolding remote_ip
  is_loopback_addr remote = is_loopback_ip (remote_ip remote)

  -- The test of the caller by the handler that issues login codes.
  unfoldable pub is_local_request : HttpRequest → Bool
  unfolding arrived_via_proxy is_loopback_addr
  is_local_request r = not (arrived_via_proxy r || not (is_loopback_addr r.remote_addr))

  abbrev pub untrusted : List Text → Option A → Option A
  untrusted trusted none = none
  untrusted trusted (some ip) = if is_trusted_proxy ip trusted then none else some ip

  abbrev pub or_else : Option A → Option A → Option A
  or_else none o = o
  or_else (some ip) o = some ip

  -- The loop of `client_ip`, over the parts from the last one.
  unfoldable pub last_untrusted : List Text → List Text → Option A
  unfolding is_trusted_proxy
  last_untrusted trusted [] = none
  last_untrusted trusted (part ∷ parts) =
      or_else (untrusted trusted (net.parse_ip (trim_space part))) (last_untrusted trusted parts)

  abbrev pub first_part : List Text → Option A
  first_part [] = none
  first_part (part ∷ parts) = net.parse_ip (trim_space part)

  -- What `X-Forwarded-For` says: the last address that is no proxy's, or else the first one.
  unfoldable pub forwarded_ip : List Text → Text → Option A
  unfolding last_untrusted
  forwarded_ip trusted xff =
      let parts = split b',' xff in
      if is_empty xff
      then none
      else or_else (last_untrusted trusted (reverse parts)) (first_part parts)

  abbrev pub real_ip : Text → Option A
  real_ip xri = if is_empty (trim_space xri) then none else net.parse_ip (trim_space xri)

  abbrev pub shown_or : A → Option A → Text
  shown_or remote none = net.show_ip remote
  shown_or remote (some ip) = net.show_ip ip

  -- What the headers say of a client behind a proxy that is trusted.
  abbrev pub told_ip : HttpRequest → List Text → Option A
  told_ip r trusted =
      or_else (forwarded_ip trusted (r.header (codes "X-Forwarded-For")))
        (real_ip (r.header (codes "X-Real-Ip")))

  abbrev pub client_at : HttpRequest → List Text → Option A → Text
  client_at r trusted none = codes "unknown"
  client_at r trusted (some remote) =
      if is_trusted_proxy remote trusted
      then shown_or remote (told_ip r trusted)
      else net.show_ip remote

  unfoldable pub client_ip : HttpRequest → List Text → Text
  unfolding remote_ip is_trusted_proxy forwarded_ip
  client_ip r trusted = client_at r trusted (remote_ip r.remote_addr)
