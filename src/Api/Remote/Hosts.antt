-- ===== src/Api/Remote/Hosts.antt =====
-- internal/api/remote.go and middleware.go: the host and the origin of a request, and the layers that
-- refuse by them.
use wrtdeck.Prelude.{
  ◌==◌, if◌then◌else◌, is_some, is_empty, drop, Text, text_eq, nat_key, text_key, codes, trim_space,
  has_prefix, lower_text, Bool, true, false, not, ◌&&◌, ◌||◌, Option, none, some, List, [], ◌∷◌,
  ◌++◌, reverse,
}
use wrtdeck.Api.Remote.{Net, HttpRequest, trim_brackets, host_or}

module _ {ℓ} {A : Type ℓ} (net : Net A) where
  -- The name in a host, without a port and brackets, in lower case.
  abbrev pub host_name : Text → Text
  host_name hostport = trim_brackets (lower_text (host_or hostport (net.split_host_port hostport)))

  -- `strings.ContainsAny(host, "/\\ \t\r\n;\"'")`
  unfoldable pub has_bad_char : Text → Bool
  has_bad_char [] = false
  has_bad_char (c ∷ s) =
      c == b'/'
      || c == 92
      || c == 32
      || c == 9
      || c == 13
      || c == 10
      || c == b';'
      || c == 34
      || c == 39
      || has_bad_char s

  unfoldable pub has_suffix : Text → Text → Bool
  has_suffix s suffix = has_prefix (reverse s) (reverse suffix)

  abbrev pub matches_host : Text → Text → Bool
  matches_host host target =
      text_eq target host || (has_prefix target (codes "*.") && has_suffix host (drop 1 target))

  unfoldable pub is_allowed_by : Text → List Text → Bool
  unfolding has_suffix
  is_allowed_by host [] = false
  is_allowed_by host (raw ∷ raws) =
      let target = lower_text (trim_space raw) in
      let rest = is_allowed_by host raws in
      if is_empty target then rest else if matches_host host target then true else rest

  abbrev pub is_own_name : Text → Text → Bool
  is_own_name host name =
      not (is_empty name)
      && (text_eq host (lower_text name) || has_prefix host (lower_text name ++ codes "."))

  -- `name` is that of the device, and is empty where it is not known.
  unfoldable pub host_is_local_name : Text → Text → Bool
  unfolding has_suffix
  host_is_local_name name hostport =
      let host = host_name hostport in
      not (is_empty host)
      && (is_some (net.parse_ip host)
          || text_eq host (codes "localhost")
          || is_own_name host name
          || has_suffix host (codes ".lan")
          || has_suffix host (codes ".local")
          || has_suffix host (codes ".home")
          || has_suffix host (codes ".home.arpa")
          || has_suffix host (codes ".internal"))

  unfoldable pub host_allowed : Text → Text → List Text → Bool
  unfolding has_bad_char is_allowed_by host_is_local_name
  host_allowed name hostport allowed =
      let host = host_name hostport in
      if is_empty host || has_bad_char host
      then false
      else if is_empty allowed
      then true
      else if is_allowed_by host allowed
      then true
      else host_is_local_name name host

-- `url.Parse`: the scheme and the host of an address.
abbrev pub ParseUrl : Type 0
ParseUrl = Text → Option (Text × Text)

abbrev pub origin_in : Option (Text × Text) → Text
origin_in none = []
origin_in (some (scheme, host)) = scheme ++ codes "://" ++ host

unfoldable pub request_origin : ParseUrl → HttpRequest → Text
request_origin parse_url r =
    let origin = r.header (codes "Origin") in
    let referer = r.header (codes "Referer") in
    if not (is_empty origin)
    then origin
    else if is_empty referer
    then []
    else origin_in (parse_url referer)

abbrev pub is_host : (Text → Text → Bool) → Text → Option (Text × Text) → Bool
is_host equal_fold host none = false
is_host equal_fold host (some (scheme, h)) = not (is_empty h) && equal_fold h host

-- Whether the origin is the service's, and whether there is one.
unfoldable pub same_origin : ParseUrl → (Text → Text → Bool) → HttpRequest → Bool × Bool
unfolding request_origin
same_origin parse_url equal_fold r =
    let origin = request_origin parse_url r in
    if is_empty origin then (false, false) else (is_host equal_fold r.host (parse_url origin), true)

pub data Layer : Type 0 where
  invalid_host cross_origin_forbidden passed : Layer

abbrev pub is_mutating : Text → Bool
is_mutating method =
    text_eq method (codes "POST") || text_eq method (codes "PUT") || text_eq method (codes "DELETE")

-- `with_host_validation`, in production or with `dev`.
unfoldable pub with_host_validation {ℓ} :
    {A : Type ℓ} → Net A → Bool → Text → List Text → HttpRequest → Layer
unfolding host_allowed
with_host_validation net dev name allowed r =
    if dev then passed else if host_allowed net name r.host allowed then passed else invalid_host

abbrev pub crosses : Bool × Bool → Bool
crosses (same, present) = present && not same

unfoldable pub with_csrf_protection : ParseUrl → (Text → Text → Bool) → Bool → HttpRequest → Layer
unfolding same_origin
with_csrf_protection parse_url equal_fold dev r =
    if dev || not (has_prefix r.path (codes "/api/"))
    then passed
    else if is_mutating r.method && crosses (same_origin parse_url equal_fold r)
    then cross_origin_forbidden
    else passed

unfoldable pub request_is_secure : (Text → Text → Bool) → HttpRequest → Bool
request_is_secure equal_fold r =
    r.is_tls || equal_fold (r.header (codes "X-Forwarded-Proto")) (codes "https")
