-- ===== src/Api/Server.antt =====
-- internal/api/middleware.go and server.go: the state of the server, and who is let in.
pub mod Handlers
pub mod Access
pub mod Login
pub mod Change
pub mod Revocation
mod Tests
use wrtdeck.Prelude.{
  ltb, leb, if◌then◌else◌, length, is_empty, take, drop, Text, text_eq, nat_key, text_key, codes,
  trim_space, has_prefix, ℕ, ◌+◌, Bool, true, false, not, ◌&&◌, ◌||◌, [], map,
}
use wrtdeck.Config.Secrets.{Secrets, token, must_change}
use wrtdeck.Api.Sessions.{SessionStore, Answer, missing, nil_item, hit, lookup}
use wrtdeck.Api.Handoff.{HandoffStore}
use wrtdeck.Api.Throttle.{LoginThrottle}

pub data Role : Type 0 where
  role_api role_session : Role

abbrev pub is_session : Role → Bool
is_session role_api = false
is_session role_session = true

pub record AuthCtx : Type 0 where
  pub role : Role
  pub token_of : Text

-- A request: its path, the header `Authorization`, the parameter `token` of the query, and what the
-- functions of internal/api/remote.go say of it: the client's address, whether that is private, whether
-- it comes from the device itself and past no proxy, and whether it has an origin and that is the same.
pub record Request : Type 0 where
  pub path_of : Text
  pub authorization : Text
  pub query_token : Text
  pub remote_of : Text
  pub is_private : Bool
  pub is_local : Bool
  pub origin_present : Bool
  pub origin_same : Bool

pub record Server : Type 0 where
  pub auth_disabled : Bool
  pub secrets : Secrets
  pub sessions : SessionStore
  pub logins : LoginThrottle
  pub handoffs : HandoffStore

unfoldable pub open_path : Text → Bool
open_path path =
    text_eq path (codes "/api/v1/health")
    || text_eq path (codes "/api/v1/session/login")
    || text_eq path (codes "/api/v1/session/redeem")

unfoldable pub password_change_path : Text → Bool
password_change_path path =
    text_eq path (codes "/api/v1/session/me")
    || text_eq path (codes "/api/v1/session/password")
    || text_eq path (codes "/api/v1/session/logout")

abbrev pub ascii_lower : ℕ → ℕ
ascii_lower c = if leb b'A' c && leb c b'Z' then c + 32 else c

-- Only ASCII letters fold to those of `bearer `.
unfoldable pub bearer_token : Text → Text
unfolding trim_space
bearer_token header =
    if ltb (length header) 7 || not (text_eq (map ascii_lower (take 7 header)) (codes "bearer "))
    then []
    else trim_space (drop 7 header)

-- The token of a request: the events are also given it by the query.
unfoldable pub request_token : Request → Text
unfolding bearer_token
request_token r =
    let bearer = bearer_token r.authorization in
    if is_empty bearer && text_eq r.path_of (codes "/api/v1/events") then r.query_token else bearer

pub data Verdict : Type 0 where
  passed_open not_logged_in invalid_credentials password_change_required : Verdict
  passed : AuthCtx → Verdict

abbrev pub is_exempt : Request → Server → Bool
is_exempt r s = s.auth_disabled || not (has_prefix r.path_of (codes "/api/")) || open_path r.path_of

abbrev pub session_verdict : Request → Text → Server → Answer → Verdict
session_verdict r bearer s missing = invalid_credentials
session_verdict r bearer s nil_item = invalid_credentials
session_verdict r bearer s (hit item) =
    if must_change s.secrets && not (password_change_path r.path_of)
    then password_change_required
    else passed (record { role = role_session; token_of = bearer })

abbrev pub check_token : ℕ → Request → Text → Server → Server × Verdict
check_token now r bearer s =
    let (sessions', answer) = lookup now bearer s.sessions in
    if is_empty bearer
    then (s, not_logged_in)
    else if text_eq bearer (token s.secrets)
    then (s, passed (record { role = role_api; token_of = bearer }))
    else (record s { sessions = sessions' }, session_verdict r bearer s answer)

unfoldable pub with_auth : ℕ → Request → Server → Server × Verdict
unfolding open_path has_prefix request_token lookup token must_change password_change_path
with_auth now r s =
    if is_exempt r s then (s, passed_open) else check_token now r (request_token r) s
