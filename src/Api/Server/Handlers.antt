-- ===== src/Api/Server/Handlers.antt =====
-- internal/api/session.go: the handlers of login, logout, the change of the password and the codes.
use wrtdeck.Prelude.{
  if◌then◌else◌, Text, text_eq, nat_key, text_key, exceeds, trim_space, ℕ, ◌+◌, ◌-◌, Bool, true,
  false, not, ◌&&◌, Option, none, some,
}
use wrtdeck.Config.Password.{Crypto, Strength, strong, check_password_strength}
use wrtdeck.Config.Secrets.{Secrets, must_change, verify_password, saved, set_password}
use wrtdeck.Api.Clock.{seconds}
use wrtdeck.Api.Ip.{IpText}
use wrtdeck.Api.Sessions.{
  SessionStore, issue, Answer, missing, nil_item, hit, lookup, revoke, clear,
}
use wrtdeck.Api.Handoff.{HandoffStore, issue_code, redeem}
use wrtdeck.Api.Throttle.{LoginThrottle, allow, fail, succeed}
use wrtdeck.Api.Server.{Role, is_session, AuthCtx, Request, Server}

-- The answers of the handlers. A wait is in whole seconds.
pub data Reply : Type 0 where
  auth_is_disabled bad_request setup_required bad_credentials internal_error : Reply
  same_password remote_not_allowed cross_origin bad_code done : Reply
  locked_out : ℕ → Reply
  weak_password : Strength → Reply
  logged_in : Text → ℕ → Bool → Reply
  code_issued : Text → ℕ → Reply
  identity : Role → Bool → ℕ → Reply

-- `lock > 0`
abbrev pub is_locked : ℕ → Bool
is_locked lock = exceeds lock 0

abbrev pub wrong_password : Server → LoginThrottle × ℕ → Server × Reply
wrong_password s (logins, lock) = (
  record s { logins = logins },
  if is_locked lock then locked_out (seconds lock + 1) else bad_credentials,
)

abbrev pub issued_as : Server → Bool → SessionStore × Option (Text × ℕ) → Server × Reply
issued_as s must (sessions, none) = (record s { sessions = sessions }, internal_error)
issued_as s must (sessions, some (fresh, ttl)) =
    (record s { sessions = sessions }, logged_in fresh ttl must)

module _ (crypto : Crypto) (net : IpText) where
  -- The part of the login that follows the throttle.
  abbrev pub login_allowed : ℕ → Request → Text → Option Text → Server → Server × Reply
  login_allowed now r password fresh s =
      if verify_password crypto s.secrets password
      then issued_as (record s { logins = succeed net r.remote_of s.logins })
          (must_change s.secrets) (issue now fresh r.remote_of s.sessions)
      else wrong_password s (fail net r.remote_of now s.logins)

  abbrev pub login_throttled :
      ℕ → Request → Text → Option Text → Server → LoginThrottle × Bool × ℕ → Server × Reply
  login_throttled now r password fresh s (logins, allowed, wait) =
      if allowed
      then login_allowed now r password fresh (record s { logins = logins })
      else (record s { logins = logins }, locked_out (seconds wait + 1))

  -- The password of the body is `none` where it is no JSON. The clock is read once.
  unfoldable pub handle_session_login :
      ℕ → Request → Option Text → Option Text → Server → Server × Reply
  unfolding verify_password must_change succeed fail issue allow
  handle_session_login now r none fresh s =
      (s, if s.auth_disabled then auth_is_disabled else bad_request)
  handle_session_login now r (some password) fresh s =
      if s.auth_disabled
      then (s, auth_is_disabled)
      else if must_change s.secrets && not r.is_private
      then (s, setup_required)
      else login_throttled now r password fresh s (allow net r.remote_of now s.logins)

  unfoldable pub handle_session_logout : AuthCtx → Server → Server × Reply
  unfolding revoke
  handle_session_logout ctx s =
      if is_session ctx.role
      then (record s { sessions = revoke ctx.token_of s.sessions }, done)
      else (s, done)

  abbrev pub identity_as : ℕ → AuthCtx → Server → SessionStore × Answer → Server × Reply
  identity_as now ctx s (sessions, hit item) = (
    record s { sessions = sessions },
    identity ctx.role (must_change s.secrets) (seconds (item.expires - now)),
  )
  identity_as now ctx s (sessions, missing) =
      (record s { sessions = sessions }, identity ctx.role (must_change s.secrets) 0)
  identity_as now ctx s (sessions, nil_item) =
      (record s { sessions = sessions }, identity ctx.role (must_change s.secrets) 0)

  unfoldable pub handle_session_me : ℕ → AuthCtx → Server → Server × Reply
  unfolding must_change lookup
  handle_session_me now ctx s =
      if is_session ctx.role
      then identity_as now ctx s (lookup now ctx.token_of s.sessions)
      else (s, identity ctx.role (must_change s.secrets) 0)

  -- The end of the change: every session is dropped, and a caller with a session is given a new one.
  abbrev pub password_changed : ℕ → Request → AuthCtx → Option Text → Server → Server × Reply
  password_changed now r ctx fresh s =
      let emptied = record s {
        logins = succeed net r.remote_of s.logins;
        sessions = clear s.sessions;
      } in
      if is_session ctx.role
      then issued_as emptied false (issue now fresh r.remote_of emptied.sessions)
      else (emptied, done)

  abbrev pub password_set :
      ℕ → Request → AuthCtx → Option Text → Server → Secrets × Bool → Server × Reply
  password_set now r ctx fresh s (secrets, saved) =
      if saved
      then password_changed now r ctx fresh (record s { secrets = secrets })
      else (record s { secrets = secrets }, internal_error)

  abbrev pub is_strong_enough : Strength → Bool
  is_strong_enough strong = true
  is_strong_enough _ = false

  abbrev pub password_verified :
      ℕ
      → Request
      → AuthCtx
      → Text
      → Text
      → Option Text
      → Option Text
      → Bool
      → Server
      → Server × Reply
  password_verified now r ctx current new salt fresh written s =
      if not (is_strong_enough (check_password_strength new))
      then (s, weak_password (check_password_strength new))
      else if text_eq new current
      then (s, same_password)
      else password_set now r ctx fresh s (set_password crypto now salt written new false s.secrets)

  abbrev pub password_throttled :
      ℕ
      → Request
      → AuthCtx
      → Text
      → Text
      → Option Text
      → Option Text
      → Bool
      → Server
      → LoginThrottle × Bool × ℕ
      → Server × Reply
  password_throttled now r ctx current new salt fresh written s (logins, allowed, wait) =
      let t = record s { logins = logins } in
      if not allowed
      then (t, locked_out (seconds wait + 1))
      else if verify_password crypto s.secrets current
      then password_verified now r ctx current new salt fresh written t
      else wrong_password t (fail net r.remote_of now logins)

  -- The body is the current password and the new one.
  unfoldable pub handle_session_password :
      ℕ
      → Request
      → AuthCtx
      → Option (Text × Text)
      → Option Text
      → Option Text
      → Bool
      → Server
      → Server × Reply
  unfolding verify_password check_password_strength set_password succeed fail issue allow clear
  handle_session_password now r ctx none salt fresh written s = (s, bad_request)
  handle_session_password now r ctx (some (current, new)) salt fresh written s =
      password_throttled now r ctx current new salt fresh written s
        (allow net r.remote_of now s.logins)

  abbrev pub code_as : Server → HandoffStore × Option (Text × ℕ) → Server × Reply
  code_as s (handoffs, none) = (record s { handoffs = handoffs }, internal_error)
  code_as s (handoffs, some (code, ttl)) = (record s { handoffs = handoffs }, code_issued code ttl)

  unfoldable pub handle_session_handoff : ℕ → Request → Option Text → Server → Server × Reply
  unfolding issue_code
  handle_session_handoff now r code s =
      if r.is_local then code_as s (issue_code now code s.handoffs) else (s, remote_not_allowed)

  abbrev pub redeemed_as : ℕ → Request → Option Text → Server → HandoffStore × Bool → Server × Reply
  redeemed_as now r fresh s (handoffs, good) =
      let t = record s { handoffs = handoffs } in
      if good
      then issued_as t (must_change s.secrets) (issue now fresh r.remote_of s.sessions)
      else (t, bad_code)

  unfoldable pub handle_session_redeem :
      ℕ → Request → Option Text → Option Text → Server → Server × Reply
  unfolding redeem issue trim_space must_change
  handle_session_redeem now r none fresh s =
      (s, if r.origin_present && r.origin_same then bad_request else cross_origin)
  handle_session_redeem now r (some code) fresh s =
      if r.origin_present && r.origin_same
      then redeemed_as now r fresh s (redeem now (trim_space code) s.handoffs)
      else (s, cross_origin)
