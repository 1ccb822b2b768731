-- ===== src/Api/Server/Login.antt =====
-- What a login and a change of the password grant and revoke.
use wrtdeck.Api.Server.Handlers.{
  Reply, auth_is_disabled, setup_required, logged_in, wrong_password, login_allowed,
  login_throttled, handle_session_login,
}
use wrtdeck.Api.Sessions.Lifetime.{answer_of, lookup_lem, lookup-issue}
use wrtdeck.Api.Server.Access.{verdict_of, with_auth_verdict}
use mathlib.Core.Path.{subst}
use wrtdeck.Api.Sessions.Invariant.{IsValid, issue-IsValid}
use wrtdeck.Prelude.{
  ltb, if◌then◌else◌, Bool-cases, is_empty, get, Text, text_eq, text_eq_iff, nat_key, text_key, ℕ,
  ◌+◌, ◌≤◌, ◌≡◌, refl, sym, ap, ◌∙◌, ◌≢◌, inl, inr, Bool, true, false, not, ◌&&◌, some, [], ◌∷◌,
  arith,
}
use wrtdeck.Config.Password.{Crypto}
use wrtdeck.Config.Secrets.{token, must_change, verify_password}
use wrtdeck.Api.Clock.{after, seconds}
use wrtdeck.Api.Ip.{IpText}
use wrtdeck.Api.Sessions.{SessionStore, issue, hit}
use wrtdeck.Api.Throttle.{LoginThrottle, allow, fail, succeed}
use wrtdeck.Api.Server.{
  role_session, Request, Server, password_change_path, request_token, password_change_required,
  passed, is_exempt, with_auth,
}

abbrev pub is_logged_in : Reply → Bool
is_logged_in (logged_in fresh ttl must) = true
is_logged_in _ = false

-- What a login must have passed, and what it leaves.
pub record LoggedIn (crypto : Crypto) (net : IpText) (now : ℕ) (r : Request) (password fresh : Text)
    (s after : Server) : Type 0 where
  pub enabled : s.auth_disabled ≡ false
  pub set_up : must_change s.secrets && not r.is_private ≡ false
  pub throttle_open : (allow net r.remote_of now s.logins).1 ≡ true
  pub verified : verify_password crypto s.secrets password ≡ true
  pub issued_session : after.sessions ≡ (issue now (some fresh) r.remote_of s.sessions).0
  pub same_secrets : after.secrets ≡ s.secrets
  pub still_enabled : after.auth_disabled ≡ s.auth_disabled

pub answer_of-issue :
    (now later : ℕ) (fresh remote : Text) (sessions : SessionStore)
    → IsValid sessions
    → fresh ≢ []
    → later ≤ now + sessions.ttl
    → answer_of later (get fresh (issue now (some fresh) remote sessions).0.items)
      ≡ hit (record { token = fresh; created = now; expires = now + sessions.ttl; remote = remote })
answer_of-issue now later fresh remote sessions v named in_time =
    sym (
      lookup_lem later fresh (issue now (some fresh) remote sessions).0
        (issue-IsValid now fresh remote sessions named v))
    ∙ lookup-issue now later fresh remote sessions v named
    ∙ (let live : ltb (now + sessions.ttl) later ≡ false = ground (arith, in_time) in rw live)

pub not_empty : (t : Text) → t ≢ [] → is_empty t ≡ false
not_empty [] h = absurd (h refl)
not_empty (c ∷ t) h = refl

pub not_token : (a b : Text) → a ≢ b → text_eq a b ≡ false
not_token a b h = ground (arith, text_eq_iff a b, h)

granted :
    (now later : ℕ) (fresh remote : Text) (q : Request) (s after : Server)
    → IsValid s.sessions
    → fresh ≢ []
    → fresh ≢ token s.secrets
    → later ≤ now + s.sessions.ttl
    → after.sessions ≡ (issue now (some fresh) remote s.sessions).0
    → after.secrets ≡ s.secrets
    → verdict_of later q fresh after ≡ (
        if must_change s.secrets && not (password_change_path q.path_of)
        then password_change_required
        else passed (record { role = role_session; token_of = fresh }))
granted now later fresh remote q s after v named other in_time issued_session same_secrets = rw (
  same_secrets,
  issued_session,
  not_empty fresh named,
  not_token fresh (token s.secrets) other,
  answer_of-issue now later fresh remote s.sessions v named in_time,
)

module _ (crypto : Crypto) (net : IpText) (now : ℕ) (r : Request) (password fresh : Text) where
  wrong_fails : (s : Server) (p : LoginThrottle × ℕ) → is_logged_in (wrong_password s p).1 ≡ false
  wrong_fails s (logins, lock) = ground arith

  allowed_fails :
      (s : Server)
      → verify_password crypto s.secrets password ≡ false
      → is_logged_in (login_allowed crypto net now r password (some fresh) s).1 ≡ false
  allowed_fails s bad = rw bad (wrong_fails s (fail net r.remote_of now s.logins))

  allowed_issues :
      (s : Server)
      → verify_password crypto s.secrets password ≡ true
      → login_allowed crypto net now r password (some fresh) s ≡ (
        record s {
          logins = succeed net r.remote_of s.logins;
          sessions = (issue now (some fresh) r.remote_of s.sessions).0;
        },
        logged_in fresh (seconds s.sessions.ttl) (must_change s.secrets),
      )
  unfolding issue
  allowed_issues s good = rw good

  record Throttled (s : Server) (p : LoginThrottle × Bool × ℕ) (result : Server × Reply)
      : Type 0 where
    open_gate : p.1 ≡ true
    good : verify_password crypto s.secrets password ≡ true
    new_sessions : result.0.sessions ≡ (issue now (some fresh) r.remote_of s.sessions).0
    old_secrets : result.0.secrets ≡ s.secrets
    old_mode : result.0.auth_disabled ≡ s.auth_disabled

  throttled_lem :
      (s : Server) (p : LoginThrottle × Bool × ℕ)
      → is_logged_in (login_throttled crypto net now r password (some fresh) s p).1 ≡ true
      → Throttled s p (login_throttled crypto net now r password (some fresh) s p)
  throttled_lem s (logins, false, wait) h = cc h
  throttled_lem s (logins, true, wait) h =
      elim (Bool-cases (verify_password crypto s.secrets password)) [
        | inl good ↦ rw (allowed_issues (record s { logins = logins }) good) (record {
          open_gate = refl;
          good = good;
          new_sessions = refl;
          old_secrets = refl;
          old_mode = refl;
        })
        | inr bad ↦ cc (h, allowed_fails (record s { logins = logins }) bad)
      ]

  abbrev choose : Bool → Bool → Server × Reply → Server × Reply → Server × Reply → Server × Reply
  choose a b x y z = if a then x else if b then y else z

  chosen :
      (a b : Bool) (x y z : Server × Reply)
      → is_logged_in x.1 ≡ false
      → is_logged_in y.1 ≡ false
      → is_logged_in (choose a b x y z).1 ≡ true
      → (a ≡ false) × (b ≡ false) × (choose a b x y z ≡ z)
  chosen true b x y z hx hy h = cc (hx, h)
  chosen false true x y z hx hy h = cc (hy, h)
  chosen false false x y z hx hy h = (refl, refl, refl)

  -- A login is granted only where authorisation is enabled, the source is private while the
  -- password is the initial one, the throttle lets the source through and the password is right;
  -- the table of sessions is then the old one with the fresh token issued, and the secrets are
  -- unchanged.
  pub handle_session_login-LoggedIn :
      (s : Server)
      → is_logged_in (handle_session_login crypto net now r (some password) (some fresh) s).1 ≡ true
      → LoggedIn crypto net now r password fresh s
          (handle_session_login crypto net now r (some password) (some fresh) s).0
  unfolding handle_session_login
  handle_session_login-LoggedIn s h =
      let last =
        login_throttled crypto net now r password (some fresh) s
          (allow net r.remote_of now s.logins) in
      let (enabled, set_up, same) =
        chosen s.auth_disabled (must_change s.secrets && not r.is_private) (s, auth_is_disabled)
          (s, setup_required) last refl refl h in
      let t = throttled_lem s (allow net r.remote_of now s.logins) (rw same at h) in
      let result : LoggedIn crypto net now r password fresh s last.0 = record {
        enabled = enabled;
        set_up = set_up;
        throttle_open = t.open_gate;
        verified = t.good;
        issued_session = t.new_sessions;
        same_secrets = t.old_secrets;
        still_enabled = t.old_mode;
      } in
      subst (λ (p : Server × Reply). LoggedIn crypto net now r password fresh s p.0) (sym same)
        result

  -- After a login that was granted by a server with a well-formed table, a request that is not
  -- exempt and carries the fresh token, which is not empty and not that of the API, is let in as a
  -- session until the lifetime of sessions has passed, except that under the initial password only
  -- the paths of the change are.
  pub with_auth-handle_session_login :
      (later : ℕ) (q : Request) (s : Server)
      → IsValid s.sessions
      → is_logged_in (handle_session_login crypto net now r (some password) (some fresh) s).1 ≡ true
      → request_token q ≡ fresh
      → fresh ≢ []
      → fresh ≢ token s.secrets
      → later ≤ now + s.sessions.ttl
      → is_exempt q (handle_session_login crypto net now r (some password) (some fresh) s).0 ≡ false
      → (with_auth later q
          (handle_session_login crypto net now r (some password) (some fresh) s).0).1
        ≡ (if must_change s.secrets && not (password_change_path q.path_of)
            then password_change_required
            else passed (record { role = role_session; token_of = fresh }))
  with_auth-handle_session_login later q s v h same named other in_time guarded =
      let after = (handle_session_login crypto net now r (some password) (some fresh) s).0 in
      let l = handle_session_login-LoggedIn s h in
      let valid : IsValid after.sessions =
        rw l.issued_session (issue-IsValid now fresh r.remote_of s.sessions named v) in
      with_auth_verdict later q after guarded valid
      ∙ ap (λ (bearer : Text). verdict_of later q bearer after) same
      ∙ granted now later fresh r.remote_of q s after v named other in_time l.issued_session
          l.same_secrets
