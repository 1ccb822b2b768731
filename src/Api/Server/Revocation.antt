-- ===== src/Api/Server/Revocation.antt =====
-- That a change of the password ends every session but the one it issues.
use wrtdeck.Api.Server.Handlers.{Reply, password_changed, handle_session_password}
use wrtdeck.Api.Sessions.Invariant.{IsValid, issue-IsValid}
use wrtdeck.Api.Server.Access.{verdict_of, with_auth_verdict}
use wrtdeck.Api.Clock.{after}
use wrtdeck.Config.Secrets.Change.{verify_password-set_password}
use wrtdeck.Api.Sessions.Lifetime.{answer_of}
use wrtdeck.Api.Sessions.{Session, SessionStore, prune, issue, missing, clear}
use wrtdeck.Prelude.{
  get-put, get, keep, Text, nat_key, text_key, ℕ, ◌+◌, ◌≡◌, ap, ◌∙◌, ◌≢◌, true, false, some, [],
  arith,
}
use wrtdeck.Config.Password.{Crypto, password_iterations}
use wrtdeck.Config.Secrets.{Secrets, token, save, set_password}
use wrtdeck.Api.Ip.{IpText}
use wrtdeck.Api.Throttle.{allow}
use wrtdeck.Api.Server.{
  role_session, AuthCtx, Request, Server, request_token, invalid_credentials, is_exempt, with_auth,
}
use wrtdeck.Api.Server.Login.{is_logged_in, not_empty, not_token}
use wrtdeck.Api.Server.Change.{
  IsAccepted, accepted_eq, set_password_answer, set_without_error, issued_again, sessions_again,
  secrets_again,
}

answer_of-cleared :
    (now later : ℕ) (fresh other remote : Text) (sessions : SessionStore)
    → fresh ≢ other
    → answer_of later (get other (issue now (some fresh) remote (clear sessions)).0.items) ≡ missing
unfolding issue clear prune keep get
answer_of-cleared now later fresh other remote sessions h =
    let item : Session = record {
      token = fresh;
      created = now;
      expires = now + sessions.ttl;
      remote = remote;
    } in
    rw (get-put other fresh item [], not_token fresh other h)

refused :
    (now later : ℕ) (fresh remote : Text) (q : Request) (sessions : SessionStore) (after : Server)
    → after.sessions ≡ (issue now (some fresh) remote (clear sessions)).0
    → request_token q ≢ []
    → fresh ≢ request_token q
    → request_token q ≢ token after.secrets
    → verdict_of later q (request_token q) after ≡ invalid_credentials
refused now later fresh remote q sessions after e named other not_api = rw (
  e,
  not_empty (request_token q) named,
  not_token (request_token q) (token after.secrets) not_api,
  answer_of-cleared now later fresh (request_token q) remote sessions other,
)

clear-IsValid : (s : SessionStore) → IsValid (clear s)
unfolding clear
clear-IsValid s = record { table = record { distinct = tt; named = tt }; bounded = omega arith }

module _ (crypto : Crypto) (net : IpText) (now : ℕ) (r : Request)
    (current new salt fresh key bearer : Text) where
  abbrev change : Server → Server × Reply
  change s =
      handle_session_password crypto net now r (record { role = role_session; token_of = bearer })
        (some (current, new)) (some salt) (some fresh) true s

  save_written : (s : Secrets) → save true s ≡ true
  save_written s = ground arith

  change_eq :
      (s : Server)
      → IsAccepted crypto net now r current new s
      → crypto.derive new salt password_iterations ≡ some key
      → change s
        ≡ password_changed crypto net now r
            (record { role = role_session; token_of = bearer })
            (some fresh)
            (record s {
              logins = (allow net r.remote_of now s.logins).0;
              secrets = (set_password crypto now (some salt) true new false s.secrets).0;
            })
  change_eq s a derived =
      let ctx : AuthCtx = record { role = role_session; token_of = bearer } in
      let t = record s { logins = (allow net r.remote_of now s.logins).0 } in
      accepted_eq crypto net now r current new salt fresh true ctx s a
      ∙ set_without_error crypto net now r current new salt fresh true ctx t
          (set_password crypto now (some salt) true new false s.secrets)
          (set_password_answer crypto net now r current new salt fresh true key s.secrets derived
            ∙ save_written s.secrets)

  -- After a change of the password by a holder of a session, accepted and saved, with a salt and a
  -- fresh token that are not empty, the caller is given a session, and `with_auth` refuses every
  -- request that is not exempt and carries any token but the fresh one and that of the API.
  pub with_auth-handle_session_password :
      (later : ℕ) (q : Request) (s : Server)
      → IsAccepted crypto net now r current new s
      → salt ≢ []
      → fresh ≢ []
      → crypto.derive new salt password_iterations ≡ some key
      → request_token q ≢ []
      → fresh ≢ request_token q
      → request_token q ≢ token s.secrets
      → is_exempt q (change s).0 ≡ false
      → (is_logged_in (change s).1 ≡ true)
        × ((with_auth later q (change s).0).1 ≡ invalid_credentials)
  with_auth-handle_session_password later q s a salted named derived asked other not_api guarded =
      let set = (set_password crypto now (some salt) true new false s.secrets).0 in
      let t : Server = record s {
        logins = (allow net r.remote_of now s.logins).0;
        secrets = set;
      } in
      let whole = change_eq s a derived in
      let logged =
        ap (λ (p : Server × Reply). is_logged_in p.1) whole
        ∙ issued_again crypto net now r current new salt fresh true bearer t in
      let new_sessions =
        ap (λ (p : Server × Reply). p.0.sessions) whole
        ∙ sessions_again crypto net now r current new salt fresh true bearer t in
      let new_secrets =
        ap (λ (p : Server × Reply). p.0.secrets) whole
        ∙ secrets_again crypto net now r current new salt fresh true bearer t in
      let valid : IsValid (change s).0.sessions =
        rw new_sessions (
          issue-IsValid now fresh r.remote_of (clear s.sessions) named
            (clear-IsValid s.sessions)) in
      let same_token : token (change s).0.secrets ≡ token s.secrets =
        ap (λ (x : Secrets). token x) new_secrets
        ∙ (verify_password-set_password crypto salt key new salted derived now true false new
            s.secrets).2 in
      let not_new_api : request_token q ≢ token (change s).0.secrets =
        λ e. not_api (e ∙ same_token) in
      (
        logged,
        with_auth_verdict later q (change s).0 guarded valid
            ∙ refused now later fresh r.remote_of q s.sessions (change s).0 new_sessions asked other
                not_new_api,
      )
