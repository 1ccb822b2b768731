-- ===== src/Api/Server/Change.antt =====
-- A change of the password, step by step, and what it leaves where it is not saved.
use wrtdeck.Api.Server.Handlers.{
  Reply, internal_error, password_changed, password_set, password_throttled,
  handle_session_password,
}
use mathlib.Core.Path.{subst}
use wrtdeck.Config.Secrets.Change.{verify_password-set_password}
use wrtdeck.Api.Sessions.{issue, clear}
use wrtdeck.Prelude.{
  Text, nat_key, text_key, text_eq_refl, ℕ, ◌≡◌, refl, sym, ◌∙◌, ◌≢◌, Bool, true, false, some, [],
}
use wrtdeck.Config.Password.{
  Crypto, password_iterations, new_password_hash, strong, check_password_strength,
}
use wrtdeck.Config.Secrets.{Secrets, verify_password, save, set_password}
use wrtdeck.Api.Ip.{IpText}
use wrtdeck.Api.Throttle.{LoginThrottle, allow}
use wrtdeck.Api.Server.{role_session, AuthCtx, Request, Server}
use wrtdeck.Api.Server.Login.{is_logged_in, not_token}

-- What a change must have passed before it is made.
pub record IsAccepted (crypto : Crypto) (net : IpText) (now : ℕ) (r : Request) (current new : Text)
    (s : Server) : Type 0 where
  pub throttle_open : (allow net r.remote_of now s.logins).1 ≡ true
  pub verified : verify_password crypto s.secrets current ≡ true
  pub strong_enough : check_password_strength new ≡ strong
  pub different : new ≢ current

module _ (crypto : Crypto) (net : IpText) (now : ℕ) (r : Request) (current new salt fresh : Text)
    (written : Bool) where
  throttled_eq :
      (ctx : AuthCtx) (s : Server) (p : LoginThrottle × Bool × ℕ)
      → p.1 ≡ true
      → verify_password crypto s.secrets current ≡ true
      → check_password_strength new ≡ strong
      → new ≢ current
      → password_throttled crypto net now r ctx current new (some salt) (some fresh) written s p
        ≡ password_set crypto net now r ctx
            (some fresh)
            (record s { logins = p.0 })
            (set_password crypto now (some salt) written new false s.secrets)
  throttled_eq ctx s (logins, false, wait) gate good strength different = cc gate
  throttled_eq ctx s (logins, true, wait) gate good strength different =
      rw (good, strength, not_token new current different)

  pub accepted_eq :
      (ctx : AuthCtx) (s : Server)
      → IsAccepted crypto net now r current new s
      → handle_session_password crypto net now r ctx
          (some (current, new))
          (some salt)
          (some fresh)
          written
          s
        ≡ password_set crypto net now r ctx
            (some fresh)
            (record s { logins = (allow net r.remote_of now s.logins).0 })
            (set_password crypto now (some salt) written new false s.secrets)
  unfolding handle_session_password
  accepted_eq ctx s a =
      throttled_eq ctx s (allow net r.remote_of now s.logins) a.throttle_open a.verified
        a.strong_enough a.different

  pub set_password_answer :
      (key : Text) (s : Secrets)
      → crypto.derive new salt password_iterations ≡ some key
      → (set_password crypto now (some salt) written new false s).1 ≡ save written s
  unfolding set_password new_password_hash
  set_password_answer key s derived = rw derived

  set_with_error :
      (ctx : AuthCtx) (s : Server) (p : Secrets × Bool)
      → p.1 ≡ false
      → password_set crypto net now r ctx (some fresh) s p
        ≡ (record s { secrets = p.0 }, internal_error)
  set_with_error ctx s (secrets, false) e = refl
  set_with_error ctx s (secrets, true) e = cc e

  pub set_without_error :
      (ctx : AuthCtx) (s : Server) (p : Secrets × Bool)
      → p.1 ≡ true
      → password_set crypto net now r ctx (some fresh) s p
        ≡ password_changed crypto net now r ctx (some fresh) (record s { secrets = p.0 })
  set_without_error ctx s (secrets, false) e = cc e
  set_without_error ctx s (secrets, true) e = refl

  pub issued_again :
      (bearer : Text) (s : Server)
      → is_logged_in
          (password_changed crypto net now r
            (record { role = role_session; token_of = bearer })
            (some fresh)
            s).1
        ≡ true
  unfolding issue
  issued_again bearer s = refl

  pub sessions_again :
      (bearer : Text) (s : Server)
      → (password_changed crypto net now r
          (record { role = role_session; token_of = bearer })
          (some fresh)
          s).0.sessions
        ≡ (issue now (some fresh) r.remote_of (clear s.sessions)).0
  unfolding issue
  sessions_again bearer s = refl

  pub secrets_again :
      (bearer : Text) (s : Server)
      → (password_changed crypto net now r
          (record { role = role_session; token_of = bearer })
          (some fresh)
          s).0.secrets
        ≡ s.secrets
  unfolding issue
  secrets_again bearer s = refl

  -- Where an accepted change of the password, with a salt that is not empty and a key derived of
  -- the new password, cannot be saved, the reply is an error, but the new password is the one that
  -- holds from then on, and every session stays.
  pub handle_session_password-unsaved :
      (ctx : AuthCtx) (key : Text) (s : Server)
      → IsAccepted crypto net now r current new s
      → salt ≢ []
      → crypto.derive new salt password_iterations ≡ some key
      → save written s.secrets ≡ false
      → ((handle_session_password crypto net now r ctx
            (some (current, new))
            (some salt)
            (some fresh)
            written
            s).1
          ≡ internal_error)
        × ((handle_session_password crypto net now r ctx
              (some (current, new))
              (some salt)
              (some fresh)
              written
              s).0.sessions
            ≡ s.sessions)
        × (verify_password crypto
              (handle_session_password crypto net now r ctx
                (some (current, new))
                (some salt)
                (some fresh)
                written
                s).0.secrets
              new
            ≡ true)
  handle_session_password-unsaved ctx key s a salted derived unsaved =
      let set = set_password crypto now (some salt) written new false s.secrets in
      let t = record s { logins = (allow net r.remote_of now s.logins).0 } in
      let whole =
        accepted_eq ctx s a
        ∙ set_with_error ctx t set (set_password_answer key s.secrets derived ∙ unsaved) in
      let known =
        (verify_password-set_password crypto salt key new salted derived now written false new
          s.secrets).0 in
      let accepts : verify_password crypto set.0 new ≡ true =
        known ∙ rw derived (text_eq_refl key) in
      subst
        (λ (p : Server × Reply).
          (p.1 ≡ internal_error)
          × (p.0.sessions ≡ s.sessions)
          × (verify_password crypto p.0.secrets new ≡ true))
        (sym whole) (refl, refl, accepts)
