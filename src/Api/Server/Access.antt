-- ===== src/Api/Server/Access.antt =====
-- Who is let in.
use wrtdeck.Prelude.{
  ltb, if◌then◌else◌, ltb→ge, Bool-cases, is_empty, get, Text, text_eq, text_eq_iff, nat_key,
  text_key, ℕ, ◌≤◌, ◌≡◌, refl, sym, ap, ◌∙◌, inl, inr, Bool, true, false, not, ◌&&◌, Option, none,
  some,
}
use wrtdeck.Config.Secrets.{token, must_change}
use wrtdeck.Api.Sessions.{Session, Answer, lookup}
use wrtdeck.Api.Sessions.Invariant.{IsValid}
use wrtdeck.Api.Sessions.Lifetime.{answer_of, lookup_lem}
use wrtdeck.Api.Server.{
  role_api, role_session, AuthCtx, Request, Server, password_change_path, request_token, Verdict,
  passed_open, not_logged_in, invalid_credentials, password_change_required, passed, is_exempt,
  session_verdict, check_token, with_auth,
}

-- What a request is let in by.
pub data Admitted (now : ℕ) (r : Request) (s : Server) : AuthCtx → Type 0 where
  by_token :
      request_token r ≡ token s.secrets
      → Admitted now r s (record { role = role_api; token_of = request_token r })
  by_session :
      (item : Session)
      → get (request_token r) s.sessions.items ≡ some item
      → now ≤ item.expires
      → must_change s.secrets && not (password_change_path r.path_of) ≡ false
      → Admitted now r s (record { role = role_session; token_of = request_token r })

-- The verdict on a token that is not empty, by what the table binds it to.
abbrev pub verdict_of : ℕ → Request → Text → Server → Verdict
verdict_of now r bearer s =
    if is_empty bearer
    then not_logged_in
    else if text_eq bearer (token s.secrets)
    then passed (record { role = role_api; token_of = bearer })
    else session_verdict r bearer s (answer_of now (get bearer s.sessions.items))

abbrev three_way :
    Bool → Bool → Server × Verdict → Server × Verdict → Server × Verdict → Server × Verdict
three_way a b x y z = if a then x else if b then y else z

pick_verdict :
    (a b : Bool) (s t : Server) (x y z : Verdict)
    → (three_way a b (s, x) (s, y) (t, z)).1 ≡ (if a then x else if b then y else z)
pick_verdict true b s t x y z = refl
pick_verdict false true s t x y z = refl
pick_verdict false false s t x y z = refl

check_token_lem :
    (now : ℕ) (r : Request) (bearer : Text) (s : Server)
    → IsValid s.sessions
    → (check_token now r bearer s).1 ≡ verdict_of now r bearer s
check_token_lem now r bearer s v =
    pick_verdict (is_empty bearer) (text_eq bearer (token s.secrets)) s
      (record s { sessions = (lookup now bearer s.sessions).0 }) not_logged_in
      (passed (record { role = role_api; token_of = bearer }))
      (session_verdict r bearer s (lookup now bearer s.sessions).1)
    ∙ ap
        (λ (a : Answer).
          if is_empty bearer
          then not_logged_in
          else if text_eq bearer (token s.secrets)
          then passed (record { role = role_api; token_of = bearer })
          else session_verdict r bearer s a)
        (lookup_lem now bearer s.sessions v)

pub with_auth_verdict :
    (now : ℕ) (r : Request) (s : Server)
    → is_exempt r s ≡ false
    → IsValid s.sessions
    → (with_auth now r s).1 ≡ verdict_of now r (request_token r) s
unfolding with_auth
with_auth_verdict now r s guarded v =
    ap
      (λ (b : Bool).
        (three_way b true (s, passed_open) (check_token now r (request_token r) s)
          (s, passed_open)).1)
      guarded
    ∙ check_token_lem now r (request_token r) s v

passed_ctx : (a b : AuthCtx) → passed a ≡ passed b → a ≡ b
passed_ctx a b h = cc h

verdict_sound :
    (now : ℕ) (r : Request) (s : Server) (ctx : AuthCtx) (bound : Option Session)
    → get (request_token r) s.sessions.items ≡ bound
    → session_verdict r (request_token r) s (answer_of now bound) ≡ passed ctx
    → Admitted now r s ctx
verdict_sound now r s ctx none e h = cc h
verdict_sound now r s ctx (some item) e h = elim (Bool-cases (ltb item.expires now)) [
  | inl late ↦ let bad : invalid_credentials ≡ passed ctx = rw late at h in cc bad
  | inr live ↦ elim (Bool-cases (must_change s.secrets && not (password_change_path r.path_of))) [
    | inl blocked ↦
        let bad : password_change_required ≡ passed ctx = rw (live, blocked) at h in cc bad
    | inr free ↦
        let same : passed (record { role = role_session; token_of = request_token r })
            ≡ passed ctx =
          rw (live, free) at h in
        rw (← passed_ctx _ ctx same) (by_session item e (ltb→ge _ _ live) free)
  ]
]

-- A request that is not exempt and is let in, by a server whose table of sessions is well-formed,
-- carries either the token of the API or a token that the table binds to a session that has not
-- expired, and in the latter case the password is no longer the initial one or the path is one of
-- those that stay open until it is changed.
pub with_auth-Admitted :
    (now : ℕ) (r : Request) (s : Server) (ctx : AuthCtx)
    → is_exempt r s ≡ false
    → IsValid s.sessions
    → (with_auth now r s).1 ≡ passed ctx
    → Admitted now r s ctx
with_auth-Admitted now r s ctx guarded v h =
    let verdict : verdict_of now r (request_token r) s ≡ passed ctx =
      sym (with_auth_verdict now r s guarded v) ∙ h in
    elim (Bool-cases (is_empty (request_token r))) [
      | inl empty ↦ let bad : not_logged_in ≡ passed ctx = rw empty at verdict in cc bad
      | inr some_token ↦ elim (Bool-cases (text_eq (request_token r) (token s.secrets))) [
        | inl api ↦
            let same : passed (record { role = role_api; token_of = request_token r })
                ≡ passed ctx =
              rw (some_token, api) at verdict in
            rw (← passed_ctx _ ctx same)
              (by_token ((text_eq_iff (request_token r) (token s.secrets)).0 api))
        | inr other ↦
            verdict_sound now r s ctx (get (request_token r) s.sessions.items) refl
              (rw (some_token, other) at verdict)
      ]
    ]
