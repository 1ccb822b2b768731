-- ===== src/Api/Server/Tests.antt =====
-- Runs of the handlers, and the theorems at concrete inputs.

use wrtdeck.Api.Server.Handlers.{
  Reply, internal_error, logged_in, handle_session_login, handle_session_password,
}
use wrtdeck.Api.Server.Revocation.{with_auth-handle_session_password}
use wrtdeck.Api.Server.Change.{IsAccepted, handle_session_password-unsaved}
use wrtdeck.Api.Server.Access.{Admitted, with_auth-Admitted}
use wrtdeck.Prelude.{
  if◌then◌else◌, get, Text, nat_key, text_key, ne_of_text_eq, codes, trim_left, trim_space,
  has_prefix, ◌*◌, ◌≡◌, refl, sym, ap, ◌∙◌, ◌≢◌, true, false, not, ◌&&◌, some, [], ◌∷◌, ◌++◌, arith,
}
use wrtdeck.Config.Password.{
  password_algo, is_zero, new_password_hash, verify, is_weak, occurs, kinds, strong,
  check_password_strength,
}
use wrtdeck.Config.Secrets.{token, must_change, verify_password, set_password, empty_secrets}
use wrtdeck.Config.Samples.{plain}
use wrtdeck.Api.Clock.{minute}
use wrtdeck.Api.Samples.{tagged}
use wrtdeck.Api.Sessions.{issue, lookup, clear}
use wrtdeck.Api.Sessions.Invariant.{IsValid}
use wrtdeck.Api.Throttle.{normalize_source, allow_record, allow_source, allow, succeed}
use wrtdeck.Api.Server.{
  role_api, role_session, AuthCtx, Request, Server, open_path, password_change_path, bearer_token,
  request_token, invalid_credentials, password_change_required, passed, is_exempt, with_auth,
}
use wrtdeck.Api.Server.Login.{
  is_logged_in, LoggedIn, handle_session_login-LoggedIn, with_auth-handle_session_login,
}

abbrev old_password : Text
old_password = codes "lamp-2024"

abbrev new_password : Text
new_password = codes "door-2025"

abbrev running : Server
running = record {
  auth_disabled = false;
  secrets = record empty_secrets {
    api_token = codes "api-token";
    password = record {
      algo = password_algo;
      iterations = 210000;
      salt = codes "s";
      hash = 1 ∷ old_password ++ codes "s";
    };
  };
  sessions = record { items = []; ttl = 100 };
  logins = record {
    by_ip = [];
    global = record { fails = 0; first_fail = 0; until = 0 };
    max = 5;
    lock_for = 15 * minute;
  };
  handoffs = [];
}

abbrev asks : Text → Text → Request
asks path header = record {
  path_of = path;
  authorization = header;
  query_token = [];
  remote_of = codes "lan";
  is_private = true;
  is_local = false;
  origin_present = true;
  origin_same = true;
}

abbrev login_request : Request
login_request = asks (codes "/api/v1/session/login") []

abbrev list_request : Request
list_request = asks (codes "/api/v1/entries") (codes "Bearer tok-a")

login_run :
    (handle_session_login plain tagged 7 login_request
      (some old_password)
      (some (codes "tok-a"))
      running).1
    ≡ logged_in (codes "tok-a") 0 false
unfolding handle_session_login verify_password verify allow normalize_source allow_source
    allow_record succeed issue must_change is_zero get
login_run = refl

running-IsValid : IsValid running.sessions
running-IsValid = record { table = record { distinct = tt; named = tt }; bounded = omega arith }

login_ok :
    is_logged_in
      (handle_session_login plain tagged 7 login_request
        (some old_password)
        (some (codes "tok-a"))
        running).1
    ≡ true
login_ok = ap is_logged_in login_run

abbrev after_login : Server
after_login =
    (handle_session_login plain tagged 7 login_request (some old_password) (some (codes "tok-a"))
      running).0

handle_session_login-LoggedIn_example :
    LoggedIn plain tagged 7 login_request old_password (codes "tok-a") running after_login
handle_session_login-LoggedIn_example =
    handle_session_login-LoggedIn plain tagged 7 login_request old_password (codes "tok-a") running
      login_ok

list_token : request_token list_request ≡ codes "tok-a"
unfolding request_token bearer_token trim_space trim_left
list_token = refl

list_guarded : is_exempt list_request after_login ≡ false
unfolding handle_session_login verify_password verify allow normalize_source allow_source
    allow_record succeed issue must_change is_zero get open_path has_prefix
list_guarded = refl

token_differs : codes "tok-a" ≢ token running.secrets
unfolding token
token_differs = ne_of_text_eq (codes "tok-a") (codes "api-token") refl

with_auth-handle_session_login_example : (with_auth 60 list_request after_login).1 ≡ (
    if must_change running.secrets && not (password_change_path list_request.path_of)
    then password_change_required
    else passed (record { role = role_session; token_of = codes "tok-a" }))
with_auth-handle_session_login_example =
    with_auth-handle_session_login plain tagged 7 login_request old_password (codes "tok-a") 60
      list_request running running-IsValid login_ok list_token (λ h. cc) token_differs (omega arith)
      list_guarded

api_request : Request
api_request = asks (codes "/api/v1/entries") (codes "bearer api-token ")

api_guarded : is_exempt api_request running ≡ false
unfolding api_request open_path has_prefix
api_guarded = refl

api_passed :
    (with_auth 5 api_request running).1
    ≡ passed (record { role = role_api; token_of = codes "api-token" })
unfolding api_request with_auth open_path has_prefix request_token bearer_token trim_space trim_left
    lookup token
api_passed = refl

with_auth-Admitted_example :
    Admitted 5 api_request running (record { role = role_api; token_of = codes "api-token" })
with_auth-Admitted_example =
    with_auth-Admitted 5 api_request running
      (record { role = role_api; token_of = codes "api-token" }) api_guarded running-IsValid
      api_passed

new_is_strong : check_password_strength new_password ≡ strong
unfolding check_password_strength trim_space trim_left is_weak kinds occurs
new_is_strong = refl

old_is_good : verify_password plain running.secrets old_password ≡ true
unfolding verify_password verify is_zero
old_is_good = refl

gate_is_open : (allow tagged (codes "lan") 7 running.logins).1 ≡ true
unfolding allow normalize_source allow_source allow_record get
gate_is_open = refl

change-IsAccepted : IsAccepted plain tagged 7 login_request old_password new_password running
change-IsAccepted = record {
  throttle_open = gate_is_open;
  verified = old_is_good;
  strong_enough = new_is_strong;
  different = ne_of_text_eq new_password old_password refl;
}

abbrev new_key : Text
new_key = 1 ∷ new_password ++ codes "salt"

abbrev by_api : AuthCtx
by_api = record { role = role_api; token_of = codes "api-token" }

abbrev unsaved : Server × Reply
unsaved =
    handle_session_password plain tagged 7 login_request by_api (some (old_password, new_password))
      (some (codes "salt")) (some (codes "tok-b")) false running

handle_session_password-unsaved_example :
    (unsaved.1 ≡ internal_error)
    × (unsaved.0.sessions ≡ running.sessions)
    × (verify_password plain unsaved.0.secrets new_password ≡ true)
handle_session_password-unsaved_example =
    handle_session_password-unsaved plain tagged 7 login_request old_password new_password
      (codes "salt") (codes "tok-b") false by_api new_key running change-IsAccepted (λ h. cc) refl
      refl

abbrev changed : Server × Reply
changed =
    handle_session_password plain tagged 7 login_request
      (record { role = role_session; token_of = codes "tok-a" }) (some (old_password, new_password))
      (some (codes "salt")) (some (codes "tok-b")) true running

changed_guarded : is_exempt list_request changed.0 ≡ false
unfolding handle_session_password check_password_strength trim_space trim_left is_weak kinds occurs
    verify_password verify is_zero allow normalize_source allow_source allow_record get set_password
    new_password_hash succeed issue clear open_path has_prefix
changed_guarded = refl

asked : request_token list_request ≢ []
asked e = let bad : codes "tok-a" ≡ [] = sym list_token ∙ e in cc bad

other_token : codes "tok-b" ≢ request_token list_request
other_token e = ne_of_text_eq (codes "tok-b") (codes "tok-a") refl (e ∙ list_token)

not_api_token : request_token list_request ≢ token running.secrets
not_api_token e = token_differs (sym list_token ∙ e)

with_auth-handle_session_password_example :
    (is_logged_in changed.1 ≡ true) × ((with_auth 9 list_request changed.0).1 ≡ invalid_credentials)
with_auth-handle_session_password_example =
    with_auth-handle_session_password plain tagged 7 login_request old_password new_password
      (codes "salt") (codes "tok-b") new_key (codes "tok-a") 9 list_request running
      change-IsAccepted (λ h. cc) (λ h. cc) refl asked other_token not_api_token changed_guarded
