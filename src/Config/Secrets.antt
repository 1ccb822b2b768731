-- ===== src/Config/Secrets.antt =====
-- internal/config/secrets.go: the token and the password, in memory and on disk.
pub mod Change
use wrtdeck.Prelude.{
  if◌then◌else◌, is_empty, Dict, Text, nat_key, text_key, ℕ, Bool, true, false, not, ◌&&◌, Option,
  none, some, [],
}
use wrtdeck.Config.Password.{
  Crypto, default_password, PasswordHash, is_zero, new_password_hash, verify,
}

-- `path` is whether there is a file to save to.
pub record Secrets : Type 0 where
  pub api_token : Text
  pub password : PasswordHash
  pub password_updated_at : ℕ
  pub must_change_password : Bool
  pub values : Dict Text Text
  pub path : Bool
  pub from_env : Bool

unfoldable pub token : Secrets → Text
token s = s.api_token

unfoldable pub must_change : Secrets → Bool
must_change s = s.must_change_password

unfoldable pub verify_password : Crypto → Secrets → Text → Bool
unfolding verify
verify_password crypto s password = verify crypto s.password password

-- What `Save` writes: the token of the environment does not go to disk.
unfoldable pub saved : Secrets → Secrets
saved s = if s.from_env then record s { api_token = [] } else s

-- Whether `Save` returns no error: `written` is whether the file system took the file.
abbrev pub save : Bool → Secrets → Bool
save written s = if s.path then written else true

abbrev pub set_hash : ℕ → Bool → Bool → Option PasswordHash → Secrets → Secrets × Bool
set_hash now must_change written none s = (s, false)
set_hash now must_change written (some hash) s =
    let changed = record s {
      password = hash;
      password_updated_at = now;
      must_change_password = must_change;
    } in
    (changed, save written changed)

-- The answer is whether there was no error.
unfoldable pub set_password :
    Crypto → ℕ → Option Text → Bool → Text → Bool → Secrets → Secrets × Bool
unfolding new_password_hash
set_password crypto now salt written password must_change s =
    set_hash now must_change written (new_password_hash crypto salt password) s

-- The new token is an argument. The answer is the token, with whether it was saved.
unfoldable pub rotate : Option Text → Bool → Secrets → Secrets × Option (Text × Bool)
rotate none written s = (s, none)
rotate (some token) written s = if s.from_env then (s, none) else (
  record s { api_token = token },
  some (token, save written (record s { api_token = token })),
)

-- What stands at the path: no file, an error, or what was parsed.
pub data File : Type 0 where
  no_file unreadable unparsable : File
  parsed : Secrets → File

abbrev pub empty_secrets : Secrets
empty_secrets = record {
  api_token = [];
  password = record { algo = []; iterations = 0; salt = []; hash = [] };
  password_updated_at = 0;
  must_change_password = false;
  values = [];
  path = true;
  from_env = false;
}

abbrev pub read_file : File → Option Secrets
read_file no_file = some empty_secrets
read_file unreadable = none
read_file unparsable = none
read_file (parsed s) = some (record s { path = true; from_env = false })

-- `env` is the trimmed value of the variable that the configuration names, `none` if it names none.
abbrev pub load_token : Option Text → Option Text → Secrets → Option (Secrets × Bool)
load_token none fresh s =
    if is_empty s.api_token
    then elim fresh [ none ↦ none | some made ↦ some (record s { api_token = made }, true) ]
    else some (s, false)
load_token (some env_token) fresh s =
    if is_empty env_token
    then none
    else some (record s { api_token = env_token; from_env = true }, false)

abbrev pub first_hash : ℕ → Option PasswordHash → Secrets → Option (Secrets × Bool)
first_hash now none s = none
first_hash now (some hash) s =
    some
      (record s { password = hash; password_updated_at = now; must_change_password = true }, true)

abbrev pub load_password :
    Crypto → ℕ → Option Text → Option (Secrets × Bool) → Option (Secrets × Bool)
load_password crypto now salt none = none
load_password crypto now salt (some (s, changed)) =
    if is_zero s.password
    then first_hash now (new_password_hash crypto salt default_password) s
    else some (s, changed)

abbrev pub load_saved : Bool → Option (Secrets × Bool) → Option Secrets
load_saved written none = none
load_saved written (some (s, changed)) = if changed && not (save written s) then none else some s

abbrev pub load_from :
    Crypto → ℕ → Option Text → Option Text → Option Text → Bool → Option Secrets → Option Secrets
load_from crypto now env fresh salt written none = none
load_from crypto now env fresh salt written (some s) =
    load_saved written (load_password crypto now salt (load_token env fresh s))

-- `fresh` is the random token, `salt` the random salt.
unfoldable pub load_secrets :
    Crypto → ℕ → Option Text → Option Text → Option Text → Bool → File → Option Secrets
unfolding is_zero new_password_hash
load_secrets crypto now env fresh salt written file =
    load_from crypto now env fresh salt written (read_file file)
