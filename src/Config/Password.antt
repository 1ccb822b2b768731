-- ===== src/Config/Password.antt =====
-- internal/config/password.go: the hash of the password, and what a new one must be.
pub mod Policy
use wrtdeck.Prelude.{
  ltb, leb, ◌==◌, if◌then◌else◌, length, is_empty, Text, text_eq, nat_key, text_key, codes,
  trim_space, ℕ, ◌+◌, ◌≡◌, ◌≢◌, Bool, true, false, not, ◌&&◌, ◌||◌, Option, none, some, List, [],
  ◌∷◌, map,
}

-- crypto/pbkdf2 and base64, which turn a password, a salt and a count of rounds into a key, and bytes
-- into text and back.
pub record Crypto : Type 0 where
  pub derive : Text → Text → ℕ → Option Text
  pub encode : Text → Text
  pub decode : Text → Option Text
  pub decode_encode : (bytes : Text) → decode (encode bytes) ≡ some bytes
  pub encode_named : (bytes : Text) → bytes ≢ [] → encode bytes ≢ []
  pub derive_named :
      (password salt key : Text) (rounds : ℕ) → derive password salt rounds ≡ some key → key ≢ []

abbrev pub password_algo : Text
password_algo = codes "pbkdf2-sha256"

abbrev pub password_iterations : ℕ
password_iterations = 210000

abbrev pub default_password : Text
default_password = codes "admin"

abbrev pub password_min_runes : ℕ
password_min_runes = 8

abbrev pub password_max_runes : ℕ
password_max_runes = 128

abbrev pub weak_passwords : List Text
weak_passwords =
    codes "admin"
    ∷ codes "admin123"
    ∷ codes "administrator"
    ∷ codes "password"
    ∷ codes "passw0rd"
    ∷ codes "12345678"
    ∷ codes "123456789"
    ∷ codes "1234567890"
    ∷ codes "87654321"
    ∷ codes "qwertyui"
    ∷ codes "qwerty123"
    ∷ codes "letmein1"
    ∷ codes "iloveyou"
    ∷ codes "wrtdeck"
    ∷ codes "wrtdeck123"
    ∷ codes "openwrt"
    ∷ codes "rootroot"
    ∷ codes "changeme"
    ∷ codes "secret12"
    ∷ codes "default1"
    ∷ []

pub record PasswordHash : Type 0 where
  pub algo : Text
  pub iterations : ℕ
  pub salt : Text
  pub hash : Text

unfoldable pub is_zero : PasswordHash → Bool
is_zero h = is_empty h.hash || is_empty h.salt

abbrev pub hash_of : Crypto → Text → Option Text → Option PasswordHash
hash_of crypto salt none = none
hash_of crypto salt (some derived) = some (record {
  algo = password_algo;
  iterations = password_iterations;
  salt = crypto.encode salt;
  hash = crypto.encode derived;
})

-- The random salt is an argument, `none` for the error of its source.
unfoldable pub new_password_hash : Crypto → Option Text → Text → Option PasswordHash
new_password_hash crypto none password = none
new_password_hash crypto (some salt) password =
    hash_of crypto salt (crypto.derive password salt password_iterations)

abbrev pub matches_key : Option Text → Text → Bool
matches_key none want = false
matches_key (some derived) want = text_eq derived want

abbrev pub verify_decoded : Crypto → ℕ → Text → Option Text → Option Text → Bool
verify_decoded crypto iterations password none want = false
verify_decoded crypto iterations password (some salt) none = false
verify_decoded crypto iterations password (some salt) (some want) =
    matches_key
      (crypto.derive password salt (if leb iterations 0 then password_iterations else iterations))
      want

unfoldable pub verify : Crypto → PasswordHash → Text → Bool
unfolding is_zero
verify crypto h password =
    if is_zero h
    then false
    else verify_decoded crypto h.iterations password (crypto.decode h.salt) (crypto.decode h.hash)

-- What of `strings.ToLower` can make an ASCII letter: the capitals, the sign of the kelvin, and the
-- capital I with a dot. The words of the table are ASCII, so that no other letter decides whether a
-- password is one of them.
abbrev pub lower : ℕ → ℕ
lower c =
    if leb b'A' c && leb c b'Z'
    then c + 32
    else if c == 0x212a
    then b'k'
    else if c == 0x130
    then b'i'
    else c

abbrev pub is_one_of : Text → List Text → Bool
is_one_of t [] = false
is_one_of t (word ∷ words) = if text_eq t word then true else is_one_of t words

unfoldable pub is_weak : Text → Bool
is_weak password = is_one_of (map lower password) weak_passwords

pub data Kind : Type 0 where
  lower_case upper_case digit other_kind : Kind

-- The switch in `kinds`.
abbrev pub kind_of : ℕ → Kind
kind_of c =
    if leb b'a' c && leb c b'z'
    then lower_case
    else if leb b'A' c && leb c b'Z'
    then upper_case
    else if leb b'0' c && leb c b'9'
    then digit
    else other_kind

abbrev pub same_kind : Kind → Kind → Bool
same_kind lower_case lower_case = true
same_kind upper_case upper_case = true
same_kind digit digit = true
same_kind other_kind other_kind = true
same_kind _ _ = false

-- Whether the loop of `kinds` sets the flag of the kind.
unfoldable pub occurs : Kind → Text → Bool
occurs kind [] = false
occurs kind (c ∷ password) = same_kind kind (kind_of c) || occurs kind password

abbrev pub one_if : Bool → ℕ
one_if hit = if hit then 1 else 0

unfoldable pub kinds : Text → ℕ
unfolding occurs
kinds password =
    one_if (occurs lower_case password)
    + one_if (occurs upper_case password)
    + one_if (occurs digit password)
    + one_if (occurs other_kind password)

-- The errors of `CheckPasswordStrength`, in their order.
pub data Strength : Type 0 where
  empty_password padded too_short too_long too_common one_kind strong : Strength

-- A text is a list of its runes.
unfoldable pub check_password_strength : Text → Strength
unfolding trim_space is_weak kinds
check_password_strength password =
    if is_empty password
    then empty_password
    else if not (text_eq (trim_space password) password)
    then padded
    else if ltb (length password) password_min_runes
    then too_short
    else if ltb password_max_runes (length password)
    then too_long
    else if is_weak password
    then too_common
    else if ltb (kinds password) 2
    then one_kind
    else strong
