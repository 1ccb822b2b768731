-- ===== src/Config/Samples.antt =====
-- A derivation of keys for the tests.
use wrtdeck.Prelude.{Text, nat_key, text_key, ◌≡◌, refl, ◌≢◌, some, [], ◌∷◌, ◌++◌}
use wrtdeck.Config.Password.{Crypto}

-- A derivation that joins the password and the salt, and bytes that stand for themselves.
pub key_named : (password salt key : Text) → some (1 ∷ password ++ salt) ≡ some key → key ≢ []
key_named password salt key h e = cc (h, e)

abbrev pub plain : Crypto
plain = record {
  derive = λ password salt rounds. some (1 ∷ password ++ salt);
  encode = λ bytes. bytes;
  decode = λ text. some text;
  decode_encode = λ bytes. refl;
  encode_named = λ bytes h. h;
  derive_named = λ password salt key rounds h e. key_named password salt key h e;
}
