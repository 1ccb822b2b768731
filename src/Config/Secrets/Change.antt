-- ===== src/Config/Secrets/Change.antt =====
-- What a change of the password changes.
use wrtdeck.Prelude.{
  is_empty, Text, nat_key, text_key, ℕ, ◌≡◌, refl, ◌≢◌, Bool, false, some, [], ◌∷◌,
}
use wrtdeck.Config.Password.{
  Crypto, password_algo, password_iterations, PasswordHash, is_zero, new_password_hash, matches_key,
  verify,
}
use wrtdeck.Config.Secrets.{Secrets, token, must_change, verify_password, set_password}

is_empty_encoded :
    (crypto : Crypto) (bytes : Text) → bytes ≢ [] → is_empty (crypto.encode bytes) ≡ false
is_empty_encoded crypto bytes h = not_empty (crypto.encode bytes) (crypto.encode_named bytes h)
  where
    not_empty : (t : Text) → t ≢ [] → is_empty t ≡ false
    not_empty [] h = absurd (h refl)
    not_empty (c ∷ t) h = refl

module _ (crypto : Crypto) (salt : Text) (key : Text) (password : Text) (salted : salt ≢ [])
    (derived : crypto.derive password salt password_iterations ≡ some key) where
  new_hash : PasswordHash
  new_hash = record {
    algo = password_algo;
    iterations = password_iterations;
    salt = crypto.encode salt;
    hash = crypto.encode key;
  }

  new_password_hash_lem : new_password_hash crypto (some salt) password ≡ some new_hash
  unfolding new_password_hash new_hash
  new_password_hash_lem = rw derived

  verify-new_hash :
      (other : Text)
      → verify crypto new_hash other
        ≡ matches_key (crypto.derive other salt password_iterations) key
  unfolding verify is_zero new_hash
  verify-new_hash other = rw (
    is_empty_encoded crypto key (crypto.derive_named password salt key password_iterations derived),
    is_empty_encoded crypto salt salted,
    crypto.decode_encode salt,
    crypto.decode_encode key,
  )

  -- After a password was set, with a salt that is not empty and a key derived of it, and whether or
  -- not that could be saved, a password is right exactly when the same key is derived of it; the
  -- mark of the initial password is the one given, and the token is unchanged.
  pub verify_password-set_password :
      (now : ℕ) (written must : Bool) (other : Text) (s : Secrets)
      → (verify_password crypto
            (set_password crypto now (some salt) written password must s).0
            other
          ≡ matches_key (crypto.derive other salt password_iterations) key)
        × (must_change (set_password crypto now (some salt) written password must s).0 ≡ must)
        × (token (set_password crypto now (some salt) written password must s).0 ≡ token s)
  unfolding verify_password set_password must_change token
  verify_password-set_password now written must other s =
      rw new_password_hash_lem (verify-new_hash other, refl, refl)
