-- ===== src/State/History.antt =====
-- internal/state/history.go: the samples of each source, at most `limit` of them.
pub mod Window
use wrtdeck.Prelude.{
  ltb, leb, if◌then◌else◌, length, is_empty, drop, Dict, get, put, delete, Text, nat_key, text_key,
  ℤ, nat_of, is_positive, ℕ, ◌-◌, Bool, ◌&&◌, ◌||◌, Option, none, some, List, [], ◌∷◌, ◌++◌,
}

pub record History {ℓ} (A : Type ℓ) : Type ℓ where
  pub limit : ℕ
  pub items : Dict Text (List A)

-- The last `n` of a list: `buf[len(buf)-n:]`.
abbrev pub last {ℓ} : {A : Type ℓ} → ℕ → List A → List A
last n buf = drop (length buf - n) buf

abbrev pub samples {ℓ} : {A : Type ℓ} → Option (List A) → List A
samples none = []
samples (some buf) = buf

module _ {ℓ} {A : Type ℓ} where
  unfoldable pub new_history : ℤ → History A
  new_history limit = record { limit = nat_of limit; items = [] }

  abbrev pub enabled : History A → Bool
  enabled h = ltb 0 h.limit

  unfoldable pub append : Text → A → History A → History A
  append id s h =
      if leb h.limit 0 || is_empty id
      then h
      else let buf = samples (get id h.items) ++ s ∷ [] in
        let cut = if ltb h.limit (length buf) then last h.limit buf else buf in
        record h { items = put id cut h.items }

  unfoldable pub get_samples : Text → ℤ → History A → List A
  get_samples id limit h =
      let buf = samples (get id h.items) in
      if is_positive limit && ltb (nat_of limit) (length buf) then last (nat_of limit) buf else buf

  unfoldable pub delete_samples : Text → History A → History A
  delete_samples id h = record h { items = delete id h.items }

  unfoldable pub count_sources : History A → ℕ
  count_sources h = length h.items
