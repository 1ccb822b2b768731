-- ===== src/Template.antt =====
-- internal/template/render.go: the placeholders of a text and what stands for them. The regular
-- expression of a placeholder is a scanner here, and a text with placeholders is a list of pieces.
pub mod Render
pub mod Refs
pub mod Declared
mod Tests
use wrtdeck.Prelude.{
  leb, ◌==◌, if◌then◌else◌, length, Text, nat_key, text_key, ℕ, zero, suc, ◌-◌, Bool, false, ◌&&◌,
  ◌||◌, Option, none, some, List, [], ◌∷◌,
}

abbrev pub is_letter : ℕ → Bool
is_letter c = (leb b'a' c && leb c b'z') || (leb b'A' c && leb c b'Z')

abbrev pub is_digit : ℕ → Bool
is_digit c = leb b'0' c && leb c b'9'

-- `[a-zA-Z_]` and `[a-zA-Z0-9_]`
abbrev pub is_head : ℕ → Bool
is_head c = is_letter c || c == b'_'

abbrev pub is_word : ℕ → Bool
is_word c = is_letter c || is_digit c || c == b'_'

-- `\s` of the package regexp.
abbrev pub is_white : ℕ → Bool
is_white c = c == 9 || c == 10 || c == 12 || c == 13 || c == 32

abbrev pub is_small : ℕ → Bool
is_small c = leb b'a' c && leb c b'z'

-- The longest beginning of the characters that pass, and what is left.
unfoldable pub span : (ℕ → Bool) → Text → Text × Text
span p [] = ([], [])
span p (c ∷ s) = let (taken, rest) = span p s in if p c then (c ∷ taken, rest) else ([], c ∷ s)

abbrev pub first_is_head : Text → Bool
first_is_head [] = false
first_is_head (c ∷ s) = is_head c

-- `[a-zA-Z_][a-zA-Z0-9_]*`, which takes as much as it can.
unfoldable pub scan_name : Text → Option (Text × Text)
unfolding span
scan_name s = if first_is_head s then some (span is_word s) else none

-- Where the scanner stands in `(?:\|[a-z]+)*`.
pub data FilterState : Type 0 where
  before after_bar in_filter : FilterState

abbrev pub cons_scanned : ℕ → Option (Text × Text) → Option (Text × Text)
cons_scanned c none = none
cons_scanned c (some (taken, rest)) = some (c ∷ taken, rest)

-- A bar that no letter follows ends the match, since neither white space nor a brace is a bar.
unfoldable pub scan_filters : FilterState → Text → Option (Text × Text)
scan_filters after_bar [] = none
scan_filters before [] = some ([], [])
scan_filters in_filter [] = some ([], [])
scan_filters before (c ∷ s) =
    let rest = scan_filters after_bar s in
    if c == b'|' then cons_scanned c rest else some ([], c ∷ s)
scan_filters after_bar (c ∷ s) =
    let rest = scan_filters in_filter s in if is_small c then cons_scanned c rest else none
scan_filters in_filter (c ∷ s) =
    let letter = scan_filters in_filter s in
    let bar = scan_filters after_bar s in
    if is_small c
    then cons_scanned c letter
    else if c == b'|'
    then cons_scanned c bar
    else some ([], c ∷ s)

unfoldable pub skip_white : Text → Text
skip_white [] = []
skip_white (c ∷ s) = let rest = skip_white s in if is_white c then rest else c ∷ s

-- The rest behind one character.
unfoldable pub expect : ℕ → Text → Option Text
expect c [] = none
expect c (d ∷ s) = if d == c then some s else none

pub record Placeholder : Type 0 where
  pub namespace : Text
  pub name : Text
  pub filters : Text

infixl 5 ◌>>=◌
abbrev pub ◌>>=◌ {ℓ κ} : {A : Type ℓ} {B : Type κ} → Option A → (A → Option B) → Option B
none >>= f = none
some a >>= f = f a

-- One match of `variable_pattern` at the beginning of a text, and what is left.
unfoldable pub scan_variable : Text → Option (Placeholder × Text)
unfolding scan_name scan_filters skip_white expect
scan_variable s = do
  dollar ← expect b'$' s
  open_brace ← expect b'{' dollar
  (namespace, dot) ← scan_name (skip_white open_brace)
  name_text ← expect b'.' dot
  (name, white) ← scan_name name_text
  (filters, end) ← scan_filters before (skip_white white)
  rest ← expect b'}' (skip_white end)
  some (record { namespace = namespace; name = name; filters = filters }, rest)

-- A text as `ReplaceAllStringFunc` reads it, from the left.
pub data Piece : Type 0 where
  literal : ℕ → Piece
  variable : Placeholder → Piece

-- The first number is how many characters belong to the last match.
unfoldable pub pieces_from : ℕ → Text → List Piece
unfolding scan_variable
pieces_from n [] = []
pieces_from (suc n) (c ∷ s) = pieces_from n s
pieces_from zero (c ∷ s) = elim (scan_variable (c ∷ s)) [
  | none ↦ literal c ∷ pieces_from zero s
  | some (v, rest) ↦ variable v ∷ pieces_from (length s - length rest) s
]

unfoldable pub pieces : Text → List Piece
unfolding pieces_from
pieces s = pieces_from 0 s
