-- ===== src/Template/Render.antt =====
-- internal/template/render.go: what a text with placeholders becomes, and the check of its references.
use wrtdeck.Prelude.{
  ltb, ◌==◌, if◌then◌else◌, length, is_empty, take, drop, Dict, get, Text, text_eq, nat_key,
  text_key, codes, trim_space, split, has_infix, utf8, Value, null, string, boolean, float, int,
  array, object, Printing, ℕ, ◌+◌, ◌-◌, ◌/◌, ◌%◌, ◌⊎◌, inl, inr, Bool, not, ◌||◌, Option, none,
  some, List, [], ◌∷◌, ◌++◌,
}
use wrtdeck.Template.{is_letter, is_digit, Placeholder, Piece, literal, variable, pieces}

-- A reference to a variable.
pub record Ref : Type 0 where
  pub namespace : Text
  pub name : Text

pub record Scope : Type 0 where
  pub params : Dict Text Value
  pub secrets : Dict Text Text

abbrev pub string_found : Option Text → Option Value
string_found none = none
string_found (some t) = some (string t)

unfoldable pub lookup_variable : Text → Text → Scope → Option Value
lookup_variable namespace name scope =
    if text_eq namespace (codes "params")
    then get name scope.params
    else if text_eq namespace (codes "secret")
    then string_found (get name scope.secrets)
    else none

unfoldable pub value_text : Printing → Value → Text
value_text printing null = []
value_text printing (string t) = t
value_text printing (boolean b) = if b then codes "true" else codes "false"
value_text printing (float x) = printing.format_float x
value_text printing (int n) = printing.itoa n
value_text printing (array xs) = printing.marshal (array xs)
value_text printing (object fs) = printing.marshal (object fs)

abbrev pub hex_digit : ℕ → ℕ
hex_digit n = if ltb n 10 then b'0' + n else b'A' + (n - 10)

abbrev pub percent : List ℕ → Text
percent [] = []
percent (b ∷ bs) = b'%' ∷ hex_digit (b / 16) ∷ hex_digit (b % 16) ∷ percent bs

abbrev pub is_unreserved : ℕ → Bool
is_unreserved c = is_letter c || is_digit c || c == b'-' || c == b'_' || c == b'.' || c == b'~'

-- `url.QueryEscape`
unfoldable pub query_escape : Text → Text
unfolding utf8
query_escape [] = []
query_escape (c ∷ s) =
    let rest = query_escape s in
    if is_unreserved c then c ∷ rest else if c == 32 then b'+' ∷ rest else percent (utf8 c) ++ rest

-- `encoded[1:len(encoded)-1]`
abbrev pub unquoted : Text → Text
unquoted encoded = take (length encoded - 2) (drop 1 encoded)

pub data RenderError : Type 0 where
  missing : (namespace name : Text) → RenderError
  unknown_filter : Text → RenderError

-- One filter: `none` where it has no such name.
unfoldable pub apply_filter : Printing → Text → Text → Option Text
unfolding query_escape
apply_filter printing name value =
    if is_empty name || text_eq name (codes "raw")
    then some value
    else if text_eq name (codes "url")
    then some (query_escape value)
    else if text_eq name (codes "json")
    then some (unquoted (printing.marshal (string value)))
    else none

-- The loop of `apply_filters`: the value, or the name that is no filter's.
unfoldable pub filter_loop : Printing → List Text → Text → Text ⊎ Text
unfolding apply_filter
filter_loop printing [] value = inl value
filter_loop printing (raw ∷ raws) value = elim (apply_filter printing (trim_space raw) value) [
  | none ↦ inr (trim_space raw)
  | some next ↦ filter_loop printing raws next
]

abbrev pub without_bar : Text → Text
without_bar [] = []
without_bar (c ∷ s) = if c == b'|' then s else c ∷ s

unfoldable pub apply_filters : Printing → Text → Text → Text ⊎ Text
unfolding filter_loop
apply_filters printing value filters =
    if is_empty filters
    then inl value
    else filter_loop printing (split b'|' (without_bar filters)) value

-- What stands for one placeholder, or why nothing does.
unfoldable pub substitute : Printing → Scope → Placeholder → Text ⊎ RenderError
unfolding lookup_variable value_text apply_filters
substitute printing scope v = elim (lookup_variable v.namespace v.name scope) [
  | none ↦ inr (missing v.namespace v.name)
  | some value ↦ elim (apply_filters printing (value_text printing value) v.filters) [
    | inl rendered ↦ inl rendered
    | inr name ↦ inr (unknown_filter name)
  ]
]

-- A failed placeholder leaves nothing, and the first error is kept.
abbrev pub prepend : Text ⊎ RenderError → Text × Option RenderError → Text × Option RenderError
prepend (inl rendered) (out, e) = (rendered ++ out, e)
prepend (inr e) (out, later) = (out, some e)

unfoldable pub render_pieces : Printing → Scope → List Piece → Text × Option RenderError
unfolding substitute
render_pieces printing scope [] = ([], none)
render_pieces printing scope (literal c ∷ ps) =
    prepend (inl (c ∷ [])) (render_pieces printing scope ps)
render_pieces printing scope (variable v ∷ ps) =
    prepend (substitute printing scope v) (render_pieces printing scope ps)

unfoldable pub render : Printing → Text → Scope → Text × Option RenderError
unfolding render_pieces pieces
render printing s scope =
    if is_empty s || not (has_infix s (codes "${"))
    then (s, none)
    else render_pieces printing scope (pieces s)
