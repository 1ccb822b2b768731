-- ===== src/Extract.antt =====
-- internal/extract/extract.go: the value of a response. Regular expressions, and what JSON and numbers
-- read from a text, are parameters.
use wrtdeck.Prelude.{
  if◌then◌else◌, is_empty, get_elem?, Text, text_eq, nat_key, text_key, codes, ℤ, pos, negsuc,
  trim_space, split, lower_text, Value, null, string, boolean, float, array, object, Items,
  no_items, item, Fields, no_fields, field, Printing, ℕ, zero, suc, ◌⊎◌, inl, inr, Bool, true,
  false, ◌||◌, Option, none, some, List, [], ◌∷◌,
}
use wrtdeck.Registry.Model.{
  param_number, param_boolean, extract_raw, extract_json, extract_regex, ExtractSpec,
}

pub record Reader : Type 0 where
  pub printing : Printing
  pub unmarshal : Text → Option Value
  pub submatches : (pattern subject : Text) → Option (Option (List Text))

pub record Extracted : Type 0 where
  pub value : Value
  pub text : Text

pub data ExtractError : Type 0 where
  not_json no_match no_number no_boolean : ExtractError
  no_field bad_index not_container : (segment : Text) → ExtractError
  bad_regex : ExtractError
  no_group : ℤ → ExtractError

abbrev pub Extraction {ℓ} : Type ℓ → Type ℓ
Extraction A = ExtractError ⊎ A

unfoldable pub field_of : Text → Fields → Option Value
field_of name no_fields = none
field_of name (field key v fs) =
    let rest = field_of name fs in if text_eq key name then some v else rest

unfoldable pub item_of : ℕ → Items → Option Value
item_of n no_items = none
item_of zero (item v vs) = some v
item_of (suc n) (item v vs) = item_of n vs

abbrev pub item_at : Option ℤ → Items → Option Value
item_at none vs = none
item_at (some (pos n)) vs = item_of n vs
item_at (some (negsuc n)) vs = none

abbrev pub or_error {ℓ} : {A : Type ℓ} → Option A → ExtractError → Extraction A
or_error none e = inl e
or_error (some a) e = inr a

-- One segment of the path.
unfoldable pub descend : Printing → Value → Text → Extraction Value
unfolding field_of item_of
descend printing (object fs) seg = or_error (field_of seg fs) (no_field seg)
descend printing (array vs) seg = or_error (item_at (printing.atoi seg) vs) (bad_index seg)
descend printing _ seg = inl (not_container seg)

unfoldable pub walk : Printing → Value → List Text → Extraction Value
unfolding descend
walk printing cur [] = inr cur
walk printing cur (seg ∷ segs) =
    if is_empty seg
    then walk printing cur segs
    else elim (descend printing cur seg) [ inl e ↦ inl e | inr next ↦ walk printing next segs ]

unfoldable pub pick_json : Reader → Text → Text → Extraction Value
unfolding walk
pick_json reader body path = elim (reader.unmarshal body) [
  | none ↦ inl not_json
  | some doc ↦ walk reader.printing doc (split b'.' (trim_space path))
]

abbrev pub group_of : ℤ → List Text → Extraction Text
group_of (pos zero) m = or_error (get_elem? m 0) (no_group (pos 0))
group_of (pos (suc n)) m = or_error (get_elem? m (suc n)) (no_group (pos (suc n)))
group_of (negsuc n) m = or_error (get_elem? m 0) (no_group (negsuc n))

unfoldable pub pick_regex : Reader → Text → Text → ℤ → Extraction Text
pick_regex reader subject pattern group = elim (reader.submatches pattern subject) [
  | none ↦ inl bad_regex
  | some none ↦ inl no_match
  | some (some m) ↦ group_of group m
]

unfoldable pub scalar_text : Printing → Value → Text
scalar_text printing null = []
scalar_text printing (string t) = t
scalar_text printing (float x) = printing.format_float x
scalar_text printing (boolean b) = if b then codes "true" else codes "false"
scalar_text printing v = printing.marshal v

-- `strconv.ParseBool` after `ToLower`.
unfoldable pub parse_bool : Text → Option Bool
parse_bool t =
    if text_eq t (codes "1") || text_eq t (codes "t") || text_eq t (codes "true")
    then some true
    else if text_eq t (codes "0") || text_eq t (codes "f") || text_eq t (codes "false")
    then some false
    else none

abbrev pub as_number : Text → Option ℕ → Extraction Extracted
as_number t none = inl no_number
as_number t (some x) = inr (record { value = float x; text = t })

abbrev pub as_boolean : Text → Option Bool → Extraction Extracted
as_boolean t none = inl no_boolean
as_boolean t (some b) = inr (record { value = boolean b; text = t })

unfoldable pub convert : Printing → Text → Text → Extraction Extracted
unfolding parse_bool
convert printing t value_type =
    if text_eq value_type param_number
    then as_number t (printing.parse_float t)
    else if text_eq value_type param_boolean
    then as_boolean t (parse_bool (lower_text t))
    else inr (record { value = string t; text = t })

abbrev pub scalar_of : Printing → Extraction Value → Extraction Text
scalar_of printing (inl e) = inl e
scalar_of printing (inr v) = inr (scalar_text printing v)

unfoldable pub raw_text : Reader → ExtractSpec → Text → Extraction Text
unfolding pick_json pick_regex scalar_text
raw_text reader spec body =
    if text_eq spec.type extract_json
    then scalar_of reader.printing (pick_json reader body spec.path)
    else if text_eq spec.type extract_regex
    then pick_regex reader (trim_space body) spec.pattern spec.group
    else inr (trim_space body)

abbrev pub spec_or_raw : Option ExtractSpec → ExtractSpec
spec_or_raw none = record {
  type = extract_raw;
  path = [];
  pattern = [];
  group = pos 0;
  value_type = [];
}
spec_or_raw (some spec) = spec

unfoldable pub extract : Reader → Option ExtractSpec → Text → Extraction Extracted
unfolding raw_text convert
extract reader spec body = elim (raw_text reader (spec_or_raw spec) body) [
  | inl e ↦ inl e
  | inr raw ↦ convert reader.printing raw (spec_or_raw spec).value_type
]
