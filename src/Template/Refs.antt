-- ===== src/Template/Refs.antt =====
-- internal/template/render.go: the references of a text and their check.
use wrtdeck.Prelude.{
  if◌then◌else◌, Text, text_eq, nat_key, text_key, text_ltb, has_text, sort_by, Bool, Option, none,
  some, List, [], ◌∷◌, ◌++◌,
}
use wrtdeck.Template.{Placeholder, Piece, literal, variable, pieces}
use wrtdeck.Template.Render.{Ref}

abbrev pub key_of : Ref → Text
key_of r = r.namespace ++ b'.' ∷ r.name

abbrev pub ref_of : Placeholder → Ref
ref_of v = record { namespace = v.namespace; name = v.name }

-- The loop of `Refs`, with the keys that it has seen.
unfoldable pub refs_loop : List Text → List Piece → List Ref
refs_loop seen [] = []
refs_loop seen (literal c ∷ ps) = refs_loop seen ps
refs_loop seen (variable v ∷ ps) =
    let key = key_of (ref_of v) in
    let first = refs_loop (key ∷ seen) ps in
    let again = refs_loop seen ps in if has_text key seen then again else ref_of v ∷ first

abbrev pub ref_less : Ref → Ref → Bool
ref_less a b =
    if text_eq a.namespace b.namespace
    then text_ltb a.name b.name
    else text_ltb a.namespace b.namespace

unfoldable pub refs : Text → List Ref
unfolding pieces refs_loop
refs s = sort_by ref_less (refs_loop [] (pieces s))

-- The first reference that is not declared.
unfoldable pub first_undeclared : List Text → List Ref → Option Ref
first_undeclared names [] = none
first_undeclared names (r ∷ rs) =
    let rest = first_undeclared names rs in if has_text (key_of r) names then rest else some r

unfoldable pub check_refs : Text → List Text → Option Ref
unfolding refs first_undeclared
check_refs s names = first_undeclared names (refs s)
