-- ===== src/Prelude/Codes.antt =====
-- A quoted text as the list of its code points.
use Prim.Native.Char.{code}
use Prim.Native.String.{String}
use mathlib.Core.List.{[], ◌∷◌}
use wrtdeck.Prelude.Keys.{Text}

abbrev pub codes : String → Text
codes String.[] = []
codes (String.◌∷◌ c s) = code c ∷ codes s
