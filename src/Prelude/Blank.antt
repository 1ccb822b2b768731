-- ===== src/Prelude/Blank.antt =====
-- What `strings.TrimSpace` leaves of a text: nothing exactly where the text has white space only.
use Prim.Native.Nat.{ℕ}
use mathlib.Core.Path.{◌≡◌, refl, ap, sym, ◌∙◌}
use mathlib.Core.Bool.{Bool, false, not, ◌||◌}
use mathlib.Core.List.{[], ◌∷◌, ◌++◌, reverse, reverse-cons}
use native.Mathlib.Omega.{arith}
use wrtdeck.Prelude.Lists.{is_empty}
use wrtdeck.Prelude.Keys.{Text}
use wrtdeck.Prelude.Strings.{is_space, trim_left, trim_space}

-- Some character is no white space.
unfoldable pub has_ink : Text → Bool
has_ink [] = false
has_ink (c ∷ s) = not (is_space c) || has_ink s

has_ink-append : (s t : Text) → has_ink (s ++ t) ≡ (has_ink s || has_ink t)
unfolding has_ink
has_ink-append [] t = refl
has_ink-append (c ∷ s) t = ground (arith, has_ink-append s t)

has_ink-trim_left : (s : Text) → has_ink (trim_left s) ≡ has_ink s
unfolding has_ink trim_left
has_ink-trim_left [] = refl
has_ink-trim_left (c ∷ s) = ground (arith, has_ink-trim_left s)

is_empty-trim_left : (s : Text) → is_empty (trim_left s) ≡ not (has_ink s)
unfolding has_ink trim_left
is_empty-trim_left [] = refl
is_empty-trim_left (c ∷ s) = ground (arith, is_empty-trim_left s)

has_ink-reverse : (s : Text) → has_ink (reverse s) ≡ has_ink s
unfolding has_ink
has_ink-reverse [] = refl
has_ink-reverse (c ∷ s) =
    ap has_ink (reverse-cons c s)
    ∙ has_ink-append (reverse s) (c ∷ [])
    ∙ ground (arith, has_ink-reverse s)

is_empty-reverse : (s : Text) → is_empty (reverse s) ≡ is_empty s
is_empty-reverse [] = refl
is_empty-reverse (c ∷ s) = ap is_empty (reverse-cons c s) ∙ is_empty-snoc (reverse s) c
  where
    is_empty-snoc : (t : Text) (d : ℕ) → is_empty (t ++ d ∷ []) ≡ false
    is_empty-snoc [] d = refl
    is_empty-snoc (e ∷ t) d = refl

has_ink-trim_space : (s : Text) → has_ink (trim_space s) ≡ has_ink s
unfolding trim_space
has_ink-trim_space s =
    has_ink-reverse (trim_left (reverse (trim_left s)))
    ∙ has_ink-trim_left (reverse (trim_left s))
    ∙ has_ink-reverse (trim_left s)
    ∙ has_ink-trim_left s

is_empty-trim_space : (s : Text) → is_empty (trim_space s) ≡ not (has_ink s)
unfolding trim_space
is_empty-trim_space s =
    is_empty-reverse (trim_left (reverse (trim_left s)))
    ∙ is_empty-trim_left (reverse (trim_left s))
    ∙ ap not (has_ink-reverse (trim_left s) ∙ has_ink-trim_left s)

-- A trimmed text that is not empty has no white space to lose as a whole.
pub is_empty-trim_space-trim_space :
    (s : Text) → is_empty (trim_space (trim_space s)) ≡ is_empty (trim_space s)
is_empty-trim_space-trim_space s =
    is_empty-trim_space (trim_space s) ∙ ap not (has_ink-trim_space s) ∙ sym (is_empty-trim_space s)
