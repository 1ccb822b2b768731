-- ===== src/Prelude/Strings.antt =====
-- What the program uses of the packages strings and utf8, on texts as lists of code points.
use Prim.Native.Nat.{ℕ, ◌+◌, ◌/◌, ◌%◌}
use mathlib.Core.Path.{◌≡◌, refl, ap, sym, ◌∙◌}
use mathlib.Core.Logic.{inl, inr}
use mathlib.Core.Bool.{Bool, true, false, ◌&&◌, ◌||◌}
use mathlib.Core.List.{List, [], ◌∷◌, ◌++◌, reverse}
use wrtdeck.Prelude.Tests.{ltb, leb, ◌==◌, if◌then◌else◌, ==_iff, Bool-cases}
use wrtdeck.Prelude.Keys.{Text, nat_key, text_key}

-- `unicode.IsSpace`.
abbrev pub is_space : ℕ → Bool
is_space c =
    (leb 9 c && leb c 13)
    || c == 32
    || c == 0x85
    || c == 0xa0
    || c == 0x1680
    || (leb 0x2000 c && leb c 0x200a)
    || c == 0x2028
    || c == 0x2029
    || c == 0x202f
    || c == 0x205f
    || c == 0x3000

unfoldable pub trim_left : Text → Text
trim_left [] = []
trim_left (c ∷ s) = if is_space c then trim_left s else c ∷ s

-- `strings.TrimSpace`
unfoldable pub trim_space : Text → Text
unfolding trim_left
trim_space s = reverse (trim_left (reverse (trim_left s)))

abbrev pub cons_head : ℕ → List Text → List Text
cons_head c [] = (c ∷ []) ∷ []
cons_head c (part ∷ parts) = (c ∷ part) ∷ parts

-- `strings.Split` at one code point.
unfoldable pub split : ℕ → Text → List Text
split sep [] = [] ∷ []
split sep (c ∷ s) = if c == sep then [] ∷ split sep s else cons_head c (split sep s)

-- `strings.Join` with one code point.
unfoldable pub join : ℕ → List Text → Text
join sep [] = []
join sep (part ∷ []) = part
join sep (part ∷ next ∷ parts) = part ++ sep ∷ join sep (next ∷ parts)

-- `strings.Contains` of one code point.
unfoldable pub contains : ℕ → Text → Bool
contains c [] = false
contains c (d ∷ s) = d == c || contains c s

-- `strings.HasPrefix`
unfoldable pub has_prefix : Text → Text → Bool
has_prefix s [] = true
has_prefix [] (c ∷ prefix) = false
has_prefix (d ∷ s) (c ∷ prefix) = (d == c) && has_prefix s prefix

-- `strings.Contains`
unfoldable pub has_infix : Text → Text → Bool
unfolding has_prefix
has_infix [] part = has_prefix [] part
has_infix (c ∷ s) part = has_prefix (c ∷ s) part || has_infix s part

-- `strings.ToLower` of ASCII letters. No other letter has one of `a`, `b`, `e` and the others that the
-- program compares with as its lower case.
unfoldable pub lower_text : Text → Text
lower_text [] = []
lower_text (c ∷ s) = (if leb 65 c && leb c 90 then c + 32 else c) ∷ lower_text s

-- The bytes of a character in UTF-8.
unfoldable pub utf8 : ℕ → List ℕ
utf8 c =
    if ltb c 0x80
    then c ∷ []
    else if ltb c 0x800
    then (0xc0 + c / 64) ∷ (0x80 + c % 64) ∷ []
    else if ltb c 0x10000
    then (0xe0 + c / 4096) ∷ (0x80 + c / 64 % 64) ∷ (0x80 + c % 64) ∷ []
    else (0xf0 + c / 262144) ∷ (0x80 + c / 4096 % 64) ∷ (0x80 + c / 64 % 64) ∷ (0x80 + c % 64) ∷ []

-- `[]byte(s)`
unfoldable pub bytes_of : Text → List ℕ
unfolding utf8
bytes_of [] = []
bytes_of (c ∷ s) = utf8 c ++ bytes_of s

-- `len(s)`, which counts the bytes of UTF-8.
abbrev utf8_width : ℕ → ℕ
utf8_width c = if ltb c 0x80 then 1 else if ltb c 0x800 then 2 else if ltb c 0x10000 then 3 else 4

unfoldable pub byte_length : Text → ℕ
byte_length [] = 0
byte_length (c ∷ s) = utf8_width c + byte_length s

join-cons_head :
    (sep c : ℕ) (part : Text) (parts : List Text)
    → join sep (cons_head c (part ∷ parts)) ≡ c ∷ join sep (part ∷ parts)
unfolding join
join-cons_head sep c part [] = refl
join-cons_head sep c part (next ∷ parts) = refl

join-cons_nil :
    (sep c : ℕ) (part : Text) (parts : List Text)
    → sep ≡ c
    → join sep ([] ∷ part ∷ parts) ≡ c ∷ join sep (part ∷ parts)
unfolding join
join-cons_nil sep c part parts e = rw e

split-shape :
    (sep : ℕ) (s : Text) → (part : Text) × (parts : List Text) × (split sep s ≡ part ∷ parts)
unfolding split
split-shape sep [] = ([], [], refl)
split-shape sep (c ∷ s) = elim (Bool-cases (c == sep)) [
  | inl here ↦ ([], split sep s, rw here)
  | inr other ↦ let (part, parts, e) = split-shape sep s in (c ∷ part, parts, rw (other, e))
]

-- Joining undoes splitting, so no two texts split alike.
pub join-split : (sep : ℕ) (s : Text) → join sep (split sep s) ≡ s
unfolding split
join-split sep [] = unfold join in refl
join-split sep (c ∷ s) =
    let (part, parts, e) = split-shape sep s in
    let whole : join sep (part ∷ parts) ≡ s = rw e at (join-split sep s) in
    elim (Bool-cases (c == sep)) [
      | inl here ↦
          let same : sep ≡ c = sym ((==_iff c sep).0 here) in
          rw (here, e) (join-cons_nil sep c part parts same ∙ ap (◌∷◌ c) whole)
      | inr other ↦ rw (other, e) (join-cons_head sep c part parts ∙ ap (◌∷◌ c) whole)
    ]

split-append_head :
    (sep c : ℕ) (xs ys : List Text) (part : Text) (rest : List Text)
    → xs ≡ part ∷ rest
    → cons_head c (xs ++ ys) ≡ cons_head c xs ++ ys
split-append_head sep c xs ys part rest e = rw e refl

-- Splitting at a separator that is written out.
pub split-append : (sep : ℕ) (s t : Text) → split sep (s ++ sep ∷ t) ≡ split sep s ++ split sep t
unfolding split
split-append sep [] t =
    ap (λ (b : Bool). if b then [] ∷ split sep t else cons_head sep (split sep t))
      ((==_iff sep sep).1 refl)
split-append sep (c ∷ s) t = elim (Bool-cases (c == sep)) [
  | inl here ↦ rw here (ap (◌∷◌ []) (split-append sep s t))
  | inr other ↦
      let (part, parts, e) = split-shape sep s in
      rw other (
        ap (cons_head c) (split-append sep s t)
        ∙ split-append_head sep c (split sep s) (split sep t) part parts e)
]

pub or_false : (a b : Bool) → (a || b) ≡ false → (a ≡ false) × (b ≡ false)
or_false true b h = cc
or_false false b h = (refl, h)

pub split_whole : (sep : ℕ) (s : Text) → contains sep s ≡ false → split sep s ≡ s ∷ []
unfolding split contains
split_whole sep [] h = refl
split_whole sep (c ∷ s) h =
    let (other, rest) = or_false (c == sep) (contains sep s) h in
    rw other (ap (cons_head c) (split_whole sep s rest))
