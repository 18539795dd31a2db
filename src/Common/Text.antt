-- ===== src/Common/Text.antt =====
-- The functions of Go's package strings that the source calls, over the characters of a text.
use Prim.Native.Char.{Char, code}
use Prim.Native.Nat.{ℕ, zero, suc, ◌-◌}
use Prim.Native.String.{String, [], ◌∷◌}
use Prim.Native.String
use mathlib.Core.Path.{◌≡◌, refl}
use mathlib.Core.Bool.{Bool, true, false, not, ◌&&◌, ◌||◌}
use mathlib.Core.Option.{Option, none, some}
use mathlib.Core.Logic.{inl, inr}
use mathlib.Core.List.{List, [], ◌∷◌}
use native.Mathlib.Omega.{arith}
use text.Mathlib.Text.{◌==◌ as str_eq}
use sgtm.Common.Tests.{◌==◌, leb, if◌then◌else◌, Bool-cases}

-- `unicode.IsSpace`
unfoldable pub is_space : ℕ → Bool
is_space c =
    (leb 9 c && leb c 13)
    || c == 32
    || c == 0x85
    || c == 0xa0
    || c == 0x1680
    || (leb 0x2000 c && leb c 0x200a)
    || c == 0x2028
    || c == 0x2029
    || c == 0x202f
    || c == 0x205f
    || c == 0x3000

abbrev pub is_empty : String → Bool
is_empty [] = true
is_empty (c ∷ s) = false

unfoldable pub trim_left : String → String
trim_left [] = ""
trim_left (c ∷ s) = if is_space (code c) then trim_left s else c ∷ s

unfoldable pub trim_right : String → String
trim_right [] = ""
trim_right (c ∷ s) =
    let rest = trim_right s in if is_space (code c) && is_empty rest then "" else c ∷ rest

-- `strings.TrimSpace`
unfoldable pub trim_space : String → String
unfolding is_space trim_left trim_right
trim_space s = trim_right (trim_left s)

trim_right_idem : (s : String) → trim_right (trim_right s) ≡ trim_right s
unfolding trim_right
trim_right_idem [] = refl
trim_right_idem (c ∷ s) = elim (Bool-cases (is_space (code c) && is_empty (trim_right s))) [
  | inl cut ↦ rw cut refl
  | inr keep ↦ rw (keep, trim_right_idem s, keep) refl
]

abbrev head_is_ink : String → Bool
head_is_ink [] = true
head_is_ink (c ∷ s) = not (is_space (code c))

trim_left-head_is_ink : (s : String) → head_is_ink (trim_left s) ≡ true
unfolding trim_left
trim_left-head_is_ink [] = refl
trim_left-head_is_ink (c ∷ s) = elim (Bool-cases (is_space (code c))) [
  | inl blank ↦ rw blank (trim_left-head_is_ink s)
  | inr ink ↦ rw (ink, ink) refl
]

trim_left-trim_right : (s : String) → head_is_ink s ≡ true → trim_left (trim_right s) ≡ trim_right s
unfolding trim_left trim_right
trim_left-trim_right [] h = refl
trim_left-trim_right (c ∷ s) h =
    let ink : is_space (code c) ≡ false = ground arith in rw (ink, ink) refl

-- Trimming a trimmed text changes nothing.
pub trim_space_idem : (s : String) → trim_space (trim_space s) ≡ trim_space s
unfolding trim_space
trim_space_idem s =
    rw (trim_left-trim_right (trim_left s) (trim_left-head_is_ink s))
      (trim_right_idem (trim_left s))

-- The rest of a text behind a prefix.
strip_prefix : String → String → Option String
strip_prefix s [] = some s
strip_prefix [] (p ∷ ps) = none
strip_prefix (c ∷ s) (p ∷ ps) = if code c == code p then strip_prefix s ps else none

-- `strings.TrimPrefix`
unfoldable pub trim_prefix : String → String → String
unfolding strip_prefix
trim_prefix s prefix = elim (strip_prefix s prefix) [ none ↦ s | some rest ↦ rest ]

push : Char → List String → List String
push c [] = (c ∷ []) ∷ []
push c (part ∷ parts) = (c ∷ part) ∷ parts

-- `strings.Split` at a separator of one character
unfoldable pub split : Char → String → List String
unfolding push
split sep [] = "" ∷ []
split sep (c ∷ s) = let rest = split sep s in if code c == code sep then "" ∷ rest else push c rest

-- `strings.Join`
unfoldable pub join : String → List String → String
join sep [] = ""
join sep (s ∷ []) = s
join sep (s ∷ t ∷ rest) = String.◌++◌ s (String.◌++◌ sep (join sep (t ∷ rest)))

infixr 65 ◌<>◌
abbrev pub ◌<>◌ : String → String → String
s <> t = String.◌++◌ s t

trim_both : trim_space "\t a b  " ≡ "a b"
unfolding trim_space
trim_both = refl

split_tags : split "," "a, b,c" ≡ "a" ∷ " b" ∷ "c" ∷ []
unfolding split
split_tags = refl

strip_at : trim_prefix "@moul" "@" ≡ "moul"
unfolding trim_prefix
strip_at = refl

-- `strings.ReplaceAll` of a text that is not empty; `skip` characters of a match are left to pass.
replace_from : String → String → ℕ → String → String
unfolding strip_prefix
replace_from old new skip [] = ""
replace_from old new (suc skip) (c ∷ s) = replace_from old new skip s
replace_from old new zero (c ∷ s) =
    let replaced = new <> replace_from old new (String.count old - 1) s in
    let kept : String = c ∷ replace_from old new zero s in
    elim (strip_prefix (c ∷ s) old) [ some rest ↦ replaced | none ↦ kept ]

unfoldable pub replace_all : String → String → String → String
unfolding replace_from
replace_all s old new = replace_from old new 0 s

-- `html.EscapeString`
unfoldable pub escape_html : String → String
escape_html [] = ""
escape_html (c ∷ s) =
    let rest = escape_html s in
    if code c == b'<'
    then "&lt;" <> rest
    else if code c == b'>'
    then "&gt;" <> rest
    else if code c == b'&'
    then "&amp;" <> rest
    else if code c == 34
    then "&#34;" <> rest
    else if code c == 39
    then "&#39;" <> rest
    else c ∷ rest

-- Whether a text begins with another.
unfoldable pub has_prefix : String → String → Bool
unfolding strip_prefix
has_prefix s prefix = elim (strip_prefix s prefix) [ none ↦ false | some rest ↦ true ]

replace_twice : replace_all "a-x-x.b" "-x" "+" ≡ "a++.b"
unfolding replace_all
replace_twice = refl

-- `strings.HasSuffix`
unfoldable pub has_suffix : String → String → Bool
has_suffix [] suffix = str_eq "" suffix
has_suffix (c ∷ s) suffix =
    let whole : String = c ∷ s in let rest = has_suffix s suffix in str_eq whole suffix || rest

html_suffix : has_suffix "/base.tmpl.html" ".tmpl.html" ≡ true
unfolding has_suffix
html_suffix = refl
