-- ===== src/Pages/NewPost/Filename.antt =====
-- pkg/sgtm/page_new.go: the name and the extension of an uploaded file.
use sgtm.Common.{String, List, [], ◌∷◌, split, join, ◌≡◌, refl}

-- The parts before the last, and the last.
split_last : String → List String → List String × String
split_last s [] = ([], s)
split_last s (t ∷ rest) = let (front, last) = split_last t rest in (s ∷ front, last)

-- The name without its extension, and the extension; "blob" where there is none.
unfoldable pub name_parts : String → String × String
unfolding split_last
name_parts filename = elim (split "." filename) [
  | [] ↦ (filename, "blob")
  | s ∷ parts ↦ elim parts [
    | [] ↦ (filename, "blob")
    | t ∷ rest ↦ let (front, ext) = split_last s (t ∷ rest) in (join "." front, ext)
  ]
]

two_dots : name_parts "a.b.mp3" ≡ ("a.b", "mp3")
unfolding name_parts split join
two_dots = refl

no_dot : name_parts "song" ≡ ("song", "blob")
unfolding name_parts split
no_dot = refl
