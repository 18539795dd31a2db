-- ===== src/Service/Funcs.antt =====
-- pkg/sgtm/templates.go, `loadTemplates`: the text of a page's templates, and those of its functions
-- that are the program's own.
use sgtm.Common.{Option, none, some, String, List, [], ◌∷◌, ◌<>◌, trim_space, replace_all}
use sgtm.Common.Int.{ℤ, pos, int64, ◌+ℤ◌}
use sgtm.Db.{Error, Result, ok, err, panic}

-- The box of files, and package html/template: whether a name and a text make a template.
pub record Templates : Type 0 where
  pub find_string : String → Option String
  pub parse_error : String → String → Option Error

module _ (lib : Templates) where
  -- The templates' texts and names one behind the other; a file that is missing panics.
  unfoldable gathered : List String → String → String → Result (String × String)
  gathered [] all_in_one name = ok (name, trim_space all_in_one)
  gathered (filename ∷ filenames) all_in_one name = elim (lib.find_string ("page_" <> filename)) [
    | none ↦ panic
    | some source ↦
        gathered filenames (all_in_one <> (trim_space source <> "\n")) (name <> filename)
  ]

  abbrev parsed : Result (String × String) → Result (String × String)
  parsed (ok (name, text)) = elim (lib.parse_error name text) [
    | none ↦ ok (name, text)
    | some e ↦ panic
  ]
  parsed (err e) = err e
  parsed panic = panic

  unfoldable pub load_templates : List String → Result (String × String)
  unfolding gathered
  load_templates filenames = parsed (gathered filenames "" "")

-- `newline` and `plus1`
unfoldable pub newline : String
newline = "\n"

unfoldable pub plus_one : ℤ → ℤ
plus_one x = int64 (x +ℤ pos 1)

-- `prettyDuration`, of the two longest units that package durafmt gives.
unfoldable pub pretty_duration : String → String
pretty_duration text =
    let spaceless = replace_all text " " "" in
    let m = replace_all (replace_all spaceless "minutes" "m") "minute" "m" in
    let h = replace_all (replace_all m "hours" "h") "hour" "h" in
    replace_all (replace_all h "seconds" "s") "second" "s"
