-- ===== src/Pb/Text.antt =====
-- Laws of the display helpers of posts and users.
use text.Mathlib.TextLemmas.{append_cancel_left}
use sgtm.Common.{
  ◌≡◌, ◌≢◌, some, String, List, [], ◌∷◌, map, arith, str_eq, eq_iff, All, trim_space,
  trim_space_idem, split, inl, inr, Bool-cases, ap, ◌∙◌, sym,
}
use sgtm.Common.Decimal.{format_int, parse_int, parse_int-format_int, IsInt64}
use sgtm.Pb.{Post}
use sgtm.Pb.PostHelpers

abbrev pub IsTrimmed : String → Type 0
IsTrimmed s = trim_space s ≡ s

map-trim_space-IsTrimmed : (parts : List String) → All IsTrimmed (map trim_space parts)
map-trim_space-IsTrimmed [] = tt
map-trim_space-IsTrimmed (s ∷ parts) = (trim_space_idem s, map-trim_space-IsTrimmed parts)

-- The tags that a page lists carry no white space at their ends, whatever the stored text is.
pub tag_list-IsTrimmed : (p : Post) → All IsTrimmed (PostHelpers.tag_list p)
unfolding PostHelpers.tag_list
tag_list-IsTrimmed p = elim (Bool-cases (str_eq (trim_space p.tags) "")) [
  | inl blank ↦ rw blank tt
  | inr some_tags ↦ rw some_tags (map-trim_space-IsTrimmed (split "," p.tags))
]

-- A title that a page shows is never empty.
pub safe_title-ne-empty : (p : Post) → PostHelpers.safe_title p ≢ ""
unfolding PostHelpers.safe_title
safe_title-ne-empty p =
    ground (arith, eq_iff p.title "", eq_iff p.provider_title "", eq_iff "noname" "")

-- Two posts with int64 ids and the same link have the same id.
pub canonical_url_inj :
    (p q : Post)
    → IsInt64 p.id
    → IsInt64 q.id
    → PostHelpers.canonical_url (some p) ≡ PostHelpers.canonical_url (some q)
    → p.id ≡ q.id
unfolding PostHelpers.canonical_url
canonical_url_inj p q hp hq e =
    let printed = append_cancel_left "/post/" (format_int p.id) (format_int q.id) e in
    let both : some p.id ≡ some q.id =
      sym (parse_int-format_int p.id hp) ∙ ap parse_int printed ∙ parse_int-format_int q.id hq in
    cc
