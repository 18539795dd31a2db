-- ===== src/Pb/Tests.antt =====
-- Runs of the helpers at concrete posts and users.
use sgtm.Common.{◌≡◌, refl, [], ◌∷◌, some, trim_space, split}
use sgtm.Common.Int.{pos}
use sgtm.Common.Decimal.{format_int}
use sgtm.Pb.{Post, zero_post}
use sgtm.Pb.PostHelpers

abbrev tagged : Post
tagged = record zero_post { id = pos 42; tags = " house, deep ,," }

tags_of : PostHelpers.tag_list tagged ≡ "house" ∷ "deep" ∷ "" ∷ "" ∷ []
unfolding PostHelpers.tag_list trim_space split
tags_of = refl

link_of : PostHelpers.canonical_url (some tagged) ≡ "/post/42"
unfolding PostHelpers.canonical_url format_int
link_of = refl
