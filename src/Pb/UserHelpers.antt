-- ===== src/Pb/UserHelpers.antt =====
-- pkg/sgtmpb/helpers.go, the methods of User.
use sgtm.Common.{
  Bool, Option, none, some, String, List, map, not, if◌then◌else◌, str_eq, trim_space, split, ◌<>◌,
  ◌||◌,
}
use sgtm.Pb.{User}

unfoldable pub apply_defaults : User → User
apply_defaults u = u

-- The receiver may be nil.
unfoldable pub canonical_url : Option User → String
canonical_url none = "#"
canonical_url (some u) = "/@" <> u.slug

unfoldable pub fullname : User → String
fullname u = trim_space (u.firstname <> " " <> u.lastname)

unfoldable pub display_name : User → String
unfolding fullname
display_name u =
    if not (str_eq u.firstname "") || not (str_eq u.lastname "") then fullname u else "@" <> u.slug

unfoldable pub other_links_list : User → List String
other_links_list u = map trim_space (split "\n" (trim_space u.other_links))

unfoldable pub has_something_around_the_web : User → Bool
has_something_around_the_web u =
    not (str_eq u.twitter_username "")
    || not (str_eq u.soundcloud_username "")
    || not (str_eq u.other_links "")
    || not (str_eq u.homepage "")

unfoldable pub filter : User → User
filter u = record u { email = ""; discord_username = ""; discord_id = "" }
