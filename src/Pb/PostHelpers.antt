-- ===== src/Pb/PostHelpers.antt =====
-- pkg/sgtmpb/helpers.go, the methods of Post.
use sgtm.Common.{
  ℕ, ◌*◌, ◌%◌, ◌^◌, Bool, Option, none, some, String, List, [], map, if◌then◌else◌, str_eq,
  trim_space, split, ◌<>◌, ◌&&◌,
}
use sgtm.Common.Decimal.{format_int}
use sgtm.Pb.{Post, Provider, unknown_provider, sound_cloud, ipfs, provider_eq}

-- The avatar URL of the SoundCloud track that a text encodes; `none` if `json.Unmarshal` refuses it.
abbrev pub AvatarDecoder : Type 0
AvatarDecoder = String → Option String

unfoldable pub apply_defaults : AvatarDecoder → Post → Post
apply_defaults decode p =
    if str_eq p.artwork_url "" && provider_eq p.provider sound_cloud
    then elim (decode p.provider_metadata) [
      | none ↦ p
      | some avatar_url ↦ record p { artwork_url = avatar_url }
    ]
    else p

-- The receiver may be nil.
unfoldable pub canonical_url : Option Post → String
canonical_url none = "#"
canonical_url (some p) = "/post/" <> format_int p.id

-- `time.Millisecond * time.Duration(p.Duration)`, in nanoseconds; the product wraps to an int64,
-- here its 64 bits.
unfoldable pub go_duration : Post → ℕ
go_duration p = (1000000 * p.duration) % 2 ^ 64

unfoldable pub safe_description : Post → String
safe_description p = if str_eq p.body "" then p.provider_description else p.body

unfoldable pub safe_title : Post → String
safe_title p =
    if str_eq p.title ""
    then (if str_eq p.provider_title "" then "noname" else p.provider_title)
    else p.title

unfoldable pub safe_lyrics : Post → String
safe_lyrics p = trim_space p.lyrics

unfoldable pub filter : Post → Post
filter p = record p { provider_metadata = ""; download_url = "" }

abbrev pub get_provider : Option Post → Provider
get_provider none = unknown_provider
get_provider (some p) = p.provider

unfoldable pub is_sound_cloud : Option Post → Bool
is_sound_cloud p = provider_eq (get_provider p) sound_cloud

unfoldable pub is_ipfs : Option Post → Bool
is_ipfs p = provider_eq (get_provider p) ipfs

-- A nil slice is the empty list.
unfoldable pub tag_list : Post → List String
tag_list p = if str_eq (trim_space p.tags) "" then [] else map trim_space (split "," p.tags)
