-- ===== src/Examples/Posts.antt =====
-- The display helpers on one track.
use sgtm.Common.{◌≡◌, refl, some, none}
use sgtm.Common.{[], ◌∷◌, str_eq, if◌then◌else◌, replace_all, trim_space}
use sgtm.Common.Int.{pos, int64, ◌+ℤ◌}
use sgtm.Db.{ok, panic}
use sgtm.Service.Funcs.{Templates, load_templates, newline, plus_one, pretty_duration}
use sgtm.Pb.{Post}
use sgtm.Pb.PostHelpers
use sgtm.Examples.Sample.{song}

abbrev tagged : Post
tagged = record song { tags = " dark , 808 "; title = "" }

same_link : PostHelpers.canonical_url (some song) ≡ PostHelpers.canonical_url (some tagged)
unfolding PostHelpers.canonical_url
same_link = refl

abbrev no_metadata : PostHelpers.AvatarDecoder
no_metadata text = none

-- The template functions, and a box of two files.
two_units : pretty_duration "1 hour 20 minutes" ≡ "1h20m"
unfolding pretty_duration replace_all
two_units = refl

one_more : plus_one (pos 1) ≡ pos 2
unfolding plus_one int64 ◌+ℤ◌
one_more = refl

one_line : newline ≡ "\n"
unfolding newline
one_line = refl

abbrev box : Templates
box = record {
  find_string = λ name.
      if str_eq name "page_base.tmpl.html"
      then some " base "
      else if str_eq name "page_home.tmpl.html"
      then some "home"
      else none;
  parse_error = λ name text. none;
}

loaded :
    load_templates box ("base.tmpl.html" ∷ "home.tmpl.html" ∷ [])
    ≡ ok ("base.tmpl.htmlhome.tmpl.html", "base\nhome")
unfolding load_templates trim_space
loaded = refl

missing : load_templates box ("base.tmpl.html" ∷ "new.tmpl.html" ∷ []) ≡ panic
unfolding load_templates
missing = refl
