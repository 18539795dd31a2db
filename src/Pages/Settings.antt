-- ===== src/Pages/Settings.antt =====
-- pkg/sgtm/page_settings.go: `settingsPage`, the form in which a user edits the own profile.
pub mod Laws
use sgtm.Common.{
  Bool, String, Option, none, some, ◌⊎◌, inl, inr, str_eq, List, [], ◌∷◌, if◌then◌else◌, trim_space,
  trim_prefix,
}
use sgtm.Pb.{User}
use sgtm.Db.{Error, UserSet}
use sgtm.Service.{Service, TemplateData}
use sgtm.Service.Errors.{begin_page, render_page}
use sgtm.Pages.Blocks.{or_422, user_or_home}
use sgtm.Web.{Request, Page, ◌>>=◌, ◌>>◌, pure, act, respond, halt, redirect}

-- A user name typed as a link, with an at sign, or plain.
unfoldable pub account_name : String → String → String
account_name site text = trim_prefix (trim_prefix (trim_space text) site) "@"

unfoldable pub settings_fields : Request → List UserSet
settings_fields r =
    UserSet.firstname (trim_space (r.form "firstname"))
    ∷ UserSet.lastname (trim_space (r.form "lastname"))
    ∷ UserSet.homepage (trim_space (r.form "homepage"))
    ∷ UserSet.bio (trim_space (r.form "bio"))
    ∷ UserSet.headline (trim_space (r.form "headline"))
    ∷ UserSet.inspirations (trim_space (r.form "inspirations"))
    ∷ UserSet.gears (trim_space (r.form "gears"))
    ∷ UserSet.goals (trim_space (r.form "goals"))
    ∷ UserSet.genres (trim_space (r.form "genres"))
    ∷ UserSet.other_links (trim_space (r.form "other_links"))
    ∷ UserSet.twitter_username (account_name "https://twitter.com/" (r.form "twitter_username"))
    ∷ UserSet.soundcloud_username
        (account_name "https://soundcloud.com/" (r.form "soundcloud_username"))
    ∷ []

module _ {S : Type 0} (svc : Service S) where
  unfoldable pub save_settings : Request → TemplateData → User → Option String → Page S TemplateData
  save_settings r d u (some text) = pure (record d { error = text })
  save_settings r d u none = do
    done ← act (svc.store.update_user u (settings_fields r))
    saved ← or_422 svc r done
    respond (redirect "/settings" 302)
    halt

  unfoldable pub settings_page : Request → Page S (Unit {0})
  unfolding begin_page save_settings render_page
  settings_page r = do
    d ← begin_page svc r
    u ← user_or_home svc d.user
    d' ←
        if str_eq r.method "POST"
        then save_settings r (record d { page_kind = "settings" }) u r.form_error
        else pure (record d { page_kind = "settings" })
    render_page svc r "settings.tmpl.html" d'
