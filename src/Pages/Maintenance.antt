-- ===== src/Pages/Maintenance.antt =====
-- pkg/sgtm/page_post.go: `postMaintenancePage`, and `DownloadPost` of pkg/sgtm/processing.go.
pub mod Laws
use sgtm.Common.{
  ℕ, Bool, not, true, false, ◌&&◌, ◌||◌, String, Option, none, some, ◌⊎◌, inl, inr, str_eq, List,
  [], ◌∷◌, ◌<>◌, if◌then◌else◌,
}
use sgtm.Common.Int.{ℤ, int_eq}
use sgtm.Pb.{Post, User, sound_cloud, provider_eq}
use sgtm.Pb.PostHelpers.{canonical_url}
use sgtm.Db.{Error, Result, ok, err, failed, by_struct, PostSet}
use sgtm.Service.{Service, TemplateData}
use sgtm.Service.Errors.{begin_page, render_page}
use sgtm.Pages.Blocks.{or_422, not_found, user_or_home, find_post}
use sgtm.Pages.PostEdit.{check_author}
use sgtm.Pages.Tempo.{extract_bpm}
use sgtm.Web.{Request, Page, ◌>>=◌, ◌>>◌, pure, fault, ask, act, respond, halt, redirect}

module _ {S : Type 0} (svc : Service S) where
  abbrev pub should_extract_bpm : Request → Bool
  should_extract_bpm r = str_eq (r.query "extract_bpm") "1"

  abbrev pub should_detect_relationships : Request → Bool
  should_detect_relationships r = str_eq (r.query "detect_relationships") "1"

  abbrev should_resync_sound_cloud : Request → Bool
  should_resync_sound_cloud r = str_eq (r.query "resync_soundcloud") "1"

  -- `DownloadPost(post, false)`: the path of the file
  unfoldable pub download_post : Post → Result String
  download_post p =
      let url = if provider_eq p.provider sound_cloud then p.url else "" in
      if str_eq url "" then err (failed "unsupported post") else svc.platform.youtube_dl p.id url

  unfoldable pub download_if : Bool → Request → Post → Page S String
  unfolding download_post
  download_if false r p = pure ""
  download_if true r p = do found ← ask (λ s. download_post p); or_422 svc r found

  -- A tempo of 0 would not be stored: the update is a struct.
  unfoldable pub store_bpm : Request → Post → String → Page S Post
  unfolding extract_bpm
  store_bpm r p path = do
    found ← ask (λ s. extract_bpm svc.platform.tempo path)
    bpm ← or_422 svc r found
    done ← act (svc.store.update_post (record p { bpm = bpm }) (by_struct (PostSet.bpm bpm ∷ [])))
    saved ← or_422 svc r done
    pure (record p { bpm = bpm })

  unfoldable pub detect_relationships : Request → Post → Page S Post
  detect_relationships r p = do
    done ← act (svc.store.check_and_update_post p)
    saved ← or_422 svc r done
    pure p

  -- The last part: `?return=no` ends here; else the page is rendered behind the redirect.
  unfoldable pub return_to : Request → TemplateData → Post → Page S (Unit {0})
  unfolding render_page
  return_to r d p =
      if str_eq (r.query "return") "no"
      then pure tt
      else (respond (
            redirect
              (if str_eq (r.query "return") "edit"
                then canonical_url (some p) <> "/edit"
                else canonical_url (some p))
              302)
          >> render_page svc r "dummy.tmpl.html" d)

  -- Everything before the first change.
  unfoldable pub maintainable : Request → Page S (TemplateData × Post)
  unfolding begin_page find_post check_author
  maintainable r = do
    if should_extract_bpm r || should_detect_relationships r || should_resync_sound_cloud r
        then pure tt
        else not_found svc r
    d ← begin_page svc r
    u ← user_or_home svc d.user
    p ← find_post svc r
    check_author svc r d u p p.author
    pure (d, p)

  unfoldable pub maintain : Request → TemplateData × Post → Page S (Unit {0})
  unfolding download_if store_bpm detect_relationships return_to
  maintain r (d, p) = do
    path ← download_if (should_extract_bpm r) r p
    if should_resync_sound_cloud r then not_found svc r else pure tt
    p' ← if should_extract_bpm r then store_bpm r p path else pure p
    p'' ← if should_detect_relationships r then detect_relationships r p' else pure p'
    return_to r d p''

  unfoldable pub post_maintenance_page : Request → Page S (Unit {0})
  unfolding maintainable maintain
  post_maintenance_page r = do ready ← maintainable r; maintain r ready
