-- ===== src/Pages/Home.antt =====
-- pkg/sgtm/page_home.go: `homePage`.
pub mod Laws
use sgtm.Common.{ℕ, ◌⊎◌, inl, inr, List, [], map, if◌then◌else◌, ◌<>◌}
use sgtm.Common.Int.{ℤ, is_zero}
use sgtm.Pb.{Post, User, zero_post, view_home}
use sgtm.Pb.PostHelpers
use sgtm.Pb.UserHelpers
use sgtm.Db.{Error, error_text}
use sgtm.Service.{Service, TemplateData}
use sgtm.Service.Errors.{begin_page, render_page}
use sgtm.Pages.Blocks.{track_view}
use sgtm.Web.{Request, Page, ◌>>=◌, pure, ask}

module _ {S : Type 0} (svc : Service S) where
  -- An anonymous visitor sees ten tracks, a user fifty.
  unfoldable pub track_limit : ℤ → ℕ
  track_limit user_id = if is_zero user_id then 10 else 50

  abbrev pub with_tracks : TemplateData → Error ⊎ List Post → TemplateData
  with_tracks d (inl e) = record d {
    home_last_tracks = [];
    error = "Cannot fetch last tracks: " <> error_text e;
  }
  with_tracks d (inr ps) = record d {
    home_last_tracks = map (PostHelpers.apply_defaults svc.platform.decode_avatar) ps;
  }

  abbrev with_users : TemplateData → Error ⊎ List User → TemplateData
  with_users d (inl e) = record d {
    home_last_users = [];
    error = "Cannot fetch last users: " <> error_text e;
  }
  with_users d (inr us) = record d { home_last_users = map UserHelpers.apply_defaults us }

  unfoldable pub last_tracks : TemplateData → Page S TemplateData
  unfolding track_limit
  last_tracks d = do
    found ← ask (svc.store.get_post_list (track_limit d.user_id))
    pure (with_tracks d found)

  unfoldable pub last_users : TemplateData → Page S TemplateData
  last_users d = do found ← ask (svc.store.get_last_users_list 10); pure (with_users d found)

  unfoldable pub home_page : Request → Page S (Unit {0})
  unfolding begin_page track_view last_tracks last_users render_page
  home_page r = do
    d ← begin_page svc r
    d1 ←
        track_view svc (record zero_post { author_id = d.user_id; kind = view_home })
          (record d { page_kind = "home" })
    d2 ← last_tracks d1
    d3 ← last_users d2
    render_page svc r "home.tmpl.html" d3
