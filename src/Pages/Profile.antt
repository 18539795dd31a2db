-- ===== src/Pages/Profile.antt =====
-- pkg/sgtm/page_profile.go: `profilePage`.
pub mod Laws
use sgtm.Common.{
  ℕ, Bool, String, Option, none, some, ◌⊎◌, inl, inr, List, [], ◌∷◌, if◌then◌else◌, ◌<>◌,
}
use sgtm.Common.Int.{ℤ, pos, int_eq, ltb_ℤ}
use sgtm.Pb.{Post, User, zero_post, view_profile}
use sgtm.Db.{Error, error_text}
use sgtm.Service.{Service, TemplateData}
use sgtm.Service.Errors.{begin_page, render_page}
use sgtm.Pages.Blocks.{or_404, track_view}
use sgtm.Web.{Request, Page, ◌>>=◌, ◌>>◌, pure, fault, ask}

-- `CalendarHeatmap[timestamp] = 1`
unfoldable pub mark : ℤ → List (ℤ × ℤ) → List (ℤ × ℤ)
mark t [] = (t, pos 1) ∷ []
mark t (e ∷ m) = if int_eq e.0 t then (t, pos 1) ∷ m else e ∷ mark t m

unfoldable pub mark_all : List ℤ → List (ℤ × ℤ) → List (ℤ × ℤ)
unfolding mark
mark_all [] m = m
mark_all (t ∷ ts) m = mark_all ts (mark t m)

module _ {S : Type 0} (svc : Service S) where
  -- The store gives a missing user as nil with no error, and `data.Profile.User.ID` panics.
  unfoldable pub profile_or_fault : Option User → Page S User
  profile_or_fault none = fault
  profile_or_fault (some u) = pure u

  abbrev with_tracks : TemplateData → Error ⊎ (List Post × ℤ) → TemplateData
  with_tracks d (inl e) = record d {
    profile_last_tracks = [];
    profile_tracks = pos 0;
    error = "Cannot fetch last tracks: " <> error_text e;
  }
  with_tracks d (inr (ps, n)) = record d { profile_last_tracks = ps; profile_tracks = n }

  abbrev with_heatmap : TemplateData → Error ⊎ List ℤ → TemplateData
  with_heatmap d (inl e) = record d {
    calendar_heatmap = [];
    error = "Cannot fetch post timestamps: " <> error_text e;
  }
  with_heatmap d (inr ts) = record d { calendar_heatmap = mark_all ts [] }

  unfoldable pub tracks_block : User → TemplateData → Page S TemplateData
  tracks_block u d = do
    found ← ask (svc.store.get_post_list_by_user_id u.id 100)
    pure (with_tracks d found)

  unfoldable pub heatmap_block : User → TemplateData → Page S TemplateData
  heatmap_block u d =
      if ltb_ℤ (pos 0) d.profile_tracks
      then (do found ← ask (svc.store.get_calendar_heat_map u.id); pure (with_heatmap d found))
      else pure d

  unfoldable pub profile_page : Request → Page S (Unit {0})
  unfolding begin_page profile_or_fault track_view tracks_block heatmap_block render_page
  profile_page r = do
    d ← begin_page svc r
    found ← ask (svc.store.get_user_by_slug r.user_slug)
    profile ← or_404 svc r found
    u ← profile_or_fault profile
    d1 ←
        track_view svc
          (record zero_post { author_id = d.user_id; kind = view_profile; target_user_id = u.id })
          (record d { page_kind = "profile"; profile_user = some u })
    d2 ← tracks_block u d1
    d3 ← heatmap_block u d2
    render_page svc r "profile.tmpl.html" d3
