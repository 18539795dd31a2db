-- ===== src/Pages/OpenPage.antt =====
-- pkg/sgtm/page_open.go: `openPage`, the counts of the site.
pub mod Laws
use sgtm.Common.{
  ℕ, zero, suc, ◌*◌, ◌+◌, Bool, String, Option, none, some, ◌⊎◌, inl, inr, List, [], ◌∷◌,
  if◌then◌else◌, ◌<>◌,
}
use sgtm.Common.Int.{ℤ, pos, negsuc, int64}
use sgtm.Pb.{
  Post, Kind, unknown_kind, track, login, register, link_discord_account, view_profile, view_post,
  view_open, view_home, comment, zero_post, PostByKind, UploadsByWeek,
}
use sgtm.Db.{Error, error_text}
use sgtm.Service.{Service, TemplateData}
use sgtm.Service.Errors.{begin_page, render_page}
use sgtm.Pages.Blocks.{track_view}
use sgtm.Web.{Request, Page, ◌>>=◌, ◌>>◌, pure, fault, ask}

-- pkg/sgtm/const.go
abbrev pub moul_id : ℤ
moul_id = pos 1280639244955553792

unfoldable pub count_kind : Kind → ℤ → TemplateData → TemplateData
count_kind track n d = record d { open_tracks = n }
count_kind comment n d = record d { open_comments = n }
count_kind view_home n d = record d { open_home_views = n }
count_kind view_post n d = record d { open_post_views = n }
count_kind view_profile n d = record d { open_profile_views = n }
count_kind view_open n d = record d { open_open_views = n }
count_kind unknown_kind n d = d
count_kind login n d = d
count_kind register n d = d
count_kind link_discord_account n d = d

unfoldable pub count_kinds : List PostByKind → TemplateData → TemplateData
unfolding count_kind
count_kinds [] d = d
count_kinds (row ∷ rows) d = count_kinds rows (count_kind row.kind row.quantity d)

-- `list[i] = v`; `none` is an index out of range.
unfoldable pub set_at : ℕ → ℤ → List ℤ → Option (List ℤ)
set_at i v [] = none
set_at zero v (x ∷ xs) = some (v ∷ xs)
set_at (suc i) v (x ∷ xs) = elim (set_at i v xs) [ none ↦ none | some ys ↦ some (x ∷ ys) ]

abbrev pub at_weekday : ℤ → ℤ → List ℤ → Option (List ℤ)
at_weekday (pos i) v xs = set_at i v xs
at_weekday (negsuc i) v xs = none

unfoldable pub set_weekdays : List UploadsByWeek → Option (List ℤ) → Option (List ℤ)
set_weekdays [] xs = xs
set_weekdays (row ∷ rows) none = none
set_weekdays (row ∷ rows) (some xs) = set_weekdays rows (at_weekday row.weekday row.quantity xs)

-- `make([]int64, 7)`
abbrev pub no_uploads : List ℤ
no_uploads = pos 0 ∷ pos 0 ∷ pos 0 ∷ pos 0 ∷ pos 0 ∷ pos 0 ∷ pos 0 ∷ []

-- Milliseconds in nanoseconds.
abbrev in_nanoseconds : ℤ → ℤ
in_nanoseconds (pos n) = int64 (pos (1000000 * n))
in_nanoseconds (negsuc n) = int64 (negsuc (1000000 * n + 999999))

module _ {S : Type 0} (svc : Service S) where
  abbrev with_kinds : TemplateData → Error ⊎ List PostByKind → TemplateData
  with_kinds d (inl e) = record d { error = "Cannot fetch events: " <> error_text e }
  with_kinds d (inr rows) = count_kinds rows d

  abbrev with_duration : TemplateData → Error ⊎ ℤ → TemplateData
  with_duration d (inl e) = record d {
    open_total_duration = pos 0;
    error = "Cannot fetch last track durations: " <> error_text e;
  }
  with_duration d (inr n) = record d { open_total_duration = in_nanoseconds n }

  abbrev pub weekdays_or_fault : TemplateData → Option (List ℤ) → Page S TemplateData
  weekdays_or_fault d none = fault
  weekdays_or_fault d (some xs) = pure (record d { uploads_by_weekday = xs })

  abbrev pub with_uploads : TemplateData → Error ⊎ List UploadsByWeek → Page S TemplateData
  with_uploads d (inl e) = pure (record d {
    uploads_by_weekday = no_uploads;
    error = "Cannot fetch uploads by weekday: " <> error_text e;
  })
  with_uploads d (inr rows) = weekdays_or_fault d (set_weekdays rows (some no_uploads))

  abbrev with_activities : TemplateData → Error ⊎ List Post → TemplateData
  with_activities d (inl e) = record d {
    last_activities = [];
    error = "Cannot fetch last activities: " <> error_text e;
  }
  with_activities d (inr ps) = record d { last_activities = ps }

  abbrev with_drafts : TemplateData → Error ⊎ ℤ → TemplateData
  with_drafts d (inl e) = record d {
    open_track_drafts = pos 0;
    error = "Cannot fetch last track drafts: " <> error_text e;
  }
  with_drafts d (inr n) = record d { open_track_drafts = n }

  abbrev with_users : TemplateData → Error ⊎ ℤ → TemplateData
  with_users d (inl e) = record d {
    open_users = pos 0;
    error = "Cannot fetch last users: " <> error_text e;
  }
  with_users d (inr n) = record d { open_users = n }

  unfoldable pub counts : TemplateData → Page S TemplateData
  counts d = do
    kinds ← ask svc.store.get_number_of_posts_by_kind
    let d1 = with_kinds d kinds
    duration ← ask svc.store.get_total_duration
    let d2 = with_duration d1 duration
    uploads ← ask svc.store.get_uploads_by_week
    d3 ← with_uploads d2 uploads
    activities ← ask (svc.store.get_last_activities moul_id)
    let d4 = with_activities d3 activities
    drafts ← ask svc.store.get_number_of_draft_posts
    let d5 = with_drafts d4 drafts
    users ← ask svc.store.get_number_of_users
    pure (with_users d5 users)

  unfoldable pub open_page : Request → Page S (Unit {0})
  unfolding begin_page track_view counts render_page
  open_page r = do
    d ← begin_page svc r
    d1 ←
        track_view svc (record zero_post { author_id = d.user_id; kind = view_open })
          (record d { page_kind = "open" })
    d2 ← counts d1
    render_page svc r "open.tmpl.html" d2
