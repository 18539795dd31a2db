-- ===== src/Pages/Moves/Views.antt =====
-- The pages that note a view, or only read.
use sgtm.Common.{◌⊎◌, inl, inr, Option, none, some, List}
use sgtm.Common.Int.{ℤ}
use sgtm.Pb.{Post, User, UploadsByWeek}
use sgtm.Db.{Error}
use sgtm.Service.{Service, TemplateData}
use sgtm.Service.Reads.{
  begin_page-Reads, err_render_html-Reads, render_page-Reads, error_404_page-Reads,
}
use sgtm.Pages.Profile.{profile_page, tracks_block, heatmap_block, profile_or_fault}
use sgtm.Pages.OpenPage.{open_page, counts, weekdays_or_fault, with_uploads}
use sgtm.Pages.Rss.{rss_page, feed_block}
use sgtm.Pages.Download.{post_download_page}
use sgtm.Pages.Home.{last_tracks, last_users, home_page}
use sgtm.Web.{Request}
use sgtm.Web.Hoare.{Reads, reads}
use sgtm.Common.Preorder.{IsPreorder}
use sgtm.Web.Moves.{Moves, Moves-Reads, Moves->>=}
use sgtm.Pages.Moves.{Respects, track_view-Moves, begun-Moves, find_post-Reads}

module _ {S : Type 0} (svc : Service S) where
  pub profile_or_fault-Reads : (o : Option User) → Reads (profile_or_fault svc o)
  unfolding profile_or_fault
  profile_or_fault-Reads none = search reads
  profile_or_fault-Reads (some u) = search reads

  weekdays_or_fault-Reads :
      (d : TemplateData) (o : Option (List ℤ)) → Reads (weekdays_or_fault svc d o)
  weekdays_or_fault-Reads d none = search reads
  weekdays_or_fault-Reads d (some xs) = search reads

  pub with_uploads-Reads :
      (d : TemplateData) (x : Error ⊎ List UploadsByWeek) → Reads (with_uploads svc d x)
  with_uploads-Reads d (inl e) = search reads
  with_uploads-Reads d (inr rows) = weekdays_or_fault-Reads d _

  feed_block-Reads :
      (r : Request) (d : TemplateData) (x : Error ⊎ List Post) → Reads (feed_block svc r d x)
  unfolding feed_block
  feed_block-Reads r d (inl e) = search (reads, err_render_html-Reads)
  feed_block-Reads r d (inr ps) = search reads

  pub rss_page-Reads : (r : Request) → Reads (rss_page svc r)
  unfolding rss_page
  rss_page-Reads r = search (reads, begin_page-Reads, feed_block-Reads, render_page-Reads) depth 12

  pub post_download_page-Reads : (r : Request) → Reads (post_download_page svc r)
  unfolding post_download_page
  post_download_page-Reads r = search (reads, find_post-Reads svc, err_render_html-Reads) depth 12

module _ {S : Type 0} {R : S → S → Type 0} ⦃order : IsPreorder R⦄ (svc : Service S)
    (law : Respects R svc) where
  pub home_page-Moves : (r : Request) → Moves R (home_page svc r)
  unfolding home_page last_tracks last_users
  home_page-Moves r = begun-Moves svc law r _ λ d.
      Moves->>= _ _ (track_view-Moves svc law _ _)
        λ d1. Moves-Reads _ (search (reads, render_page-Reads) depth 12)

  pub profile_page-Moves : (r : Request) → Moves R (profile_page svc r)
  unfolding profile_page tracks_block heatmap_block
  profile_page-Moves r = begun-Moves svc law r _ λ d.
      Moves->>= _ _ (Moves-Reads _ (search reads)) λ found.
        Moves->>= _ _ (Moves-Reads _ (search (reads, error_404_page-Reads))) λ profile.
          Moves->>= _ _ (Moves-Reads _ (profile_or_fault-Reads svc profile)) λ u.
            Moves->>= _ _ (track_view-Moves svc law _ _)
              λ d1. Moves-Reads _ (search (reads, render_page-Reads) depth 12)

  pub open_page-Moves : (r : Request) → Moves R (open_page svc r)
  unfolding open_page counts
  open_page-Moves r = begun-Moves svc law r _ λ d.
      Moves->>= _ _ (track_view-Moves svc law _ _)
        λ d1. Moves-Reads _ (search (reads, with_uploads-Reads, render_page-Reads) depth 24)
