-- ===== src/Pages/Moves.antt =====
-- What every call of the store respects, every page respects.
pub mod Views
pub mod Forms
use sgtm.Common.{
  str_eq, ℕ, Bool, true, false, ◌≡◌, refl, ◌⊎◌, inl, inr, Option, none, some, String, List, ◌∷◌, [],
}
use sgtm.Common.Int.{ℤ}
use sgtm.Pb.{Post, User, UploadsByWeek}
use sgtm.Db.{Action, Error, PostUpdates, UserSet}
use sgtm.Service.{Service, TemplateData, OauthToken, DiscordUser}
use sgtm.Service.Errors.{begin_page}
use sgtm.Service.Reads.{
  begin_page-Reads, err_render_html-Reads, render_page-Reads, error_404_page-Reads,
}
use sgtm.Pages.Blocks.{find_post, track_view, user_or_home}
use sgtm.Pages.Settings.{settings_page, save_settings}
use sgtm.Pages.PostEdit.{check_author}
use sgtm.Pages.Profile.{profile_page, tracks_block, heatmap_block, profile_or_fault}
use sgtm.Pages.OpenPage.{open_page, counts, weekdays_or_fault, with_uploads}
use sgtm.Pages.Rss.{rss_page, feed_block}
use sgtm.Pages.Download.{post_download_page}
use sgtm.Pages.Home.{last_tracks, last_users, home_page}
use sgtm.Web.{Request, Page, when, ◌>>=◌, act}
use sgtm.Web.Hoare.{Reads, reads}
use sgtm.Common.Preorder.{IsPreorder}
use sgtm.Web.Moves.{Moves, Moves-Reads, moves, Moves->>=, Moves->>, Moves-act, Moves-if}

module _ {S : Type 0} (svc : Service S) where
  pub user_or_home-Reads : (o : Option User) → Reads (user_or_home svc o)
  user_or_home-Reads none = search reads
  user_or_home-Reads (some u) = search reads

  pub find_post-Reads : (r : Request) → Reads (find_post svc r)
  unfolding find_post
  find_post-Reads r = search (reads, error_404_page-Reads) depth 9

  pub check_author-Reads :
      (r : Request) (d : TemplateData) (u : User) (p : Post) (o : Option User)
      → Reads (check_author svc r d u p o)
  unfolding check_author
  check_author-Reads r d u p none = search reads
  check_author-Reads r d u p (some a) = search (reads, error_404_page-Reads) depth 9

-- The calls of the service that may change the database.
pub record Respects {S : Type 0} (R : S → S → Type 0) (svc : Service S) : Type 0 where
  pub create_user : (u : User) (s : S) → R s (svc.store.create_user u s).1
  pub update_user :
      (u : User) (sets : List UserSet) (s : S) → R s (svc.store.update_user u sets s).1
  pub create_post : (p : Post) (s : S) → R s (svc.store.create_post p s).1
  pub update_post :
      (p : Post) (updates : PostUpdates) (s : S) → R s (svc.store.update_post p updates s).1
  pub check_and_update_post : (p : Post) (s : S) → R s (svc.store.check_and_update_post p s).1
  pub generate : (s : S) → R s (svc.generate s).1

module _ {S : Type 0} {R : S → S → Type 0} ⦃order : IsPreorder R⦄ (svc : Service S)
    (law : Respects R svc) where
  pub track_view-Moves : (event : Post) (d : TemplateData) → Moves R (track_view svc event d)
  unfolding track_view
  track_view-Moves event d = search (moves, Moves-Reads, reads, law.create_post)

  pub begun-Moves :
      {B : Type 0} (r : Request) (f : TemplateData → Page S B)
      → ((d : TemplateData) → Moves R (f d))
      → Moves R (begin_page svc r >>= f)
  begun-Moves r f h = Moves->>= _ _ (Moves-Reads _ (begin_page-Reads svc r)) h

  -- A call that the relation knows, and what follows only reads.
  pub saves-Moves :
      {A B : Type 0} (m : Action S A) (f : Error ⊎ A → Page S B)
      → ((s : S) → R s (m s).1)
      → ((x : Error ⊎ A) → Reads (f x))
      → Moves R (act m >>= f)
  saves-Moves m f h k = Moves->>= _ f (Moves-act m h) (λ x. Moves-Reads _ (k x))
