-- ===== src/Pages/Privacy.antt =====
-- What a visitor without a session can learn from the public pages.
use sgtm.Common.{ℕ, ◌≡◌, ◌⊎◌, inl, inr, Option, none, some, String, List}
use sgtm.Pb.{Post, view_home}
use sgtm.Db.{Error, failed}
use sgtm.Service.{Service, TemplateData}
use sgtm.Service.Templates.{new_template_data, with_cookie}
use sgtm.Service.Errors.{
  err_render, on_failure, execute_or, err_render_html, render_page, begin_page,
}
use sgtm.Pages.Blocks.{track_view}
use sgtm.Pages.Home.{home_page, last_tracks, last_users}
use sgtm.Pages.Rss.{rss_page, feed_block}
use sgtm.Web.{Request, Page}
use sgtm.Web.Agree.{Agrees, Same, SameCall, agree}

-- Databases that the queries of the public pages do not tell apart, and that stay so when a view of
-- the home page is noted.
pub record Hides {S : Type 0} (R : S → S → Type 0) (svc : Service S) : Type 0 where
  pub get_post_list : (limit : ℕ) → Same R (svc.store.get_post_list limit)
  pub get_last_users_list : (limit : ℕ) → Same R (svc.store.get_last_users_list limit)
  pub create_view : (p : Post) → p.kind ≡ view_home → SameCall R (svc.store.create_post p)

module _ {S : Type 0} {R : S → S → Type 0} (svc : Service S) where
  with_cookie-Agrees : (cookie : Option String) → cookie ≡ none → Agrees R (with_cookie svc cookie)
  unfolding with_cookie
  with_cookie-Agrees none e = search agree
  with_cookie-Agrees (some text) e = cc

  err_render-Agrees : (e : Error) (code : ℕ) → Agrees R (err_render svc e code)
  unfolding err_render
  err_render-Agrees e code = search agree

  failure-Agrees :
      (on_error : Error → Page S (Unit {0})) (o : Option String)
      → ((e : Error) → Agrees R (on_error e))
      → Agrees R (on_failure svc on_error o)
  failure-Agrees on_error none h = search agree
  failure-Agrees on_error (some text) h = h (failed text)

  execute_or-Agrees :
      (on_error : Error → Page S (Unit {0})) (name : String) (d : TemplateData)
      → ((e : Error) → Agrees R (on_error e))
      → Agrees R (execute_or svc on_error name d)
  unfolding execute_or
  execute_or-Agrees on_error name d h = search (agree, failure-Agrees)

  module _ (r : Request) (anonymous : r.oauth_cookie ≡ none) where
    new_template_data-Agrees : Agrees R (new_template_data svc r)
    unfolding new_template_data
    new_template_data-Agrees = with_cookie-Agrees r.oauth_cookie anonymous

    err_render_html-Agrees : (e : Error) (code : ℕ) → Agrees R (err_render_html svc r e code)
    unfolding err_render_html
    err_render_html-Agrees e code =
        search (agree, new_template_data-Agrees, err_render-Agrees, execute_or-Agrees) depth 9

    render_page-Agrees : (name : String) (d : TemplateData) → Agrees R (render_page svc r name d)
    unfolding render_page
    render_page-Agrees name d = search (execute_or-Agrees, err_render_html-Agrees)

    begin_page-Agrees : Agrees R (begin_page svc r)
    unfolding begin_page
    begin_page-Agrees = search (agree, new_template_data-Agrees, err_render_html-Agrees) depth 9

    module _ (law : Hides R svc) where
      pub home_page-Agrees : Agrees R (home_page svc r)
      unfolding home_page track_view last_tracks last_users
      home_page-Agrees =
          search
            (
              agree, begin_page-Agrees, render_page-Agrees, law.get_post_list,
              law.get_last_users_list, law.create_view,
            )
            depth 16

      feed_block-Agrees :
          (d : TemplateData) (x : Error ⊎ List Post) → Agrees R (feed_block svc r d x)
      unfolding feed_block
      feed_block-Agrees d (inl e) = search (agree, err_render_html-Agrees)
      feed_block-Agrees d (inr ps) = search agree

      pub rss_page-Agrees : Agrees R (rss_page svc r)
      unfolding rss_page
      rss_page-Agrees =
          search
            (agree, begin_page-Agrees, render_page-Agrees, feed_block-Agrees, law.get_post_list)
            depth 16
