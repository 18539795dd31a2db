-- ===== src/Server/Permits.antt =====
-- What a request may do to the database, endpoint by endpoint.
use mathlib.Core.Path.{subst}
use sgtm.Common.{sym, List, ◌≡◌, refl, inl, inr, Option, none, some}
use sgtm.Pb.{User, Post, view_home, view_open, view_profile}
use sgtm.Pages.Settings.{settings_fields}
use sgtm.Pages.PostEdit.{edit_fields}
use sgtm.Pages.PostPage.{comment_of}
use sgtm.Db.{by_map}
use sgtm.Service.{Service, TemplateData}
use sgtm.Service.Laws.{Identity, KnowsVisitor}
use sgtm.Pages.Access.{Found}
use sgtm.Pages.Views.{Viewed, IsView, home_page-Viewed, open_page-Viewed, profile_page-Viewed}
use sgtm.Pages.PostEdit.Laws.{IsEdit, Edited, post_edit_page-Edited}
use sgtm.Pages.NewPost.Laws.{IsNewTrack, Added, new_page-Added}
use sgtm.Pages.Settings.Laws.{IsChange, Changed, settings_page-Changed}
use sgtm.Pages.PostPage.Laws.{IsComment, Visited, view_of, shown, post_page-Visited}
use sgtm.Pages.Login.Laws.{IsLogin, LoggedIn, Entered, http_auth_callback-IsLogin}
use sgtm.Pages.Maintenance.Laws.{
  IsMaintenance, Updated, Maintained, post_maintenance_page-Maintained,
}
use sgtm.Pages.Moves.Views.{rss_page-Reads, post_download_page-Reads}
use sgtm.Server.Routes.{
  Endpoint, api, home, settings, profile, open_data, new, edit, maintenance, download, rss, sitemap,
  login, logout, callback, static, pprof, Route, routes,
}
use sgtm.Server.Sitemap.{SitemapUrl}
use sgtm.Server.Serve.{Packages, handle, dispatch, serve}
use sgtm.Server.Moves.{
  recovered-same, static_page-Reads, http_auth_login-Reads, http_auth_logout-Reads,
}
use sgtm.Web.{Request, World, respond}

-- The specification: the changes of a database that a request to an endpoint may make.
module _ {S : Type 0} (svc : Service S) (r : Request) (s s' : S) where
  pub data Permits : Endpoint → Type 0 where
    nothing : {e : Endpoint} → s' ≡ s → Permits e
    view_home_page :
        (p : Post) → IsView svc r s view_home p → s' ≡ (svc.store.create_post p s).1 → Permits home
    view_open_page :
        (p : Post)
        → IsView svc r s view_open p
        → s' ≡ (svc.store.create_post p s).1
        → Permits open_data
    view_profile_page :
        (p : Post)
        → IsView svc r s view_profile p
        → s' ≡ (svc.store.create_post p s).1
        → Permits profile
    view_track :
        (d : TemplateData) (p : Post)
        → KnowsVisitor svc r s d
        → Found svc r s p
        → s' ≡ (svc.store.create_post (view_of svc r s d (shown svc r s p)) s).1
        → Permits Endpoint.post
    comment_on_track :
        (d : TemplateData) (p : Post)
        → KnowsVisitor svc r s d
        → Found svc r s p
        → IsComment svc r s (shown svc r s p) d
        → s' ≡ (svc.store.create_post (comment_of svc r d (shown svc r s p)) s).1
        → Permits Endpoint.post
    edit_track :
        (p : Post)
        → IsEdit svc r s p
        → s' ≡ (svc.store.update_post p (by_map (edit_fields svc r p)) s).1
        → Permits edit
    change_settings :
        (u : User)
        → IsChange svc r s u
        → s' ≡ (svc.store.update_user u (settings_fields r) s).1
        → Permits settings
    add_track :
        (u : User) (p : Post)
        → Identity svc r s u
        → IsNewTrack svc r s u p
        → s' ≡ (svc.store.create_post p s).1
        → Permits new
    maintain_track :
        (p : Post) → IsMaintenance svc r s p → Updated svc r s p s' → Permits maintenance
    log_in : (h : IsLogin svc r s) → LoggedIn svc r s h.user s' → Permits callback

module _ {S : Type 0} (svc : Service S) (lib : Packages S) (urls : List SitemapUrl) where
  module _ (r : Request) (s : S) where
    viewed_home : {s' : S} → Viewed svc r s view_home s' → Permits svc r s s' home
    viewed_home (inl same) = nothing same
    viewed_home (inr (p, view, made)) = view_home_page p view made

    viewed_open : {s' : S} → Viewed svc r s view_open s' → Permits svc r s s' open_data
    viewed_open (inl same) = nothing same
    viewed_open (inr (p, view, made)) = view_open_page p view made

    viewed_profile : {s' : S} → Viewed svc r s view_profile s' → Permits svc r s s' profile
    viewed_profile (inl same) = nothing same
    viewed_profile (inr (p, view, made)) = view_profile_page p view made

    visited : {s' : S} → Visited svc r s s' → Permits svc r s s' Endpoint.post
    visited (inl same) = nothing same
    visited (inr (d, p, visitor, found, inl (comment, made))) =
        comment_on_track d p visitor found comment made
    visited (inr (d, p, visitor, found, inr made)) = view_track d p visitor found made

    edited : {s' : S} → Edited svc r s s' → Permits svc r s s' edit
    edited (inl same) = nothing same
    edited (inr (p, h, made)) = edit_track p h made

    changed : {s' : S} → Changed svc r s s' → Permits svc r s s' settings
    changed (inl same) = nothing same
    changed (inr (u, h, made)) = change_settings u h made

    added : {s' : S} → Added svc r s s' → Permits svc r s s' new
    added (inl same) = nothing same
    added (inr (u, p, method, identity, h, made)) = add_track u p identity h made

    maintained : {s' : S} → Maintained svc r s s' → Permits svc r s s' maintenance
    maintained (inl same) = nothing same
    maintained (inr (p, h, made)) = maintain_track p h made

    logged_in : {s' : S} → Entered svc r s s' → Permits svc r s s' callback
    logged_in (inl same) = nothing same
    logged_in (inr (h, made)) = log_in h made

  handle-Permits :
      (e : Endpoint) (r : Request) (w : World S)
      → Permits svc r w.db (handle svc lib urls e r w).1.db e
  unfolding handle respond
  handle-Permits api r w = nothing refl
  handle-Permits home r w = viewed_home r w.db ((home_page-Viewed svc r w.db).ended w refl)
  handle-Permits settings r w = changed r w.db (settings_page-Changed svc r w)
  handle-Permits profile r w = viewed_profile r w.db ((profile_page-Viewed svc r w.db).ended w refl)
  handle-Permits open_data r w = viewed_open r w.db ((open_page-Viewed svc r w.db).ended w refl)
  handle-Permits new r w = added r w.db (new_page-Added svc r w)
  handle-Permits Endpoint.post r w = visited r w.db (post_page-Visited svc r w)
  handle-Permits edit r w = edited r w.db (post_edit_page-Edited svc r w)
  handle-Permits maintenance r w = maintained r w.db (post_maintenance_page-Maintained svc r w)
  handle-Permits download r w = nothing ((post_download_page-Reads svc r).same_db w)
  handle-Permits rss r w = nothing ((rss_page-Reads svc r).same_db w)
  handle-Permits sitemap r w = nothing refl
  handle-Permits login r w = nothing ((http_auth_login-Reads svc lib urls r).same_db w)
  handle-Permits logout r w = nothing ((http_auth_logout-Reads svc lib urls r).same_db w)
  handle-Permits callback r w = logged_in r w.db (http_auth_callback-IsLogin svc r w)
  handle-Permits static r w = nothing ((static_page-Reads svc lib urls r).same_db w)
  handle-Permits pprof r w = nothing refl

  -- What becomes of the database, by what the router found.
  abbrev pub Served : Option (Route × Request) → S → S → Type 0
  Served none s s' = s' ≡ s
  Served (some (route, r)) s s' = Permits svc r s s' route.endpoint

  dispatch-Served :
      (o : Option (Route × Request)) (r : Request) (w : World S)
      → Served o w.db (dispatch svc lib urls o r w).db
  unfolding dispatch
  dispatch-Served none r w = refl
  dispatch-Served (some (route, r')) r w =
      subst (λ (s' : S). Permits svc r' w.db s' route.endpoint)
        (sym (recovered-same svc lib urls (handle svc lib urls route.endpoint r' w)))
        (handle-Permits route.endpoint r' w)

  -- Whatever a request is, and however its handler ends, panics included: a request for which the
  -- router finds no route leaves the database as it was, and one for which it finds a route makes
  -- one of the changes that `Permits` lists for the endpoint of that route, or none.
  pub serve-Permits :
      (r : Request) (w : World S)
      → Served (lib.find_route (routes svc.opts) r) w.db (serve svc lib urls r w).db
  unfolding serve
  serve-Permits r w = dispatch-Served (lib.find_route (routes svc.opts) r) r w
