-- ===== src/Server/Moves.antt =====
-- What every call of the store respects, every request respects.
use sgtm.Common.{◌≡◌, refl, Option, none, some, List}
use sgtm.Common.Preorder.{IsPreorder}
use sgtm.Service.{Service}
use sgtm.Service.Reads.{error_404_page-Reads}
use sgtm.Pages.Login.{http_auth_login, http_auth_logout}
use sgtm.Pages.Moves.{Respects}
use sgtm.Pages.Moves.Views.{
  home_page-Moves, profile_page-Moves, open_page-Moves, rss_page-Reads, post_download_page-Reads,
}
use sgtm.Pages.Moves.Forms.{
  settings_page-Moves, post_edit_page-Moves, post_page-Moves, new_page-Moves,
  post_maintenance_page-Moves, http_auth_callback-Moves,
}
use sgtm.Server.Routes.{
  Endpoint, api, home, settings, profile, open_data, new, post, edit, maintenance, download, rss,
  sitemap, login, logout, callback, static, pprof, Route, routes,
}
use sgtm.Server.Sitemap.{SitemapUrl}
use sgtm.Server.Static.{static_page}
use sgtm.Server.Serve.{Packages, handle, recover, dispatch, serve}
use sgtm.Web.{Request, World, Flow, next, stop, crash}
use sgtm.Web.Hoare.{Reads, reads}
use sgtm.Web.Moves.{Moves, Moves-Reads}

module _ {S : Type 0} (svc : Service S) (lib : Packages S) (urls : List SitemapUrl) where
  pub static_page-Reads : (r : Request) → Reads (static_page svc lib.box r)
  unfolding static_page
  static_page-Reads r = search (reads, error_404_page-Reads) depth 9

  pub http_auth_login-Reads : (r : Request) → Reads (http_auth_login svc r)
  unfolding http_auth_login
  http_auth_login-Reads r = search reads

  pub http_auth_logout-Reads : (r : Request) → Reads (http_auth_logout svc r)
  unfolding http_auth_logout
  http_auth_logout-Reads r = search reads

  pub recovered-same : (x : Flow (Unit {0}) × World S) → (recover svc lib urls x).db ≡ x.1.db
  unfolding recover
  recovered-same (next tt, w) = refl
  recovered-same (stop, w) = refl
  recovered-same (crash, w) = refl

  module _ {R : S → S → Type 0} ⦃order : IsPreorder R⦄ (law : Respects R svc) where
    handle-Moves : (e : Endpoint) (r : Request) → Moves R (handle svc lib urls e r)
    unfolding handle
    handle-Moves api r = Moves-Reads _ (record { same_db = λ w. refl })
    handle-Moves home r = home_page-Moves svc law r
    handle-Moves settings r = settings_page-Moves svc law r
    handle-Moves profile r = profile_page-Moves svc law r
    handle-Moves open_data r = open_page-Moves svc law r
    handle-Moves new r = new_page-Moves svc law r
    handle-Moves post r = post_page-Moves svc law r
    handle-Moves edit r = post_edit_page-Moves svc law r
    handle-Moves maintenance r = post_maintenance_page-Moves svc law r
    handle-Moves download r = Moves-Reads _ (post_download_page-Reads svc r)
    handle-Moves rss r = Moves-Reads _ (rss_page-Reads svc r)
    handle-Moves sitemap r = Moves-Reads _ (search reads)
    handle-Moves login r = Moves-Reads _ (http_auth_login-Reads r)
    handle-Moves logout r = Moves-Reads _ (http_auth_logout-Reads r)
    handle-Moves callback r = http_auth_callback-Moves svc law r
    handle-Moves static r = Moves-Reads _ (static_page-Reads r)
    handle-Moves pprof r = Moves-Reads _ (search reads)

    dispatch-respects :
        (o : Option (Route × Request)) (r : Request) (w : World S)
        → R w.db (dispatch svc lib urls o r w).db
    unfolding dispatch
    dispatch-respects none r w = order.same w.db
    dispatch-respects (some (route, r')) r w =
        rw (recovered-same (handle svc lib urls route.endpoint r' w))
          ((handle-Moves route.endpoint r').moves w)

    pub serve-respects : (r : Request) (w : World S) → R w.db (serve svc lib urls r w).db
    unfolding serve
    serve-respects r w = dispatch-respects (lib.find_route (routes svc.opts) r) r w
