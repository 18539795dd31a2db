-- ===== src/Server/Serve.antt =====
-- One request, from the router to the end of its handler.
use sgtm.Common.{String, Option, none, some, List}
use sgtm.Service.{Service}
use sgtm.Pages.Home.{home_page}
use sgtm.Pages.Settings.{settings_page}
use sgtm.Pages.Profile.{profile_page}
use sgtm.Pages.OpenPage.{open_page}
use sgtm.Pages.NewPost.{new_page}
use sgtm.Pages.PostPage.{post_page}
use sgtm.Pages.PostEdit.{post_edit_page}
use sgtm.Pages.Maintenance.{post_maintenance_page}
use sgtm.Pages.Download.{post_download_page}
use sgtm.Pages.Rss.{rss_page}
use sgtm.Pages.Login.{http_auth_login, http_auth_logout, http_auth_callback}
use sgtm.Server.Routes.{
  Endpoint, api, home, settings, profile, open_data, new, post, edit, maintenance, download, rss,
  sitemap, login, logout, callback, static, pprof, Route, routes,
}
use sgtm.Server.Sitemap.{SitemapUrl}
use sgtm.Server.Static.{Box, static_page}
use sgtm.Web.{Request, Writer, World, Flow, next, stop, crash, Page, respond, write}

-- The packages around the handlers. The gateway calls the API's methods, which only read.
pub record Packages (S : Type 0) : Type 0 where
  -- chi: the route for a request's method and path, and the request with its URL parameters
  pub find_route : List Route → Request → Option (Route × Request)
  -- chi's answer where no route is found, and the answer of middleware.Recoverer to a panic
  pub no_route : Request → Writer → Writer
  pub recovered : Writer → Writer
  pub gateway : S → Request → Writer → Writer
  pub profiling : Request → Writer → Writer
  -- `XMLContent` of package stm
  pub xml_content : List SitemapUrl → String
  pub box : Box

module _ {S : Type 0} (svc : Service S) (lib : Packages S) (urls : List SitemapUrl) where
  -- The handler that is registered for an endpoint.
  unfoldable pub handle : Endpoint → Request → Page S (Unit {0})
  unfolding static_page
  handle api r = λ w. (next tt, record w { writer = lib.gateway w.db r w.writer })
  handle home r = home_page svc r
  handle settings r = settings_page svc r
  handle profile r = profile_page svc r
  handle open_data r = open_page svc r
  handle new r = new_page svc r
  handle post r = post_page svc r
  handle edit r = post_edit_page svc r
  handle maintenance r = post_maintenance_page svc r
  handle download r = post_download_page svc r
  handle rss r = rss_page svc r
  handle sitemap r = respond (write (lib.xml_content urls))
  handle login r = http_auth_login svc r
  handle logout r = http_auth_logout svc r
  handle callback r = http_auth_callback svc r
  handle static r = static_page svc lib.box r
  handle pprof r = respond (lib.profiling r)

  -- `middleware.Recoverer`
  unfoldable pub recover : Flow (Unit {0}) × World S → World S
  recover (next tt, w) = w
  recover (stop, w) = w
  recover (crash, w) = record w { writer = lib.recovered w.writer }

  unfoldable pub dispatch : Option (Route × Request) → Request → World S → World S
  unfolding handle recover
  dispatch none r w = record w { writer = lib.no_route r w.writer }
  dispatch (some (route, r')) r w = recover (handle route.endpoint r' w)

  unfoldable pub serve : Request → World S → World S
  unfolding dispatch routes
  serve r w = dispatch (lib.find_route (routes svc.opts) r) r w
