-- ===== src/Server/Privacy.antt =====
-- What a visitor without a session can learn from the home page and the feed.
use mathlib.Core.Path.{subst}
use sgtm.Common.{◌≡◌, sym, ap, ◌⊎◌, inl, inr, Option, none, some, List}
use sgtm.Service.{Service}
use sgtm.Pages.Privacy.{Hides, home_page-Agrees, rss_page-Agrees}
use sgtm.Server.Routes.{Endpoint, Route, routes, home, rss}
use sgtm.Server.Sitemap.{SitemapUrl}
use sgtm.Server.Serve.{Packages, handle, recover, dispatch, serve}
use sgtm.Web.{Request, World, Flow, next, stop, crash}
use sgtm.Web.Agree.{Agrees, Alike}

-- The same response, and databases that are still related.
abbrev pub AnswersAlike : {S : Type 0} → (S → S → Type 0) → World S → World S → Type 0
AnswersAlike R v v' = (v.writer ≡ v'.writer) × R v.db v'.db

-- The pages of which this is said.
abbrev pub IsPublicPage : Endpoint → Type 0
IsPublicPage e = (e ≡ home) ⊎ (e ≡ rss)

module _ {S : Type 0} {R : S → S → Type 0} (svc : Service S) (law : Hides R svc) (lib : Packages S)
    (urls : List SitemapUrl) where
  handle-Agrees :
      (e : Endpoint) (r : Request)
      → IsPublicPage e
      → r.oauth_cookie ≡ none
      → Agrees R (handle svc lib urls e r)
  unfolding handle
  handle-Agrees e r (inl same) anonymous =
      subst (λ e. Agrees R (handle svc lib urls e r)) (sym same)
        (home_page-Agrees svc r anonymous law)
  handle-Agrees e r (inr same) anonymous =
      subst (λ e. Agrees R (handle svc lib urls e r)) (sym same)
        (rss_page-Agrees svc r anonymous law)

  recover-AnswersAlike :
      (x y : Flow (Unit {0}) × World S)
      → Alike R x y
      → AnswersAlike R (recover svc lib urls x) (recover svc lib urls y)
  unfolding recover
  recover-AnswersAlike x y (same, out, related) =
      subst (λ z. AnswersAlike R (recover svc lib urls x) (recover svc lib urls (z, y.1))) same
        (go x.0 x.1 y.1 out related)
    where
      go :
          (z : Flow (Unit {0})) (v v' : World S)
          → v.writer ≡ v'.writer
          → R v.db v'.db
          → AnswersAlike R (recover svc lib urls (z, v)) (recover svc lib urls (z, v'))
      go (next tt) v v' e r = (e, r)
      go stop v v' e r = (e, r)
      go crash v v' e r = (ap lib.recovered e, r)

  dispatch-AnswersAlike :
      (o : Option (Route × Request)) (r r' : Request) (route : Route) (w w' : World S)
      → o ≡ some (route, r')
      → IsPublicPage route.endpoint
      → r'.oauth_cookie ≡ none
      → R w.db w'.db
      → w.writer ≡ w'.writer
      → AnswersAlike R (dispatch svc lib urls o r w) (dispatch svc lib urls o r w')
  unfolding dispatch
  dispatch-AnswersAlike o r r' route w w' found page anonymous related out =
      subst (λ o. AnswersAlike R (dispatch svc lib urls o r w) (dispatch svc lib urls o r w'))
        (sym found)
        (recover-AnswersAlike (handle svc lib urls route.endpoint r' w)
          (handle svc lib urls route.endpoint r' w')
          ((handle-Agrees route.endpoint r' page anonymous).agrees w w' related out))

  -- If the store's list of posts and its list of users give the same for two databases, and the
  -- noting of a view of the home page does and keeps the two so, then a request without a session
  -- cookie for the home page or the feed is answered alike over both, to the last byte: nothing that
  -- these lists leave out can be learnt from these pages.
  pub serve-AnswersAlike :
      (r r' : Request) (route : Route) (w w' : World S)
      → lib.find_route (routes svc.opts) r ≡ some (route, r')
      → IsPublicPage route.endpoint
      → r'.oauth_cookie ≡ none
      → R w.db w'.db
      → w.writer ≡ w'.writer
      → AnswersAlike R (serve svc lib urls r w) (serve svc lib urls r w')
  unfolding serve
  serve-AnswersAlike r r' route w w' found page anonymous related out =
      dispatch-AnswersAlike (lib.find_route (routes svc.opts) r) r r' route w w' found page
        anonymous related out
