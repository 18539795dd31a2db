-- ===== src/Pages/Rss.antt =====
-- pkg/sgtm/page_rss.go: `rssPage`.
use sgtm.Common.{◌⊎◌, inl, inr, List, []}
use sgtm.Pb.{Post}
use sgtm.Db.{Error}
use sgtm.Service.{Service, TemplateData}
use sgtm.Service.Errors.{begin_page, render_page, err_render_html}
use sgtm.Web.{Request, Page, ◌>>=◌, ◌>>◌, pure, ask, respond, set_header}

module _ {S : Type 0} (svc : Service S) where
  -- An error is answered, and the handler goes on to render the feed behind that answer. The loop
  -- that applies defaults runs over the home page's tracks, of which there are none.
  unfoldable pub feed_block : Request → TemplateData → Error ⊎ List Post → Page S TemplateData
  feed_block r d (inl e) = err_render_html svc r e 422 >> pure (record d { rss_last_tracks = [] })
  feed_block r d (inr ps) = pure (record d { rss_last_tracks = ps })

  unfoldable pub rss_page : Request → Page S (Unit {0})
  unfolding begin_page feed_block render_page
  rss_page r = do
    d ← begin_page svc r
    respond (set_header "Content-Type" "application/xml")
    found ← ask (svc.store.get_post_list 50)
    d' ← feed_block r d found
    render_page svc r "rss.tmpl.xml" d'
