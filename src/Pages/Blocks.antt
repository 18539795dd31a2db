-- ===== src/Pages/Blocks.antt =====
-- Blocks that several handlers share.
use sgtm.Common.{Option, none, some, ◌⊎◌, inl, inr, ◌<>◌}
use sgtm.Pb.{Post, User}
use sgtm.Db.{Error, error_text}
use sgtm.Service.{Service, TemplateData}
use sgtm.Service.Errors.{err_render_html, error_404_page}
use sgtm.Web.{Request, Page, ◌>>=◌, ◌>>◌, pure, ask, act, respond, halt, value_or, redirect}

module _ {S : Type 0} (svc : Service S) where
  -- `if err != nil { svc.errRenderHTML(w, r, err, 422); return }`
  abbrev pub or_422 : {A : Type 0} → Request → Error ⊎ A → Page S A
  or_422 r x = value_or (λ e. err_render_html svc r e 422) x

  -- `if err != nil { svc.error404Page(box)(w, r); return }`
  abbrev pub or_404 : {A : Type 0} → Request → Error ⊎ A → Page S A
  or_404 r x = value_or (λ e. error_404_page svc r) x

  -- `svc.error404Page(box)(w, r); return`
  abbrev pub not_found : {A : Type 0} → Request → Page S A
  not_found r = error_404_page svc r >> halt

  -- The signed-in user, or a redirect of an anonymous one to the home page.
  abbrev pub user_or_home : Option User → Page S User
  user_or_home none = respond (redirect "/" 307) >> halt
  user_or_home (some u) = pure u

  -- The post that the path names.
  unfoldable pub find_post : Request → Page S Post
  find_post r = do found ← ask (svc.store.get_post_by_slug_or_id r.post_slug); or_404 r found

  abbrev noted : TemplateData → Error ⊎ Post → TemplateData
  noted d (inl e) = record d { error = "Cannot write activity: " <> error_text e }
  noted d (inr p) = d

  -- The tracking block: an error is shown on the page.
  unfoldable pub track_view : Post → TemplateData → Page S TemplateData
  track_view event d = do done ← act (svc.store.create_post event); pure (noted d done)
