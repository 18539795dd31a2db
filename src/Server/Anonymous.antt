-- ===== src/Server/Anonymous.antt =====
-- What a request without a session may do.
use mathlib.Core.Path.{subst}
use sgtm.Common.{List, ◌≡◌, refl, ap, ◌∙◌, ◌⊎◌, inl, inr, none, some, true, String}
use sgtm.Common.Int.{pos, is_zero}
use sgtm.Pb.{User, Post, Kind, view_home, view_open, view_profile, view_post}
use sgtm.Service.{Service, TemplateData}
use sgtm.Service.Laws.{Identity, KnowsVisitor}
use sgtm.Pages.Login.Laws.{IsLogin, LoggedIn}
use sgtm.Server.Routes.{Endpoint, Route, routes}
use sgtm.Server.Sitemap.{SitemapUrl}
use sgtm.Server.Serve.{Packages, serve}
use sgtm.Server.Permits.{
  Permits, Served, serve-Permits, nothing, view_home_page, view_open_page, view_profile_page,
  view_track, comment_on_track, edit_track, change_settings, add_track, maintain_track, log_in,
}
use sgtm.Web.{Request, World}

abbrev pub IsViewing : Kind → Type 0
IsViewing k = (k ≡ view_home) ⊎ (k ≡ view_open) ⊎ (k ≡ view_profile) ⊎ (k ≡ view_post)

module _ {S : Type 0} (svc : Service S) (r : Request) (s : S) where
  no_identity : {A : Type 0} {u : User} → r.oauth_cookie ≡ none → Identity svc r s u → A
  no_identity h i = absurd (cookie_given i.cookie)
    where
      cookie_given : {text : String} → r.oauth_cookie ≡ some text → ⊥
      cookie_given e = cc

  no_user : {d : TemplateData} → r.oauth_cookie ≡ none → KnowsVisitor svc r s d → d.user_id ≡ pos 0
  no_user h (inl anonymous) = anonymous.user_id
  no_user h (inr signed_in) = no_identity h signed_in.identity

  -- The database as it was, or with a view by nobody, or what a login made of it.
  abbrev pub SeenOrLoggedIn : S → Type 0
  SeenOrLoggedIn s' =
      (s' ≡ s)
      ⊎ ((p : Post) × (p.author_id ≡ pos 0)
          × IsViewing p.kind
          × (s' ≡ (svc.store.create_post p s).1))
      ⊎ ((h : IsLogin svc r s) × LoggedIn svc r s h.user s')

  Permits-anonymous :
      {s' : S} {e : Endpoint} → r.oauth_cookie ≡ none → Permits svc r s s' e → SeenOrLoggedIn s'
  Permits-anonymous h (nothing same) = inl same
  Permits-anonymous h (view_home_page p view made) =
      inr (inl (p, view.author ∙ no_user h view.visitor, inl view.kind, made))
  Permits-anonymous h (view_open_page p view made) =
      inr (inl (p, view.author ∙ no_user h view.visitor, inr (inl view.kind), made))
  Permits-anonymous h (view_profile_page p view made) =
      inr (inl (p, view.author ∙ no_user h view.visitor, inr (inr (inl view.kind)), made))
  Permits-anonymous h (view_track d p visitor found made) =
      inr (inl (_, no_user h visitor, inr (inr (inr refl)), made))
  Permits-anonymous h (comment_on_track d p visitor found comment made) = absurd (
      let nobody : is_zero d.user_id ≡ true = ap is_zero (no_user h visitor) in
      let somebody = comment.author in cc)
  Permits-anonymous h (edit_track p edit made) = no_identity h edit.may.identity
  Permits-anonymous h (change_settings u change made) = no_identity h change.identity
  Permits-anonymous h (add_track u p identity track made) = no_identity h identity
  Permits-anonymous h (maintain_track p maintenance made) = no_identity h maintenance.may.identity
  Permits-anonymous h (log_in login made) = inr (inr (login, made))

module _ {S : Type 0} where
  -- A request that carries no session cookie where its route hands it to the handler leaves the
  -- database as it was, notes one view whose author is nobody, or is a login that the provider has
  -- vouched for, and then makes only what `CreateUser` of that provider's profile makes and the
  -- drawing of an id: without a cookie there is no comment, edit, new track, changed setting or
  -- maintenance.
  pub serve-anonymous :
      (svc : Service S) (lib : Packages S) (urls : List SitemapUrl) (r : Request) (w : World S)
      (route : Route) (r' : Request)
      → lib.find_route (routes svc.opts) r ≡ some (route, r')
      → r'.oauth_cookie ≡ none
      → SeenOrLoggedIn svc r' w.db (serve svc lib urls r w).db
  serve-anonymous svc lib urls r w route r' found h = Permits-anonymous svc r' w.db h (
      subst (λ o. Served svc lib urls o w.db (serve svc lib urls r w).db) found
        (serve-Permits svc lib urls r w))
