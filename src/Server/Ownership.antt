-- ===== src/Server/Ownership.antt =====
-- Whose posts a request may rewrite.
use mathlib.Core.Path.{subst}
use sgtm.Common.{◌≡◌, sym, ◌∙◌, some, List}
use sgtm.Common.Int.{ℤ}
use sgtm.Common.Preorder.{IsPreorder}
use sgtm.Pb.{User, Post}
use sgtm.Db.{Gorm, Action}
use sgtm.Db.Laws.{Tables, IsGorm, SameRows}
use sgtm.Db.Respects.{Preserves}
use sgtm.Db.Texts.{
  Kept-weaken, TextsKept, KeepsTexts, TextsKept-Adds, TextsKept-SameRows, TextsKept-IsPreorder,
  TextsKept-Preserves,
}
use sgtm.Opts.{Opts}
use sgtm.Store.{new_store}
use sgtm.Store.Users
use sgtm.Store.Posts
use sgtm.Store.Respects.{
  create_post_row-respects, create_user-respects, check_and_update_post-respects,
}
use sgtm.Service.{Service, Platform}
use sgtm.Pages.Access.{MayEdit}
use sgtm.Server.Routes.{Route, routes}
use sgtm.Server.Sitemap.{SitemapUrl}
use sgtm.Server.Serve.{Packages, serve}
use sgtm.Server.History.{over_gorm}
use sgtm.Server.Covers.{Covers, Permits-respects}
use sgtm.Server.Permits.{Served, serve-Permits}
use sgtm.Web.{Request, World}

-- The request's session is of an admin, or of the author of the post with this id.
abbrev pub Owned : {S : Type 0} → Service S → Request → S → ℤ → Type 0
Owned svc r s i = (u : User) × (p : Post) × MayEdit svc r s u p × (p.id ≡ i)

module _ {S : Type 0} (t : Tables S) (g : Gorm S) (law : IsGorm t g) (keeps : KeepsTexts t g)
    (platform : Platform) (opts : Opts) (draw : Action S ℤ)
    (draws : (s : S) → SameRows t s (draw s).1) where
  abbrev svc : Service S
  svc = over_gorm g platform opts draw

  module _ (r : Request) (s : S) where
    abbrev Safe : S → S → Type 0
    Safe = TextsKept t (Owned svc r s)

    order : IsPreorder Safe
    order = TextsKept-IsPreorder t (Owned svc r s)

    preserved : Preserves (λ p. Unit {0}) Safe g
    preserved = TextsKept-Preserves t (Owned svc r s) g law keeps

    covered : Covers Safe svc r s
    unfolding new_store Users.update_user Posts.create_post Posts.update_post
    covered = record {
      event = λ p h. create_post_row-respects order g (λ p h. tt) preserved p s tt;
      track = λ u p h. create_post_row-respects order g (λ p h. tt) preserved p s tt;
      edit = λ u p q may same updates. record {
        rows =
            Kept-weaken (λ i. i ≡ q.id) (Owned svc r s) _ _ (λ i e. (u, p, may, sym same ∙ sym e))
              (keeps.update_post q updates s).rows;
      };
      settings = λ u sets. TextsKept-Adds t (Owned svc r s) s _ (keeps.update_user u sets s);
      renew = λ p v. check_and_update_post-respects order g (λ p h. tt) preserved p v;
      login = λ u. create_user-respects order g (λ p h. tt) preserved u s;
      draw = λ v. TextsKept-SameRows t (Owned svc r s) v _ (draws v);
    }

  -- Over a database that meets `IsGorm` and `KeepsTexts`, and with a generator of ids that touches no
  -- row: behind a request that the router hands on, every post that was stored is still there, in its
  -- place and with its id, and its title, body and lyrics are as they were, unless the user whom
  -- the request's session names is an admin by the stored role, or the author of a post with that
  -- id.
  pub serve-Owned :
      (lib : Packages S) (urls : List SitemapUrl) (r : Request) (w : World S) (route : Route)
      (r' : Request)
      → lib.find_route (routes opts) r ≡ some (route, r')
      → TextsKept t (Owned svc r' w.db) w.db (serve svc lib urls r w).db
  serve-Owned lib urls r w route r' found =
      Permits-respects (Safe r' w.db) svc r' w.db (order r' w.db) (covered r' w.db) _ route.endpoint
        (subst (λ o. Served svc lib urls o w.db (serve svc lib urls r w).db) found
          (serve-Permits svc lib urls r w))
