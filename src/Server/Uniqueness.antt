-- ===== src/Server/Uniqueness.antt =====
-- No uploaded file and no linked track is stored twice, where requests come one after the other.
use mathlib.Core.Path.{subst}
use sgtm.Common.{◌≡◌, refl, inl, inr, false, List, [], ◌∷◌, map, All, Option, none, some, ap}
use sgtm.Common.Int.{ℤ, pos, int_eq_iff}
use sgtm.Common.Preorder.{IsPreorder}
use sgtm.Pb.{Post, User}
use sgtm.Db.{Gorm, Action, Result, ok, err, panic, PostCond, conds_hold}
use sgtm.Db.Laws.{Tables, IsGorm, SameRows}
use sgtm.Db.Respects.{Preserves}
use sgtm.Db.Rows.{IsPlain, post_key, post_keys, KeepsKeys}
use sgtm.Db.Tracks.{
  Distinct, HasId, TracksOnce, KeepsOnce, KeepsOnce-IsPreorder, KeepsOnce-same, KeepsOnce-SameRows,
  FindsTracks, Answers, SearchesWell, cid_conds, scid_conds, add-KeepsOnce, KeepsOnce-Preserves,
  other_cid, other_scid,
}
use sgtm.Opts.{Opts}
use sgtm.Store.{new_store}
use sgtm.Store.Create.{create_post_row}
use sgtm.Store.Users
use sgtm.Store.Posts
use sgtm.Store.Respects.{
  create_post_row-respects, create_user-respects, check_and_update_post-respects,
}
use sgtm.Service.{Service, Platform}
use sgtm.Pages.NewPost.Laws.{IsNewTrack, IsFresh, NoTrack}
use sgtm.Worker.Respects.{processing_loop-respects}
use sgtm.Server.Routes.{Route, routes}
use sgtm.Server.Sitemap.{SitemapUrl}
use sgtm.Server.Serve.{Packages}
use sgtm.Server.Covers.{Covers, Permits-respects}
use sgtm.Server.Permits.{Served, serve-Permits}
use sgtm.Server.History.{Event, request, call, round, over_gorm, step, run}
use sgtm.Web.{Request, new_writer}

All-map :
    {A B : Type 0} (f : A → B) (Q : A → Type 0) (P : B → Type 0)
    → ((x : A) → Q x → P (f x))
    → (xs : List A) → All Q xs
    → All P (map f xs)
All-map f Q P h [] q = tt
All-map f Q P h (x ∷ xs) q = (h x q.0, All-map f Q P h xs q.1)

module _ {S : Type 0} (t : Tables S) (g : Gorm S) (law : IsGorm t g) (keeps : KeepsKeys t g)
    (finds : FindsTracks t g) (platform : Platform) (opts : Opts) (draw : Action S ℤ)
    (draws : (s : S) → SameRows t s (draw s).1) where
  abbrev svc : Service S
  svc = over_gorm g platform opts draw

  order : IsPreorder (KeepsOnce t)
  order = KeepsOnce-IsPreorder t

  preserved : Preserves IsPlain (KeepsOnce t) g
  preserved = KeepsOnce-Preserves t g law keeps finds

  -- Where a search gave no track, no row meets its conditions.
  none_stored :
      (cs : List PostCond) (s : S) (r : Result Post)
      → g.first_post cs s ≡ r
      → Answers r
      → TracksOnce t s
      → NoTrack r
      → All (λ p. conds_hold cs p ≡ false) (t.posts s)
  none_stored cs s (ok p) e answers h none_found =
      absurd (finds.first_post_stored cs s p HasId e h.ids ((int_eq_iff p.id (pos 0)).0 none_found))
  none_stored cs s (err x) e answers h none_found =
      finds.first_post_none cs s (subst (λ x. g.first_post cs s ≡ err x) answers e)
  none_stored cs s panic e answers h none_found = absurd none_found

  track-Distinct :
      (u : User) (p : Post) (r : Request) (s : S)
      → IsNewTrack svc r s u p
      → SearchesWell g s
      → TracksOnce t s
      → All (λ k. Distinct k (post_key p)) (post_keys t s)
  unfolding new_store Posts.get_track_by_cid Posts.get_track_by_scid
  track-Distinct u p r s new well h = by_kind new.fresh
    where
      by_kind : IsFresh svc r s p → All (λ k. Distinct k (post_key p)) (post_keys t s)
      by_kind (inl (provider, visibility, no_scid, none_found)) =
          All-map post_key (λ q. conds_hold (cid_conds p.ipfs_cid) q ≡ false)
            (λ k. Distinct k (post_key p))
            (λ q other. (inr (other_cid p.ipfs_cid q other), inl no_scid)) (t.posts s)
            (none_stored (cid_conds p.ipfs_cid) s _ refl (well.cid p.ipfs_cid) h none_found)
      by_kind (inr (provider, no_cid, none_found)) =
          All-map post_key (λ q. conds_hold (scid_conds p.soundcloud_id) q ≡ false)
            (λ k. Distinct k (post_key p))
            (λ q other. (inl no_cid, inr (other_scid p.soundcloud_id q other))) (t.posts s)
            (none_stored (scid_conds p.soundcloud_id) s _ refl (well.scid p.soundcloud_id) h
              none_found)

  covered : (r : Request) (s : S) → SearchesWell g s → Covers (KeepsOnce t) svc r s
  unfolding new_store Users.update_user Posts.create_post Posts.update_post create_post_row
  covered r s well = record {
    event = λ p h. create_post_row-respects order g (λ p h. h) preserved p s h;
    track = λ u p h. add-KeepsOnce t g law keeps finds p s (track-Distinct u p r s h well);
    edit = λ u p q may same updates. KeepsOnce-same t s _ (keeps.update_post q updates s).posts;
    settings = λ u sets. KeepsOnce-same t s _ (keeps.update_user u sets s).posts;
    renew = λ p v. check_and_update_post-respects order g (λ p h. h) preserved p v;
    login = λ u. create_user-respects order g (λ p h. h) preserved u s;
    draw = λ v. KeepsOnce-SameRows t v _ (draws v);
  }

  Served-KeepsOnce :
      (lib : Packages S) (urls : List SitemapUrl) (o : Option (Route × Request)) (s s' : S)
      → SearchesWell g s
      → Served svc lib urls o s s'
      → KeepsOnce t s s'
  Served-KeepsOnce lib urls none s s' well same = KeepsOnce-same t s s' (ap (post_keys t) same)
  Served-KeepsOnce lib urls (some (route, r')) s s' well h =
      Permits-respects (KeepsOnce t) svc r' s order (covered r' s well) s' route.endpoint h

  -- An event that runs from its begin to its end before the next; a request begins where no
  -- search for a track fails for another reason than that there is no such row.
  abbrev IsWhole : Event → S → Type 0
  IsWhole (request r) s = SearchesWell g s
  IsWhole (call c) s = ⊥
  IsWhole round s = Unit

  -- Events that are so, each at the state that those before it leave.
  abbrev AreWhole : Packages S → List SitemapUrl → List Event → S → Type 0
  AreWhole lib urls [] s = Unit
  AreWhole lib urls (e ∷ es) s = IsWhole e s × AreWhole lib urls es (step g svc lib urls e s)

  step-KeepsOnce :
      (lib : Packages S) (urls : List SitemapUrl) (e : Event) (s : S)
      → IsWhole e s
      → KeepsOnce t s (step g svc lib urls e s)
  unfolding step
  step-KeepsOnce lib urls (request r) s whole =
      Served-KeepsOnce lib urls (lib.find_route (routes opts) r) s _ whole
        (serve-Permits svc lib urls r (record { db = s; writer = new_writer }))
  step-KeepsOnce lib urls (call c) s whole = absurd whole
  step-KeepsOnce lib urls round s whole =
      processing_loop-respects order g
        (record {
          update_post = λ p u v. KeepsOnce-same t v _ (keeps.update_post p u v).posts;
          transaction = preserved.transaction;
        })
        s

  -- Over a database that meets `IsGorm`, `KeepsKeys` and `FindsTracks`, and with a generator of ids
  -- that touches no row: where requests and rounds of the worker come one after the other, where
  -- at the begin of each request no search for a content id or a SoundCloud id fails for another
  -- reason than that there is no such row, and where to begin with every post has an id that is
  -- not 0 and no two posts have the same content id or the same SoundCloud id, but for the empty
  -- content id and the SoundCloud id 0, this is so behind them, whatever the requests are.
  pub run-TracksOnce :
      (lib : Packages S) (urls : List SitemapUrl) (es : List Event) (s : S)
      → AreWhole lib urls es s
      → TracksOnce t s
      → TracksOnce t (run g svc lib urls es s)
  unfolding run
  run-TracksOnce lib urls [] s whole h = h
  run-TracksOnce lib urls (e ∷ es) s whole h =
      run-TracksOnce lib urls es _ whole.1 (step-KeepsOnce lib urls e s whole.0 h)
