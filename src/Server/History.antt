-- ===== src/Server/History.antt =====
-- A history of the program: requests, single calls of handlers that run side by side, and rounds of
-- the worker, in any order, over one database.
use sgtm.Common.{List, [], ◌∷◌}
use sgtm.Common.Int.{ℤ}
use sgtm.Pb.{User, Post}
use sgtm.Db.{PostUpdates, UserSet, Gorm, Action}
use sgtm.Db.Laws.{Tables, IsGorm, SameRows}
use sgtm.Db.Rows.{Grows, Grows-SameKeys, Grows-SameRows, Grows-trans, Grows-IsPreorder, KeepsKeys}
use sgtm.Opts.{Opts}
use sgtm.Store.{new_store}
use sgtm.Store.Users
use sgtm.Store.Posts
use sgtm.Db.Growth.{Grows-Preserves}
use sgtm.Store.Respects.{
  create_post_row-respects, create_user-respects, check_and_update_post-respects,
}
use sgtm.Service.{Service, Platform}
use sgtm.Pages.Moves.{Respects}
use sgtm.Worker.{processing_loop, track_migrations}
use sgtm.Worker.Respects.{processing_loop-respects}
use sgtm.Server.Sitemap.{SitemapUrl}
use sgtm.Server.Serve.{Packages, serve}
use sgtm.Server.Moves.{serve-respects}
use sgtm.Web.{Request, new_writer}

-- A call of the service that may change the database.
pub data Call : Type 0 where
  create_user : User → Call
  update_user : User → List UserSet → Call
  create_post : Post → Call
  update_post : Post → PostUpdates → Call
  check_and_update_post : Post → Call
  generate : Call

-- A request that is handled from its begin to its end, a round of the worker, or one call of a
-- handler that runs beside others.
pub data Event : Type 0 where
  request : Request → Event
  call : Call → Event
  round : Event

-- The service that the program makes: the store over gorm, and the generator of ids.
abbrev pub over_gorm : {S : Type 0} → Gorm S → Platform → Opts → Action S ℤ → Service S
over_gorm g platform opts draw = record {
  store = new_store g platform.decode_avatar;
  opts = opts;
  platform = platform;
  generate = draw;
}

unfoldable pub made_by : {S : Type 0} → Service S → Call → S → S
made_by svc (create_user u) s = (svc.store.create_user u s).1
made_by svc (update_user u sets) s = (svc.store.update_user u sets s).1
made_by svc (create_post p) s = (svc.store.create_post p s).1
made_by svc (update_post p updates) s = (svc.store.update_post p updates s).1
made_by svc (check_and_update_post p) s = (svc.store.check_and_update_post p s).1
made_by svc generate s = (svc.generate s).1

module _ {S : Type 0} {R : S → S → Type 0} (svc : Service S) (law : Respects R svc) where
  made_by-respects : (c : Call) (s : S) → R s (made_by svc c s)
  unfolding made_by
  made_by-respects (create_user u) s = law.create_user u s
  made_by-respects (update_user u sets) s = law.update_user u sets s
  made_by-respects (create_post p) s = law.create_post p s
  made_by-respects (update_post p updates) s = law.update_post p updates s
  made_by-respects (check_and_update_post p) s = law.check_and_update_post p s
  made_by-respects generate s = law.generate s

module _ {S : Type 0} (g : Gorm S) (svc : Service S) (lib : Packages S)
    (urls : List SitemapUrl) where
  -- An error or a panic of a round is not followed up here: what it left is the next database.
  unfoldable pub step : Event → S → S
  unfolding made_by
  step (request r) s = (serve svc lib urls r (record { db = s; writer = new_writer })).db
  step (call c) s = made_by svc c s
  step round s = (processing_loop g (track_migrations g) s).1

  unfoldable pub run : List Event → S → S
  unfolding step
  run [] s = s
  run (e ∷ es) s = run es (step e s)

module _ {S : Type 0} (t : Tables S) (g : Gorm S) (law : IsGorm t g) (keeps : KeepsKeys t g)
    (platform : Platform) (opts : Opts) (draw : Action S ℤ)
    (draws : (s : S) → SameRows t s (draw s).1) where
  store-Respects : Respects (Grows t) (over_gorm g platform opts draw)
  unfolding new_store Users.update_user Posts.create_post Posts.update_post
  store-Respects = record {
    create_user =
        create_user-respects (Grows-IsPreorder t) g (λ p h. tt) (Grows-Preserves t g law keeps);
    update_user = λ u sets s. Grows-SameKeys t (keeps.update_user u sets s);
    create_post = λ p s.
        create_post_row-respects (Grows-IsPreorder t) g (λ p h. tt) (Grows-Preserves t g law keeps)
          p s tt;
    update_post = λ p updates s. Grows-SameKeys t (keeps.update_post p updates s);
    check_and_update_post =
        check_and_update_post-respects (Grows-IsPreorder t) g (λ p h. tt)
          (Grows-Preserves t g law keeps);
    generate = λ s. Grows-SameRows t (draws s);
  }

  module _ (lib : Packages S) (urls : List SitemapUrl) where
    step-Grows :
        (e : Event) (s : S) → Grows t s (step g (over_gorm g platform opts draw) lib urls e s)
    unfolding step
    step-Grows (request r) s =
        serve-respects (over_gorm g platform opts draw) lib urls ⦃order = Grows-IsPreorder t⦄
          store-Respects r (record { db = s; writer = new_writer })
    step-Grows (call c) s = made_by-respects (over_gorm g platform opts draw) store-Respects c s
    step-Grows round s =
        processing_loop-respects (Grows-IsPreorder t) g
          (record {
            update_post = λ p u v. Grows-SameKeys t (keeps.update_post p u v);
            transaction = (Grows-Preserves t g law keeps).transaction;
          })
          s

    -- Over a database that meets `IsGorm` and `KeepsKeys`, and with a generator of ids that
    -- touches no row, whatever requests come, one after the other or side by side with their
    -- calls of the store in any order, and whatever rounds the worker makes between them: every
    -- user that was stored is still there with the same id, role, email, slug and Discord id,
    -- every new user has no role, so that no request makes an admin, and every post is still
    -- there with the same id, kind, visibility, author, target, content id and SoundCloud id.
    pub run-Grows :
        (es : List Event) (s : S) → Grows t s (run g (over_gorm g platform opts draw) lib urls es s)
    unfolding run
    run-Grows [] s = (Grows-IsPreorder t).same s
    run-Grows (e ∷ es) s = Grows-trans t (step-Grows e s) (run-Grows es _)
