-- ===== src/Server/Covers.antt =====
-- A relation that the calls of the store behind each change of a request respect, the request
-- respects.
use mathlib.Core.Path.{subst}
use sgtm.Common.{◌≡◌, refl, sym, ap, inl, inr, List}
use sgtm.Common.Preorder.{IsPreorder}
use sgtm.Pb.{User, Post}
use sgtm.Db.{PostUpdates, UserSet}
use sgtm.Db.Rows.{IsPlain}
use sgtm.Service.{Service, DiscordUser}
use sgtm.Pages.Login.{profile_of}
use sgtm.Pages.Access.{MayEdit}
use sgtm.Pages.PostPage.{comment_of}
use sgtm.Pages.NewPost.Laws.{IsNewTrack}
use sgtm.Pages.Maintenance.Laws.{Timed, Renewed}
use sgtm.Pages.Login.Laws.{LoggedIn}
use sgtm.Server.Routes.{Endpoint}
use sgtm.Server.Permits.{
  Permits, nothing, view_home_page, view_open_page, view_profile_page, view_track, comment_on_track,
  edit_track, change_settings, add_track, maintain_track, log_in,
}
use sgtm.Web.{Request}

module _ {S : Type 0} (R : S → S → Type 0) (svc : Service S) (r : Request) (s : S) where
  -- The calls, with what is known where they are made.
  pub record Covers : Type 0 where
    pub event : (p : Post) → IsPlain p → R s (svc.store.create_post p s).1
    pub track : (u : User) (p : Post) → IsNewTrack svc r s u p → R s (svc.store.create_post p s).1
    pub edit :
        (u : User) (p q : Post)
        → MayEdit svc r s u p
        → q.id ≡ p.id
        → (updates : PostUpdates) → R s (svc.store.update_post q updates s).1
    pub settings : (u : User) (sets : List UserSet) → R s (svc.store.update_user u sets s).1
    pub renew : (p : Post) (v : S) → R v (svc.store.check_and_update_post p v).1
    pub login : (u : User) → R s (svc.store.create_user u s).1
    pub draw : (v : S) → R v (svc.generate v).1

  module _ (order : IsPreorder R) (covers : Covers) where
    made_by : (s' v : S) → R s v → s' ≡ v → R s s'
    made_by s' v h made = subst (R s) (sym made) h

    timed : (u : User) (p q : Post) (v : S) → MayEdit svc r s u p → Timed svc r s p q v → R s v
    timed u p q v may (inl (same, made)) = made_by v s (order.same s) made
    timed u p q v may (inr (path, bpm, asked, extracted, same, made)) =
        made_by v _ (covers.edit u p q may (ap (λ (x : Post). x.id) same) _) made

    renewed : (q : Post) (v s' : S) → R s v → Renewed svc r s q v s' → R s s'
    renewed q v s' h (inl same) = made_by s' v h same
    renewed q v s' h (inr (asked, made)) =
        made_by s' _ (order.trans s v _ h (covers.renew q v)) made

    logged_in : (s' : S) (u : DiscordUser) → LoggedIn svc r s u s' → R s s'
    logged_in s' u (inl made) = made_by s' _ (covers.login (profile_of svc u)) made
    logged_in s' u (inr made) =
        made_by s' _ (order.trans s _ _ (covers.login (profile_of svc u)) (covers.draw _)) made

    pub Permits-respects : (s' : S) (e : Endpoint) → Permits svc r s s' e → R s s'
    unfolding comment_of
    Permits-respects s' e (nothing same) = made_by s' s (order.same s) same
    Permits-respects s' e (view_home_page p view made) =
        made_by s' _ (covers.event p view.plain) made
    Permits-respects s' e (view_open_page p view made) =
        made_by s' _ (covers.event p view.plain) made
    Permits-respects s' e (view_profile_page p view made) =
        made_by s' _ (covers.event p view.plain) made
    Permits-respects s' e (view_track d p visitor found made) =
        made_by s' _ (covers.event _ (refl, refl)) made
    Permits-respects s' e (comment_on_track d p visitor found comment made) =
        made_by s' _ (covers.event _ (refl, refl)) made
    Permits-respects s' e (edit_track p edit made) =
        made_by s' _ (covers.edit edit.editor p p edit.may refl _) made
    Permits-respects s' e (change_settings u change made) = made_by s' _ (covers.settings u _) made
    Permits-respects s' e (add_track u p identity track made) =
        made_by s' _ (covers.track u p track) made
    Permits-respects s' e (maintain_track p h (q, v, t, made)) =
        renewed q v s' (timed h.editor p q v h.may t) made
    Permits-respects s' e (log_in h made) = logged_in s' h.user made
