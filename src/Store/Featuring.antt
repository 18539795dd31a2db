-- ===== src/Store/Featuring.antt =====
-- `CheckAndUpdatePost`: what becomes of the names that a post features.
use mathlib.Core.Path.{subst}
use sgtm.Common.{sym, ◌≡◌, String, none, List, ◌∷◌, arith, trim_space}
use sgtm.Pb.{Post}
use sgtm.Db.{Gorm, IsFailure, ok, panic}
use sgtm.Db.Laws.{Tables, IsGorm, SameRows}
use sgtm.Store.Users.{get_user_by_slug}
use sgtm.Store.Relationships.{
  append_match, append_matches, rebuild, relationship_text, check_and_update_post,
}

module _ {S : Type 0} (g : Gorm S) where
  -- The state behind the clearing of the post's relationships, if it succeeds.
  abbrev pub Cleared : Post → S → S → Type 0
  Cleared p s v =
      (u : S) × (g.clear_relationships_as_source p s ≡ (ok tt, u))
      × (g.clear_relationships_as_target p u ≡ (ok tt, v))

  append_matches_unknown :
      (p : Post) (name : String) (names : List String) (s v : S)
      → get_user_by_slug g (g.to_lower (trim_space name)) s ≡ ok none
      → (append_matches g s p (name ∷ names) v).0 ≡ panic
  unfolding append_matches append_match
  append_matches_unknown p name names s v missing = ground arith

  rebuild_unknown :
      (p : Post) (name : String) (names : List String) (s v : S)
      → Cleared p s v
      → g.featured_names (relationship_text p) ≡ name ∷ names
      → get_user_by_slug g (g.to_lower (trim_space name)) s ≡ ok none
      → (rebuild g s p s).0 ≡ panic
  unfolding rebuild
  rebuild_unknown p name names s v (u, source, target) named missing =
      ground (arith, append_matches_unknown p name names s v missing)

module _ {S : Type 0} (t : Tables S) (g : Gorm S) (law : IsGorm t g) where
  -- Over a database that meets `IsGorm`, if the post's relationships can be cleared and the first
  -- artist that it features is no user, then the update panics, and the transaction leaves the
  -- rows as they were: the relationships of the post are not renewed.
  pub check_and_update_post_unknown :
      (p : Post) (name : String) (names : List String) (s v : S)
      → Cleared g p s v
      → g.featured_names (relationship_text p) ≡ name ∷ names
      → get_user_by_slug g (g.to_lower (trim_space name)) s ≡ ok none
      → ((check_and_update_post g p s).0 ≡ panic) × SameRows t s (check_and_update_post g p s).1
  unfolding check_and_update_post
  check_and_update_post_unknown p name names s v cleared named missing =
      let fails =
        law.transaction_panic (Unit {0}) (rebuild g s p) s
          (rebuild_unknown g p name names s v cleared named missing) in
      (
        fails,
        law.transaction_rollback (Unit {0}) (rebuild g s p) s (subst IsFailure (sym fails) tt),
      )
