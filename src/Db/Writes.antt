-- ===== src/Db/Writes.antt =====
-- What an update of a post writes, and what the worker relies on of it.
use sgtm.Common.{◌≡◌, ◌⊎◌, true, none, List, [], ◌∷◌, map, All, if◌then◌else◌}
use sgtm.Common.Int.{ℤ, int_eq}
use sgtm.Pb.{Post}
use sgtm.Db.Outcome.{IsFailure, ok}
use sgtm.Db.Query.{PostQuery, PostSet, PostUpdates, by_map, by_struct, conds_hold}
use sgtm.Db.Driver.{Gorm}
use sgtm.Db.Laws.{Tables, SameRows}

abbrev pub apply_set : PostSet → Post → Post
apply_set (PostSet.title v) p = record p { title = v }
apply_set (PostSet.body v) p = record p { body = v }
apply_set (PostSet.lyrics v) p = record p { lyrics = v }
apply_set (PostSet.tags v) p = record p { tags = v }
apply_set (PostSet.genre v) p = record p { genre = v }
apply_set (PostSet.provider_title v) p = record p { provider_title = v }
apply_set (PostSet.processing_error v) p = record p { processing_error = v }
apply_set (PostSet.processing_version v) p = record p { processing_version = v }
apply_set (PostSet.bpm v) p = record p { bpm = v }

unfoldable pub apply_sets : List PostSet → Post → Post
apply_sets [] p = p
apply_sets (c ∷ cs) p = apply_sets cs (apply_set c p)

-- A row that takes new values at some time, which is written as well.
abbrev pub written : List PostSet → ℤ → Post → Post
written sets now row = record (apply_sets sets row) { updated_at = now }

abbrev pub sets_of : PostUpdates → List PostSet
sets_of (by_map sets) = sets
sets_of (by_struct sets) = sets

-- A row is among some posts.
abbrev pub HasRow : ℤ → List Post → Type 0
HasRow i [] = ⊥
HasRow i (p ∷ ps) = (p.id ≡ i) ⊎ HasRow i ps

module _ {S : Type 0} (t : Tables S) where
  -- What the worker relies on: a search without a limit gives every row that meets its conditions;
  -- an update by a map writes the named columns of the rows with the post's id, and the time of
  -- the update into their column `updated_at`, or fails and changes no row.
  pub record WritesRows (g : Gorm S) : Type 1 where
    pub find_posts_all :
        (q : PostQuery) (s : S) (ps : List Post)
        → q.limit ≡ none
        → g.find_posts q s ≡ ok ps
        → All (λ row. conds_hold q.conds row ≡ true → HasRow row.id ps) (t.posts s)
    pub update_post_ok :
        (p : Post) (sets : List PostSet) (s : S)
        → (g.update_post p (by_map sets) s).0 ≡ ok tt
        → (now : ℤ) × (t.posts (g.update_post p (by_map sets) s).1
            ≡ map (λ row. if int_eq row.id p.id then written sets now row else row) (t.posts s))
    pub update_post_fails :
        (p : Post) (updates : PostUpdates) (s : S)
        → IsFailure (g.update_post p updates s).0
        → SameRows t s (g.update_post p updates s).1
