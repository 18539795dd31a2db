-- ===== src/Db/Driver.antt =====
-- The calls of gorm and of the snowflake node that the store makes, as a parameter.
use sgtm.Common.{ℕ, String, List}
use sgtm.Common.Int.{ℤ}
use sgtm.Pb.{User, Post, Relationship, UploadsByWeek, PostByKind}
use sgtm.Db.Outcome.{Result, Action}
use sgtm.Db.Query.{PostCond, PostQuery, PostUpdates, UserCond, UserSet}

-- `S` is the state of the database and of the snowflake node. `insert_…` is gorm's own create
-- callback, behind the callback that the program registers before it.
pub record Gorm (S : Type 0) : Type 1 where
  pub first_user : UserCond → S → Result User
  pub first_user_with_recent_posts : ℤ → S → Result User
  pub find_last_users : ℕ → S → Result (List User)
  pub count_users : S → Result ℤ
  pub insert_user : User → Action S User
  pub update_user : User → List UserSet → Action S (Unit {0})
  pub first_post : List PostCond → S → Result Post
  pub find_posts : PostQuery → S → Result (List Post)
  pub count_posts : List PostCond → S → Result ℤ
  -- `sort_date/1000000000` of the rows
  pub pluck_sort_seconds : List PostCond → S → Result (List ℤ)
  -- `count(*)` grouped by the weekday of `sort_date`, and by `kind`
  pub count_by_weekday : List PostCond → S → Result (List UploadsByWeek)
  pub count_by_kind : S → Result (List PostByKind)
  -- `sum(duration)`
  pub sum_duration : List PostCond → S → Result ℤ
  pub insert_post : Post → Action S Post
  pub update_post : Post → PostUpdates → Action S (Unit {0})
  -- `Association("RelationshipsAsSource")` and `…AsTarget` of a post
  pub clear_relationships_as_source : Post → Action S (Unit {0})
  pub clear_relationships_as_target : Post → Action S (Unit {0})
  pub append_relationship_as_source : Post → Relationship → Action S (Unit {0})
  pub transaction : (A : Type 0) → Action S A → Action S A
  -- `sfn.Generate().Int64()`
  pub generate : S → ℤ × S
  -- Go's `strings.ToLower`, `slug.Make`, and the last group of each match of `featRegex`
  pub to_lower : String → String
  pub make_slug : String → String
  pub featured_names : String → List String
