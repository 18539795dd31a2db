-- ===== src/Store.antt =====
-- pkg/sgtmstore/store.go: the interface `Store`, which the service is given, and `New`, which makes
-- one of a database.
pub mod Create
pub mod Users
pub mod Posts
pub mod Counts
pub mod Relationships
pub mod Listing
pub mod Lookup
pub mod Login
pub mod Featuring
pub mod Respects
use sgtm.Common.{ℕ, String, Option, List}
use sgtm.Common.Int.{ℤ}
use sgtm.Pb.{User, Post, UploadsByWeek, PostByKind}
use sgtm.Pb.PostHelpers.{AvatarDecoder}
use sgtm.Db.{Result, Action, PostUpdates, UserSet, Gorm}

pub record Store (S : Type 0) : Type 0 where
  pub get_user_by_id : ℤ → S → Result User
  pub get_last_users_list : ℕ → S → Result (List User)
  pub create_user : User → Action S User
  pub get_user_by_slug : String → S → Result (Option User)
  pub update_user : User → List UserSet → Action S (Unit {0})
  pub get_user_recent_post : ℤ → S → Result User
  pub get_post_list : ℕ → S → Result (List Post)
  pub get_track_by_cid : String → S → Result Post
  pub get_track_by_scid : ℕ → S → Result Post
  pub get_last_activities : ℤ → S → Result (List Post)
  pub create_post : Post → Action S Post
  pub get_post_by_slug_or_id : String → S → Result Post
  pub get_post_comments : ℤ → S → Result (List Post)
  pub update_post : Post → PostUpdates → Action S (Unit {0})
  pub get_post_list_by_user_id : ℤ → ℕ → S → Result (List Post × ℤ)
  pub check_and_update_post : Post → Action S (Unit {0})
  pub get_uploads_by_week : S → Result (List UploadsByWeek)
  pub get_number_of_draft_posts : S → Result ℤ
  pub get_number_of_users : S → Result ℤ
  pub get_number_of_posts_by_kind : S → Result (List PostByKind)
  pub get_total_duration : S → Result ℤ
  pub get_calendar_heat_map : ℤ → S → Result (List ℤ)

-- `New`; `DB()` hands out `g` itself.
unfoldable pub new_store : {S : Type 0} → Gorm S → AvatarDecoder → Store S
new_store g decode = record {
  get_user_by_id = Users.get_user_by_id g;
  get_last_users_list = Users.get_last_users_list g;
  create_user = Users.create_user g;
  get_user_by_slug = Users.get_user_by_slug g;
  update_user = Users.update_user g;
  get_user_recent_post = Users.get_user_recent_post g;
  get_post_list = Posts.get_post_list g;
  get_track_by_cid = Posts.get_track_by_cid g;
  get_track_by_scid = Posts.get_track_by_scid g;
  get_last_activities = Posts.get_last_activities g;
  create_post = Posts.create_post g;
  get_post_by_slug_or_id = Posts.get_post_by_slug_or_id g;
  get_post_comments = Posts.get_post_comments g;
  update_post = Posts.update_post g;
  get_post_list_by_user_id = Posts.get_post_list_by_user_id g decode;
  check_and_update_post = Relationships.check_and_update_post g;
  get_uploads_by_week = Counts.get_uploads_by_week g;
  get_number_of_draft_posts = Counts.get_number_of_draft_posts g;
  get_number_of_users = Counts.get_number_of_users g;
  get_number_of_posts_by_kind = Counts.get_number_of_posts_by_kind g;
  get_total_duration = Counts.get_total_duration g;
  get_calendar_heat_map = Counts.get_calendar_heat_map g;
}
