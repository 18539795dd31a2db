-- ===== src/Store/Posts.antt =====
-- pkg/sgtmstore/store.go, the methods on posts.
use sgtm.Common.{ℕ, String, none, some, List, [], ◌∷◌, map}
use sgtm.Common.Int.{ℤ, pos, ltb_ℤ}
use sgtm.Common.Decimal.{parse_int}
use sgtm.Common.{if◌then◌else◌}
use sgtm.Pb.{Post, track, comment, view_home, view_open, link_discord_account, public}
use sgtm.Pb.PostHelpers
use sgtm.Pb.PostHelpers.{AvatarDecoder}
use sgtm.Db.{
  Gorm, Result, ok, Action, then_result, fields, not_author_with_kinds, kind_not_in, unordered,
  sort_date_desc, created_at_desc, PostField, PostCond, PostQuery, PostUpdates,
}
use sgtm.Store.Create.{create_post_row}

abbrev pub list_query : ℕ → PostQuery
list_query limit = record {
  conds = fields (PostField.visibility public ∷ PostField.kind track ∷ []) ∷ [];
  order = sort_date_desc;
  limit = some limit;
}

abbrev pub activity_query : ℤ → PostQuery
activity_query moul_id = record {
  conds =
      not_author_with_kinds moul_id (view_home ∷ view_open ∷ [])
      ∷ kind_not_in (link_discord_account ∷ [])
      ∷ [];
  order = created_at_desc;
  limit = some 42;
}

-- The struct condition of `GetPostBySlugOrID`.
unfoldable pub slug_or_id_conds : String → List PostCond
slug_or_id_conds post_slug = elim (parse_int post_slug) [
  | some i ↦ fields (PostField.id i ∷ PostField.kind track ∷ []) ∷ []
  | none ↦ fields (PostField.slug post_slug ∷ PostField.kind track ∷ []) ∷ []
]

abbrev pub comments_query : ℤ → PostQuery
comments_query post_id = record {
  conds =
      fields (
        PostField.kind comment
        ∷ PostField.target_post_id post_id
        ∷ PostField.visibility public
        ∷ [])
      ∷ [];
  order = unordered;
  limit = none;
}

abbrev pub author_conds : ℤ → List PostCond
author_conds user_id =
    fields (PostField.author_id user_id ∷ PostField.kind track ∷ PostField.visibility public ∷ [])
    ∷ []

abbrev pub author_query : ℤ → ℕ → PostQuery
author_query user_id limit = record {
  conds = author_conds user_id;
  order = sort_date_desc;
  limit = some limit;
}

module _ {S : Type 0} (g : Gorm S) where
  unfoldable pub get_post_list : ℕ → S → Result (List Post)
  get_post_list limit s =
      then_result (g.find_posts (list_query limit) s) (λ posts. ok (map PostHelpers.filter posts))

  unfoldable pub get_track_by_cid : String → S → Result Post
  get_track_by_cid cid s = g.first_post (fields (PostField.ipfs_cid cid ∷ []) ∷ []) s

  unfoldable pub get_track_by_scid : ℕ → S → Result Post
  get_track_by_scid scid s = g.first_post (fields (PostField.soundcloud_id scid ∷ []) ∷ []) s

  unfoldable pub get_last_activities : ℤ → S → Result (List Post)
  get_last_activities moul_id s = g.find_posts (activity_query moul_id) s

  unfoldable pub create_post : Post → Action S Post
  create_post p = create_post_row g p

  unfoldable pub get_post_by_slug_or_id : String → S → Result Post
  unfolding slug_or_id_conds
  get_post_by_slug_or_id post_slug s = g.first_post (slug_or_id_conds post_slug) s

  unfoldable pub get_post_comments : ℤ → S → Result (List Post)
  get_post_comments post_id s = g.find_posts (comments_query post_id) s

  unfoldable pub update_post : Post → PostUpdates → Action S (Unit {0})
  update_post p updates = g.update_post p updates

  unfoldable pub get_post_list_by_user_id : AvatarDecoder → ℤ → ℕ → S → Result (List Post × ℤ)
  get_post_list_by_user_id decode user_id limit s =
      then_result (g.count_posts (author_conds user_id) s) λ tracks.
        if ltb_ℤ (pos 0) tracks
        then then_result (g.find_posts (author_query user_id limit) s)
            (λ posts. ok (map (PostHelpers.apply_defaults decode) posts, tracks))
        else ok ([], tracks)
