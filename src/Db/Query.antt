-- ===== src/Db/Query.antt =====
-- The conditions, orders and updates that the source builds, and what they mean for one row.
use sgtm.Common.{ℕ, Bool, true, not, ◌&&◌, ◌||◌, String, Option, List, [], ◌∷◌, any, str_eq, ◌==◌}
use sgtm.Common.Int.{ℤ, pos, int_eq, is_zero, ltb_ℤ}
use sgtm.Pb.{Kind, Visibility, User, Post, kind_number, visibility_number, kind_eq, visibility_eq}

-- A field named in the literal of `Where(sgtmpb.Post{…})`.
pub data PostField : Type 0 where
  id : ℤ → PostField
  author_id : ℤ → PostField
  kind : Kind → PostField
  visibility : Visibility → PostField
  slug : String → PostField
  ipfs_cid : String → PostField
  soundcloud_id : ℕ → PostField
  target_post_id : ℤ → PostField

pub data PostCond : Type 0 where
  fields : List PostField → PostCond
  -- "NOT (author_id == ? AND kind IN (?))"
  not_author_with_kinds : ℤ → List Kind → PostCond
  -- "kind NOT IN (?)"
  kind_not_in : List Kind → PostCond
  -- "processing_error IS NULL OR processing_error == ''"
  no_processing_error : PostCond
  -- "processing_version IS NULL OR processing_version < ?"
  processing_version_below : ℕ → PostCond

-- gorm documents that a zero field of a struct condition is left out of the query.
abbrev pub field_holds : PostField → Post → Bool
field_holds (PostField.id v) p = is_zero v || int_eq p.id v
field_holds (PostField.author_id v) p = is_zero v || int_eq p.author_id v
field_holds (PostField.kind v) p = kind_number v == 0 || kind_eq p.kind v
field_holds (PostField.visibility v) p = visibility_number v == 0 || visibility_eq p.visibility v
field_holds (PostField.slug v) p = str_eq v "" || str_eq p.slug v
field_holds (PostField.ipfs_cid v) p = str_eq v "" || str_eq p.ipfs_cid v
field_holds (PostField.soundcloud_id v) p = v == 0 || p.soundcloud_id == v
field_holds (PostField.target_post_id v) p = is_zero v || int_eq p.target_post_id v

abbrev pub fields_hold : List PostField → Post → Bool
fields_hold [] p = true
fields_hold (f ∷ fs) p = field_holds f p && fields_hold fs p

abbrev pub cond_holds : PostCond → Post → Bool
cond_holds (fields fs) p = fields_hold fs p
cond_holds (not_author_with_kinds a kinds) p =
    not (int_eq p.author_id a && any (kind_eq p.kind) kinds)
cond_holds (kind_not_in kinds) p = not (any (kind_eq p.kind) kinds)
cond_holds no_processing_error p = str_eq p.processing_error ""
cond_holds (processing_version_below n) p = ltb_ℤ p.processing_version (pos n)

abbrev pub conds_hold : List PostCond → Post → Bool
conds_hold [] p = true
conds_hold (c ∷ cs) p = cond_holds c p && conds_hold cs p

pub data PostOrder : Type 0 where
  unordered sort_date_desc created_at_desc : PostOrder

pub record PostQuery : Type 0 where
  pub conds : List PostCond
  pub order : PostOrder
  pub limit : Option ℕ

pub data UserCond : Type 0 where
  -- "id = ?"
  id_is : ℤ → UserCond
  -- "LOWER(slug) = ?"
  lower_slug_is : String → UserCond
  -- `Where(&dbUser)`, all fields of a struct
  like : User → UserCond

abbrev pub field_like : String → String → Bool
field_like v w = str_eq v "" || str_eq w v

abbrev pub int_like : ℤ → ℤ → Bool
int_like v w = is_zero v || int_eq w v

abbrev pub user_likes : User → User → List Bool
user_likes q u =
    int_like q.id u.id
    ∷ int_like q.created_at u.created_at
    ∷ int_like q.updated_at u.updated_at
    ∷ int_like q.deleted_at u.deleted_at
    ∷ int_like q.processing_version u.processing_version
    ∷ field_like q.email u.email
    ∷ field_like q.slug u.slug
    ∷ field_like q.firstname u.firstname
    ∷ field_like q.lastname u.lastname
    ∷ field_like q.locale u.locale
    ∷ field_like q.avatar u.avatar
    ∷ field_like q.discord_id u.discord_id
    ∷ field_like q.discord_username u.discord_username
    ∷ field_like q.headline u.headline
    ∷ field_like q.bio u.bio
    ∷ field_like q.inspirations u.inspirations
    ∷ field_like q.gears u.gears
    ∷ field_like q.genres u.genres
    ∷ field_like q.location u.location
    ∷ field_like q.twitter_username u.twitter_username
    ∷ field_like q.homepage u.homepage
    ∷ field_like q.other_links u.other_links
    ∷ field_like q.goals u.goals
    ∷ field_like q.soundcloud_username u.soundcloud_username
    ∷ field_like q.role u.role
    ∷ field_like q.processing_error u.processing_error
    ∷ []

abbrev pub all_hold : List Bool → Bool
all_hold [] = true
all_hold (b ∷ bs) = b && all_hold bs

abbrev pub user_like : User → User → Bool
user_like q u = all_hold (user_likes q u)

-- A column and its new value.
pub data PostSet : Type 0 where
  title body lyrics tags genre provider_title processing_error : String → PostSet
  processing_version : ℤ → PostSet
  bpm : ℕ → PostSet

-- `Updates` takes a map, or a struct of which it writes the fields that are not zero.
pub data PostUpdates : Type 0 where
  by_map by_struct : List PostSet → PostUpdates

-- A user's column and its new value, in a map.
pub data UserSet : Type 0 where
  firstname lastname homepage bio headline inspirations gears goals genres other_links
        twitter_username soundcloud_username :
      String → UserSet
