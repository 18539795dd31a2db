-- ===== src/Store/Listing.antt =====
-- What the store's lists contain: published tracks, without what must not be shown.
use mathlib.Core.Path.{subst}
use sgtm.Common.{ℕ, suc, ◌≤◌, ◌≡◌, ◌≢◌, refl, true, List, [], ◌∷◌, map, arith, All, length, ap}
use sgtm.Common.Int.{ℤ, pos, int_eq_iff}
use sgtm.Pb.{User, Post, track, comment, public, eq_of_kind_eq, eq_of_visibility_eq}
use sgtm.Pb.PostHelpers
use sgtm.Pb.UserHelpers
use sgtm.Db.{Gorm, ok, then_result-eq-ok, conds_hold}
use sgtm.Db.Laws.{Tables, IsGorm}
use sgtm.Store.Posts.{get_post_list, get_post_comments, list_query, comments_query}
use sgtm.Store.Users.{get_last_users_list}

pub record IsListed (p : Post) : Type 0 where
  pub kind : p.kind ≡ track
  pub visibility : p.visibility ≡ public
  pub metadata : p.provider_metadata ≡ ""
  pub download : p.download_url ≡ ""

pub record IsPublicComment (post_id : ℤ) (p : Post) : Type 0 where
  pub target : p.target_post_id ≡ post_id
  pub kind : p.kind ≡ comment
  pub visibility : p.visibility ≡ public

-- A user as others may see it: no mail address and no Discord account.
pub record IsAnonymised (u : User) : Type 0 where
  pub email : u.email ≡ ""
  pub discord_username : u.discord_username ≡ ""
  pub discord_id : u.discord_id ≡ ""

pub length-map {ℓ κ} :
    {A : Type ℓ} {B : Type κ} (f : A → B) (xs : List A) → length (map f xs) ≡ length xs
length-map f [] = refl
length-map f (x ∷ xs) = ap suc (length-map f xs)

filter-IsListed :
    (limit : ℕ) (p : Post)
    → conds_hold (list_query limit).conds p ≡ true
    → IsListed (PostHelpers.filter p)
unfolding PostHelpers.filter
filter-IsListed limit p h = record {
  kind = eq_of_kind_eq p.kind track (ground arith);
  visibility = eq_of_visibility_eq p.visibility public (ground arith);
  metadata = refl;
  download = refl;
}

map-filter-IsListed :
    (limit : ℕ) (ps : List Post)
    → All (λ p. conds_hold (list_query limit).conds p ≡ true) ps
    → All IsListed (map PostHelpers.filter ps)
map-filter-IsListed limit [] h = tt
map-filter-IsListed limit (p ∷ ps) (h, hs) =
    (filter-IsListed limit p h, map-filter-IsListed limit ps hs)

map-filter-IsAnonymised : (us : List User) → All IsAnonymised (map UserHelpers.filter us)
unfolding UserHelpers.filter
map-filter-IsAnonymised [] = tt
map-filter-IsAnonymised (u ∷ us) = (
  record { email = refl; discord_username = refl; discord_id = refl },
  map-filter-IsAnonymised us,
)

comment-IsPublicComment :
    (post_id : ℤ) (p : Post)
    → post_id ≢ pos 0
    → conds_hold (comments_query post_id).conds p ≡ true
    → IsPublicComment post_id p
comment-IsPublicComment post_id p nonzero h = record {
  target = ground (arith, int_eq_iff post_id (pos 0), int_eq_iff p.target_post_id post_id);
  kind = eq_of_kind_eq p.kind comment (ground arith);
  visibility = eq_of_visibility_eq p.visibility public (ground arith);
}

All-IsPublicComment :
    (post_id : ℤ) (ps : List Post)
    → post_id ≢ pos 0
    → All (λ p. conds_hold (comments_query post_id).conds p ≡ true) ps
    → All (IsPublicComment post_id) ps
All-IsPublicComment post_id [] nonzero h = tt
All-IsPublicComment post_id (p ∷ ps) nonzero (h, hs) =
    (comment-IsPublicComment post_id p nonzero h, All-IsPublicComment post_id ps nonzero hs)

module _ {S : Type 0} (t : Tables S) (g : Gorm S) (law : IsGorm t g) where
  -- Over a database that meets `IsGorm`, a list of posts that is found holds at most `limit` of
  -- them, each a public track without its metadata and download link.
  pub get_post_list-IsListed :
      (limit : ℕ) (s : S) (ps : List Post)
      → get_post_list g limit s ≡ ok ps
      → All IsListed ps × (length ps ≤ limit)
  unfolding get_post_list
  get_post_list-IsListed limit s ps h =
      let (posts, found, e) = then_result-eq-ok (g.find_posts (list_query limit) s) _ h in
      let same : map PostHelpers.filter posts ≡ ps = cc in
      let listed =
        map-filter-IsListed limit posts (law.find_posts_hold (list_query limit) s posts found) in
      let short = law.find_posts_limit (list_query limit) limit s posts refl found in
      subst (λ qs. All IsListed qs × (length qs ≤ limit)) same
        (listed, rw (length-map PostHelpers.filter posts) short)

  -- Over a database that meets `IsGorm`, a list of last users that is found holds at most `limit`
  -- of them, each without mail address and Discord account.
  pub get_last_users_list-IsAnonymised :
      (limit : ℕ) (s : S) (us : List User)
      → get_last_users_list g limit s ≡ ok us
      → All IsAnonymised us × (length us ≤ limit)
  unfolding get_last_users_list
  get_last_users_list-IsAnonymised limit s us h =
      let (users, found, e) = then_result-eq-ok (g.find_last_users limit s) _ h in
      let same : map UserHelpers.filter users ≡ us = cc in
      let short = law.find_last_users_limit limit s users found in
      subst (λ vs. All IsAnonymised vs × (length vs ≤ limit)) same
        (map-filter-IsAnonymised users, rw (length-map UserHelpers.filter users) short)

  -- Over a database that meets `IsGorm`, the comments that are found for a post whose id is not 0
  -- are all public, of the comment kind and about that post.
  pub get_post_comments-IsPublicComment :
      (post_id : ℤ) (s : S) (ps : List Post)
      → post_id ≢ pos 0
      → get_post_comments g post_id s ≡ ok ps
      → All (IsPublicComment post_id) ps
  unfolding get_post_comments
  get_post_comments-IsPublicComment post_id s ps nonzero h =
      All-IsPublicComment post_id ps nonzero (law.find_posts_hold (comments_query post_id) s ps h)
