-- ===== src/Server/Sitemap/Laws.antt =====
-- What the sitemap tells.
use sgtm.Common.{refl, ◌≤◌, ◌≡◌, sym, ◌⊎◌, inl, inr, List, [], ◌++◌, map, All, length, arith}
use sgtm.Pb.{User, Post}
use sgtm.Pb.PostHelpers.{AvatarDecoder}
use sgtm.Db.{then_result, Gorm, Error, Result, ok, err, panic, ok_inj}
use sgtm.Db.Laws.{Tables, IsGorm}
use sgtm.Store.{new_store}
use sgtm.Store.Users.{get_last_users_list}
use sgtm.Store.Posts.{get_post_list}
use sgtm.Store.Listing.{IsListed, get_post_list-IsListed, get_last_users_list-IsAnonymised}
use sgtm.Server.Sitemap.{SitemapUrl, special_urls, user_url, post_url, or_none, generate_sitemap}

-- The answer of a query, or nothing where it gives an error.
abbrev pub IsAnswer : {A : Type 0} → Result (List A) → List A → Type 0
IsAnswer x xs = (x ≡ ok xs) ⊎ ((e : Error) × (x ≡ err e) × (xs ≡ []))

or_none-IsAnswer :
    {A : Type 0} (x : Result (List A)) (xs : List A) → or_none x ≡ ok xs → IsAnswer x xs
unfolding or_none
or_none-IsAnswer (ok ys) xs h = inl h
or_none-IsAnswer (err e) xs h = inr (e, refl, sym (ok_inj h))
or_none-IsAnswer panic xs h = absurd (panics h)
  where
    panics : panic ≡ ok xs → ⊥
    panics e = cc

abbrev NoError : {A : Type 0} → Result A → Type 0
NoError (ok a) = Unit
NoError (err e) = ⊥
NoError panic = Unit

or_none-NoError : {A : Type 0} (x : Result (List A)) → NoError (or_none x)
unfolding or_none
or_none-NoError (ok xs) = tt
or_none-NoError (err e) = tt
or_none-NoError panic = tt

-- The entries of a sitemap: the special pages, the store's last users and its last public tracks.
pub record IsSitemap {S : Type 0} (g : Gorm S) (s : S) (urls : List SitemapUrl) : Type 0 where
  pub users : List User
  pub posts : List Post
  pub last_users : IsAnswer (get_last_users_list g 1000 s) users
  pub last_posts : IsAnswer (get_post_list g 100 s) posts
  pub few_users : length users ≤ 1000
  pub few_posts : length posts ≤ 100
  pub listed : All IsListed posts
  pub entries : urls ≡ special_urls ++ map user_url users ++ map post_url posts

-- The sitemap is made, unless one of the two queries panics.
abbrev pub IsMade : {S : Type 0} → Gorm S → S → Result (List SitemapUrl) → Type 0
IsMade g s (ok urls) = IsSitemap g s urls
IsMade g s (err e) = ⊥
IsMade g s panic = (get_last_users_list g 1000 s ≡ panic) ⊎ (get_post_list g 100 s ≡ panic)

or_none-panic : {A : Type 0} (x : Result (List A)) → or_none x ≡ panic → x ≡ panic
unfolding or_none
or_none-panic (ok xs) h = cc
or_none-panic (err e) h = cc
or_none-panic panic h = refl

then_result-IsMade :
    {S A : Type 0} (g : Gorm S) (s : S) (x : Result A) (f : A → Result (List SitemapUrl))
    → NoError x
    → (x ≡ panic → IsMade g s panic)
    → ((a : A) → x ≡ ok a → IsMade g s (f a))
    → IsMade g s (then_result x f)
then_result-IsMade g s (ok a) f h p k = k a refl
then_result-IsMade g s (err e) f h p k = h
then_result-IsMade g s panic f h p k = p refl

module _ {S : Type 0} (t : Tables S) (g : Gorm S) (law : IsGorm t g) where
  few : (s : S) (us : List User) → IsAnswer (get_last_users_list g 1000 s) us → length us ≤ 1000
  few s us (inl h) = (get_last_users_list-IsAnonymised t g law 1000 s us h).1
  few s us (inr (x, failed, e)) = rw e (omega arith)

  few-IsListed :
      (s : S) (ps : List Post)
      → IsAnswer (get_post_list g 100 s) ps
      → All IsListed ps × (length ps ≤ 100)
  few-IsListed s ps (inl h) = get_post_list-IsListed t g law 100 s ps h
  few-IsListed s ps (inr (x, failed, e)) = rw e (tt, omega arith)

  -- Over a database that meets `IsGorm`, unless the query for the users or the one for the posts
  -- panics, the sitemap is made, and what it tells is the two special pages, then the users that
  -- the store lists for a limit of 1000, then the posts that it lists for a limit of 100, or none of
  -- those whose query gives an error; the users are 1000 at most, the posts 100 at most and public
  -- tracks all.
  pub generate_sitemap-IsMade :
      (decode : AvatarDecoder) (s : S) → IsMade g s (generate_sitemap (new_store g decode) s)
  unfolding generate_sitemap new_store
  generate_sitemap-IsMade decode s =
      then_result-IsMade g s (or_none (get_last_users_list g 1000 s)) _ (or_none-NoError _)
        (λ e. inl (or_none-panic _ e))
        λ us found_users.
          then_result-IsMade g s (or_none (get_post_list g 100 s)) _ (or_none-NoError _)
            (λ e. inr (or_none-panic _ e))
            λ ps found_posts.
              let listed = few-IsListed s ps (or_none-IsAnswer _ ps found_posts) in
              record {
                users = us;
                posts = ps;
                last_users = or_none-IsAnswer _ us found_users;
                last_posts = or_none-IsAnswer _ ps found_posts;
                few_users = few s us (or_none-IsAnswer _ us found_users);
                few_posts = listed.1;
                listed = listed.0;
                entries = refl;
              }
