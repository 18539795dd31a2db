-- ===== src/Server/Sitemap.antt =====
-- `generateSitemap`, which runs once, when the server is set up.
pub mod Laws
use sgtm.Common.{ℕ, String, Option, none, some, List, [], ◌∷◌, ◌++◌, map}
use sgtm.Pb.{User, Post}
use sgtm.Pb.PostHelpers
use sgtm.Pb.UserHelpers
use sgtm.Db.{Result, ok, err, panic, then_result}
use sgtm.Store.{Store}

-- `stm.URL`
pub record SitemapUrl : Type 0 where
  pub loc : String
  pub changefreq : String
  pub priority : Option ℕ

abbrev plain_url : String → String → SitemapUrl
plain_url loc changefreq = record { loc = loc; changefreq = changefreq; priority = none }

unfoldable pub special_urls : List SitemapUrl
special_urls =
    record { loc = "/"; changefreq = "daily"; priority = some 1 } ∷ plain_url "/open" "daily" ∷ []

unfoldable pub user_url : User → SitemapUrl
user_url user = plain_url (UserHelpers.canonical_url (some user)) "weekly"

unfoldable pub post_url : Post → SitemapUrl
post_url post = plain_url (PostHelpers.canonical_url (some post)) "weekly"

-- An error is logged, and its entries are left out.
unfoldable pub or_none : {A : Type 0} → Result (List A) → Result (List A)
or_none (ok xs) = ok xs
or_none (err e) = ok []
or_none panic = panic

unfoldable pub generate_sitemap : {S : Type 0} → Store S → S → Result (List SitemapUrl)
unfolding special_urls user_url post_url or_none
generate_sitemap store s = then_result (or_none (store.get_last_users_list 1000 s)) λ users.
    then_result (or_none (store.get_post_list 100 s))
      λ posts. ok (special_urls ++ map user_url users ++ map post_url posts)
