-- ===== src/Store/Users.antt =====
-- pkg/sgtmstore/store.go, the methods on users.
use sgtm.Common.{ℕ, String, Option, none, some, List, map, ◌<>◌}
use sgtm.Common.Int.{ℤ}
use sgtm.Pb.{User, zero_user, zero_post, login, register, link_discord_account}
use sgtm.Pb.UserHelpers.{filter}
use sgtm.Db.{
  Gorm, Result, ok, err, panic, record_not_found, failed, Action, pure, raise, then_result, ◌>>=◌,
  ◌>>◌, id_is, lower_slug_is, like, UserSet,
}
use sgtm.Store.Create.{create_user_row, create_post_row}

module _ {S : Type 0} (g : Gorm S) where
  unfoldable pub get_user_by_id : ℤ → S → Result User
  get_user_by_id user_id s = g.first_user (id_is user_id) s

  unfoldable pub get_last_users_list : ℕ → S → Result (List User)
  get_last_users_list limit s =
      then_result (g.find_last_users limit s) (λ users. ok (map filter users))

  -- Every error is taken for a missing user: the result is nil with no error.
  unfoldable pub get_user_by_slug : String → S → Result (Option User)
  get_user_by_slug slug s = elim (g.first_user (lower_slug_is slug) s) [
    | ok user ↦ ok (some user)
    | err e ↦ ok none
    | panic ↦ panic
  ]

  unfoldable pub update_user : User → List UserSet → Action S (Unit {0})
  update_user user updates = g.update_user user updates

  unfoldable pub get_user_recent_post : ℤ → S → Result User
  get_user_recent_post user_id s = g.first_user_with_recent_posts user_id s

  -- The row that a first login creates.
  unfoldable pub new_user : User → User
  new_user u = record zero_user {
    email = u.email;
    avatar = "https://cdn.discordapp.com/avatars/" <> u.discord_id <> "/" <> u.avatar <> ".png";
    slug = g.make_slug u.slug;
    locale = u.locale;
    discord_id = u.discord_id;
    discord_username = u.slug <> "#" <> u.discord_username;
  }

  unfoldable pub register_user : User → Action S User
  unfolding new_user
  register_user u = do
    user ← create_user_row g (new_user u)
    create_post_row g (record zero_post { author_id = user.id; kind = register })
    create_post_row g (record zero_post { author_id = user.id; kind = link_discord_account })
    pure user

  unfoldable pub log_in : User → Action S User
  log_in found = do
    create_post_row g (record zero_post { author_id = found.id; kind = login })
    pure found

  -- The branches of `CreateUser` on what its search returns.
  unfoldable pub after_search : User → Result User → Action S User
  unfolding register_user log_in
  after_search u (ok found) s = log_in found s
  after_search u (err record_not_found) s = g.transaction User (register_user u) s
  after_search u (err (failed text)) s = raise (failed text) s
  after_search u panic s = (panic, s)

  unfoldable pub create_user : User → Action S User
  unfolding after_search
  create_user u s = after_search u (g.first_user (like u) s) s
