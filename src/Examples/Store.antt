-- ===== src/Examples/Store.antt =====
-- The store over the database in memory.
use sgtm.Common.{
  arith, ◌≡◌, ◌≢◌, refl, ◌≤◌, String, some, none, [], ◌∷◌, false, All, length, trim_space, str_eq,
  eq_iff,
}
use sgtm.Common.Int.{pos}
use sgtm.Common.Decimal.{format_int, parse_int}
use sgtm.Pb.{User, Post, zero_user, zero_post, comment, public}
use sgtm.Db.{Gorm, ok, err, failed, panic, IsFailure, user_like}
use sgtm.Db.Laws.{IsGorm, SameRows, SameRows-refl}
use sgtm.Db.Memory.{Memory, memory, memory-IsGorm, tables}
use sgtm.Store.Create.{create_user_row, create_post_row}
use sgtm.Store.Users.{create_user, new_user, get_last_users_list, get_user_by_slug}
use sgtm.Store.Posts.{
  get_post_list, get_post_comments, get_post_by_slug_or_id, get_track_by_cid, slug_or_id_conds,
}
use sgtm.Store.Relationships.{check_and_update_post, relationship_text}
use sgtm.Store.Listing.{
  IsListed, IsAnonymised, IsPublicComment, get_post_list-IsListed, get_last_users_list-IsAnonymised,
  get_post_comments-IsPublicComment,
}
use sgtm.Store.Login.{user_like-new_user, create_user_fails}
use sgtm.Store.Featuring.{check_and_update_post_unknown}
use sgtm.Pb.PostHelpers
use sgtm.Pb.UserHelpers
use sgtm.Examples.Sample.{alice, rows, song}

unequal : (a b : String) → str_eq a b ≡ false → a ≢ b
unequal a b h = ground (arith, eq_iff a b)

listed : get_post_list memory 10 rows ≡ ok (PostHelpers.filter song ∷ [])
unfolding get_post_list memory PostHelpers.filter
listed = refl

get_post_list-IsListed_example :
    All IsListed (PostHelpers.filter song ∷ []) × (length (PostHelpers.filter song ∷ []) ≤ 10)
get_post_list-IsListed_example = get_post_list-IsListed tables memory memory-IsGorm 10 rows _ listed

users_listed : get_last_users_list memory 10 rows ≡ ok (UserHelpers.filter alice ∷ [])
unfolding get_last_users_list memory UserHelpers.filter
users_listed = refl

get_last_users_list-IsAnonymised_example :
    All IsAnonymised (UserHelpers.filter alice ∷ []) × (length (UserHelpers.filter alice ∷ []) ≤ 10)
get_last_users_list-IsAnonymised_example =
    get_last_users_list-IsAnonymised tables memory memory-IsGorm 10 rows _ users_listed

abbrev remark : Post
remark = record zero_post {
  id = pos 6;
  kind = comment;
  visibility = public;
  target_post_id = pos 5;
}

abbrev more_rows : Memory
more_rows = record rows { posts = song ∷ remark ∷ [] }

comments_found : get_post_comments memory (pos 5) more_rows ≡ ok (remark ∷ [])
unfolding get_post_comments memory
comments_found = refl

get_post_comments-IsPublicComment_example : All (IsPublicComment (pos 5)) (remark ∷ [])
get_post_comments-IsPublicComment_example =
    get_post_comments-IsPublicComment tables memory memory-IsGorm (pos 5) more_rows (remark ∷ [])
      (λ e. absurd (ground arith)) comments_found

by_number : get_post_by_slug_or_id memory (format_int (pos 5)) rows ≡ ok song
unfolding get_post_by_slug_or_id memory slug_or_id_conds parse_int format_int
by_number = refl

abbrev named_song : Post
named_song = record song { slug = "my-song" }

abbrev named_rows : Memory
named_rows = record rows { posts = named_song ∷ [] }

by_slug : get_post_by_slug_or_id memory "my-song" named_rows ≡ ok named_song
unfolding get_post_by_slug_or_id memory slug_or_id_conds parse_int
by_slug = refl

no_number : parse_int "my-song" ≡ none
unfolding parse_int
no_number = refl

abbrev kept_song : Post
kept_song = record song { ipfs_cid = "Qm1" }

by_cid : get_track_by_cid memory "Qm1" (record rows { posts = kept_song ∷ [] }) ≡ ok kept_song
unfolding get_track_by_cid memory
by_cid = refl

minus_zero : parse_int "-0" ≡ some (pos 0)
unfolding parse_int
minus_zero = refl

abbrev bob : User
bob = record zero_user { slug = "bob"; discord_username = "bob" }

user_like-new_user_example : user_like bob (new_user memory bob) ≡ false
user_like-new_user_example =
    user_like-new_user memory bob (new_user memory bob) (unequal "bob" "" refl) refl

-- A database whose disk is full.
abbrev full : Gorm Memory
full = record memory { insert_post = λ p m. (err (failed "disk full"), m) }

full-IsGorm : IsGorm tables full
full-IsGorm = record {
  first_post_holds = memory-IsGorm.first_post_holds;
  find_posts_hold = memory-IsGorm.find_posts_hold;
  find_posts_limit = memory-IsGorm.find_posts_limit;
  find_last_users_limit = memory-IsGorm.find_last_users_limit;
  first_user_like = memory-IsGorm.first_user_like;
  generate_rows = memory-IsGorm.generate_rows;
  insert_post_fails = λ p s h. SameRows-refl tables s;
  transaction_err = memory-IsGorm.transaction_err;
  transaction_panic = memory-IsGorm.transaction_panic;
  transaction_rollback = memory-IsGorm.transaction_rollback;
  transaction_ok = memory-IsGorm.transaction_ok;
}

no_registration : IsFailure (create_user full bob rows).0
unfolding create_user memory create_user_row create_post_row
no_registration = tt

create_user_fails_example : SameRows tables rows (create_user full bob rows).1
create_user_fails_example = create_user_fails tables full full-IsGorm bob rows no_registration

cleared :
    (memory.clear_relationships_as_source song rows ≡ (ok tt, rows))
    × (memory.clear_relationships_as_target song rows ≡ (ok tt, rows))
unfolding memory
cleared = (refl, refl)

ghost_featured : memory.featured_names (relationship_text song) ≡ "ghost" ∷ []
unfolding memory
ghost_featured = refl

no_ghost : get_user_by_slug memory (memory.to_lower (trim_space "ghost")) rows ≡ ok none
unfolding memory get_user_by_slug trim_space
no_ghost = refl

check_and_update_post_unknown_example :
    ((check_and_update_post memory song rows).0 ≡ panic)
    × SameRows tables rows (check_and_update_post memory song rows).1
check_and_update_post_unknown_example =
    check_and_update_post_unknown tables memory memory-IsGorm song "ghost" [] rows rows
      (rows, cleared.0, cleared.1) ghost_featured no_ghost
