-- ===== src/Store/Login.antt =====
-- `CreateUser`: a profile against the row that its first login stored.
use text.Mathlib.TextLemmas.{length-append}
use sgtm.Common.{
  ◌≡◌, ◌≢◌, ap, false, String, arith, ◌<>◌, eq_iff, Bool, List, [], ◌∷◌, get_elem?, ℕ, suc, zero,
  some,
}
use sgtm.Pb.{User, Post, login, zero_post}
use sgtm.Db.{
  Gorm, Result, continue-pure_fails, IsFailure, record_not_found, ok, err, failed, panic, user_like,
  like, field_like, user_likes, all_hold,
}
use sgtm.Db.Laws.{Tables, IsGorm, SameRows, SameRows-trans, SameRows-refl}
use sgtm.Store.Create.{create_post_row}
use sgtm.Store.Users.{new_user, create_user, after_search}
use Prim.Native.String

longer-ne : (a b : String) → a <> "#" <> b ≢ b
longer-ne a b e =
    absurd (omega (arith, ap String.count e, length-append a ("#" <> b), length-append "#" b))

all_hold-false : (bs : List Bool) (i : ℕ) → get_elem? bs i ≡ some false → all_hold bs ≡ false
all_hold-false [] i h = cc
all_hold-false (b ∷ bs) zero h = ground arith
all_hold-false (b ∷ bs) (suc i) h = ground (arith, all_hold-false bs i h)

-- A row whose Discord user name is the one that a first login of this profile stores is not found
-- by the next login of the same profile, as long as the profile's Discord user name is not empty:
-- the row holds "slug#name", and the search asks for "name".
pub user_like-new_user :
    {S : Type 0} (g : Gorm S) (profile row : User)
    → profile.discord_username ≢ ""
    → row.discord_username ≡ (new_user g profile).discord_username
    → user_like profile row ≡ false
unfolding new_user
user_like-new_user g profile row named stored =
    let different = longer-ne profile.slug profile.discord_username in
    let missed : field_like profile.discord_username row.discord_username ≡ false = ground (
      arith,
      eq_iff profile.discord_username "",
      eq_iff row.discord_username profile.discord_username,
    ) in
    all_hold-false (user_likes profile row) 12 (ap some missed)

module _ {S : Type 0} (t : Tables S) (g : Gorm S) (law : IsGorm t g) where
  create_post_row_fails :
      (p : Post) (s : S)
      → IsFailure (create_post_row g p s).0
      → SameRows t s (create_post_row g p s).1
  unfolding create_post_row
  create_post_row_fails p s h =
      let (i, s') = g.generate s in
      SameRows-trans t (law.generate_rows s) (law.insert_post_fails (record p { id = i }) s' h)

  after_search_fails :
      (profile : User) (r : Result User) (s : S)
      → IsFailure (after_search g profile r s).0
      → SameRows t s (after_search g profile r s).1
  unfolding after_search
  after_search_fails profile (ok found) s h =
      let event = record zero_post { author_id = found.id; kind = login } in
      let (failure, same) = continue-pure_fails (create_post_row g event s) found h in
      rw same (create_post_row_fails event s failure)
  after_search_fails profile (err record_not_found) s h = law.transaction_rollback User _ s h
  after_search_fails profile (err (failed text)) s h = SameRows-refl t s
  after_search_fails profile panic s h = SameRows-refl t s

  -- Over a database that meets `IsGorm`, a login that fails, at the search, at the login event or
  -- inside the registration, leaves the rows of users, posts and relationships as they were.
  pub create_user_fails :
      (profile : User) (s : S)
      → IsFailure (create_user g profile s).0
      → SameRows t s (create_user g profile s).1
  unfolding create_user
  create_user_fails profile s h = after_search_fails profile (g.first_user (like profile) s) s h
