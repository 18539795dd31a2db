-- ===== src/Store/Respects.antt =====
-- What every call of gorm respects, every call of the store respects.
use sgtm.Common.{Option, none, some, ◌≡◌, refl, String, List, [], ◌∷◌}
use sgtm.Common.Preorder.{IsPreorder}
use sgtm.Pb.{User, Post}
use sgtm.Db.{Gorm, Result, ok, err, panic, record_not_found, failed, like}
use sgtm.Db.Rows.{IsPlain}
use sgtm.Db.Respects.{Preserves, continue-respects}
use sgtm.Store.Create.{create_user_row, create_post_row}
use sgtm.Store.Users.{new_user, register_user, log_in, after_search, create_user}
use sgtm.Store.Relationships.{
  append_found, append_match, append_matches, rebuild, check_and_update_post,
}

module _ {S : Type 0} {R : S → S → Type 0} (order : IsPreorder R) (g : Gorm S) {P : Post → Type 0}
    (events : (p : Post) → IsPlain p → P p) (keeps : Preserves P R g) where
  pub create_post_row-respects : (p : Post) (s : S) → P p → R s (create_post_row g p s).1
  unfolding create_post_row
  create_post_row-respects p s h = keeps.add_post p s h

  event-respects : (p : Post) (s : S) → IsPlain p → R s (create_post_row g p s).1
  event-respects p s h = create_post_row-respects p s (events p h)

  create_user_row-respects : (u : User) (s : S) → u.role ≡ "" → R s (create_user_row g u s).1
  unfolding create_user_row
  create_user_row-respects u s h =
      let (i, s') = g.generate s in
      order.trans _ _ _ (keeps.generate s) (keeps.insert_user (record u { id = i }) s' h)

  register_user-respects : (u : User) (s : S) → R s (register_user g u s).1
  unfolding register_user new_user
  register_user-respects u s =
      continue-respects order s (create_user_row g (new_user g u) s) _
        (create_user_row-respects _ s refl)
        λ user s1.
          continue-respects order s1 (create_post_row g _ s1) _ (event-respects _ s1 (refl, refl))
            λ _ s2.
              continue-respects order s2 (create_post_row g _ s2) _
                (event-respects _ s2 (refl, refl)) λ _ s3. order.same s3

  after_search-respects : (u : User) (r : Result User) (s : S) → R s (after_search g u r s).1
  unfolding after_search log_in
  after_search-respects u (ok found) s =
      continue-respects order s (create_post_row g _ s) _ (event-respects _ s (refl, refl))
        λ _ s1. order.same s1
  after_search-respects u (err record_not_found) s =
      keeps.transaction _ (register_user g u) s (register_user-respects u s)
  after_search-respects u (err (failed text)) s = order.same s
  after_search-respects u panic s = order.same s

  pub create_user-respects : (u : User) (s : S) → R s (create_user g u s).1
  unfolding create_user
  create_user-respects u s = after_search-respects u (g.first_user (like u) s) s

  append_found-respects :
      (p : Post) (r : Result (Option User)) (s : S) → R s (append_found g p r s).1
  unfolding append_found
  append_found-respects p (ok none) s = order.same s
  append_found-respects p (ok (some user)) s = (keeps.append_relationship_as_source p _ s)
  append_found-respects p (err e) s = order.same s
  append_found-respects p panic s = order.same s

  append_matches-respects :
      (outside : S) (p : Post) (names : List String) (s : S)
      → R s (append_matches g outside p names s).1
  unfolding append_matches append_match
  append_matches-respects outside p [] s = order.same s
  append_matches-respects outside p (name ∷ names) s =
      continue-respects order s (append_match g outside p name s) _ (append_found-respects p _ s)
        λ _ s1. append_matches-respects outside p names s1

  rebuild-respects : (outside : S) (p : Post) (s : S) → R s (rebuild g outside p s).1
  unfolding rebuild
  rebuild-respects outside p s =
      continue-respects order s (g.clear_relationships_as_source p s) _
        ((keeps.clear_relationships_as_source p s))
        λ _ s1.
          continue-respects order s1 (g.clear_relationships_as_target p s1) _
            ((keeps.clear_relationships_as_target p s1))
            λ _ s2. append_matches-respects outside p _ s2

  pub check_and_update_post-respects : (p : Post) (s : S) → R s (check_and_update_post g p s).1
  unfolding check_and_update_post
  check_and_update_post-respects p s =
      keeps.transaction _ (rebuild g s p) s (rebuild-respects s p s)
