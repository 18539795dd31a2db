-- ===== src/Store/Relationships.antt =====
-- pkg/sgtmstore/store.go: `CheckAndUpdatePost`, which reads the featured artists in a post's text.
use sgtm.Common.{String, Option, none, some, List, [], ◌∷◌, trim_space, ◌<>◌}
use sgtm.Pb.{Post, User, Relationship, zero_relationship, featuring_user}
use sgtm.Pb.PostHelpers.{safe_title, safe_description}
use sgtm.Db.{Gorm, Result, ok, err, panic, Action, pure, ◌>>◌}
use sgtm.Store.Users.{get_user_by_slug}

-- The text that `featRegex` runs over.
unfoldable pub relationship_text : Post → String
relationship_text p = safe_title p <> "\n\n" <> safe_description p

unfoldable pub featuring : Post → User → Relationship
featuring p user = record zero_relationship {
  source_post_id = p.id;
  target_user_id = user.id;
  kind = featuring_user;
}

module _ {S : Type 0} (g : Gorm S) where
  -- A user that is not there is nil, and `user.ID` panics; an error skips the match.
  unfoldable pub append_found : Post → Result (Option User) → Action S (Unit {0})
  unfolding featuring
  append_found p (ok none) s = (panic, s)
  append_found p (ok (some user)) s = g.append_relationship_as_source p (featuring p user) s
  append_found p (err e) s = (ok tt, s)
  append_found p panic s = (panic, s)

  -- One match of `featRegex`. The user is searched with `s.db`, not with `tx`: in the database as it
  -- is outside the transaction, `outside`.
  unfoldable pub append_match : S → Post → String → Action S (Unit {0})
  unfolding append_found
  append_match outside p name s =
      append_found p (get_user_by_slug g (g.to_lower (trim_space name)) outside) s

  unfoldable pub append_matches : S → Post → List String → Action S (Unit {0})
  unfolding append_match
  append_matches outside p [] = pure tt
  append_matches outside p (name ∷ names) =
      append_match outside p name >> append_matches outside p names

  unfoldable pub rebuild : S → Post → Action S (Unit {0})
  unfolding append_matches relationship_text
  rebuild outside p = do
    g.clear_relationships_as_source p
    g.clear_relationships_as_target p
    append_matches outside p (g.featured_names (relationship_text p))

  unfoldable pub check_and_update_post : Post → Action S (Unit {0})
  unfolding rebuild
  check_and_update_post p s = g.transaction (Unit {0}) (rebuild s p) s
