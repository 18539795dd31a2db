-- ===== src/Db/Growth.antt =====
-- Tables only grow under the calls of gorm.
use sgtm.Pb.{Post}
use sgtm.Db.Driver.{Gorm}
use sgtm.Db.Laws.{Tables, IsGorm}
use sgtm.Db.Respects.{Preserves, transaction-respects}
use sgtm.Db.Rows.{
  Grows, Grows-IsPreorder, Grows-SameKeys, Grows-SameRows, Grows-trans, KeepsKeys, Extends-refl,
  Extends-one,
}

module _ {S : Type 0} (t : Tables S) (g : Gorm S) (law : IsGorm t g) (keeps : KeepsKeys t g) where
  insert-Grows : (p : Post) (s : S) → Grows t s (g.insert_post p s).1
  insert-Grows p s =
      let (post, user) = keeps.insert_post p s in
      record { users = Extends-refl _ _ _ user; posts = Extends-one _ _ _ _ tt post }

  pub Grows-Preserves : Preserves (λ p. Unit {0}) (Grows t) g
  Grows-Preserves = record {
    generate = λ s. Grows-SameRows t (law.generate_rows s);
    insert_user = λ u s h.
        let (user, post) = keeps.insert_user u s in
        record { users = Extends-one _ _ _ _ h user; posts = Extends-refl _ _ _ post };
    add_post = λ p s h.
        let (i, s') = g.generate s in
        Grows-trans t (Grows-SameRows t (law.generate_rows s))
          (insert-Grows (record p { id = i }) s');
    clear_relationships_as_source =
        λ p s. Grows-SameKeys t (keeps.clear_relationships_as_source p s);
    clear_relationships_as_target =
        λ p s. Grows-SameKeys t (keeps.clear_relationships_as_target p s);
    append_relationship_as_source =
        λ p r s. Grows-SameKeys t (keeps.append_relationship_as_source p r s);
    transaction = λ A m s h.
        transaction-respects (Grows-IsPreorder t) t g law (λ u v k. Grows-SameRows t k) m s h;
  }
