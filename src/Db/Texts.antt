-- ===== src/Db/Texts.antt =====
-- The texts of the stored posts, and whose of them a change may touch.
use mathlib.Core.Path.{subst}
use sgtm.Common.{◌≡◌, refl, ap, ◌∙◌, ◌⊎◌, inl, inr, String, List, [], ◌∷◌, ◌++◌, map}
use sgtm.Common.Int.{ℤ}
use sgtm.Common.Preorder.{IsPreorder}
use sgtm.Pb.{User, Post, Relationship}
use sgtm.Db.Query.{PostUpdates, UserSet}
use sgtm.Db.Driver.{Gorm}
use sgtm.Db.Laws.{Tables, IsGorm, SameRows}
use sgtm.Db.Rows.{Extends, Extends-refl}
use sgtm.Db.Respects.{Preserves, transaction-respects}

-- What the edit page shows and stores of a post.
pub record PostText : Type 0 where
  pub id : ℤ
  pub title : String
  pub body : String
  pub lyrics : String

abbrev pub post_text : Post → PostText
post_text p = record { id = p.id; title = p.title; body = p.body; lyrics = p.lyrics }

-- Row by row: the same text, or a row with the same id that may be touched; more rows may follow.
abbrev pub Kept : (ℤ → Type 0) → List Post → List Post → Type 0
Kept Touched [] ys = Unit
Kept Touched (x ∷ xs) [] = ⊥
Kept Touched (x ∷ xs) (y ∷ ys) =
    ((post_text y ≡ post_text x) ⊎ (Touched x.id × (y.id ≡ x.id))) × Kept Touched xs ys

Kept-texts :
    (Touched : ℤ → Type 0) (xs ys : List Post) (more : List PostText)
    → map post_text ys ≡ map post_text xs ++ more
    → Kept Touched xs ys
Kept-texts Touched [] ys more e = tt
Kept-texts Touched (x ∷ xs) [] more e = absurd (cons_ne e)
  where
    cons_ne : [] ≡ post_text x ∷ (map post_text xs ++ more) → ⊥
    cons_ne e = cc
Kept-texts Touched (x ∷ xs) (y ∷ ys) more e =
    let same : post_text y ≡ post_text x = cc in
    let rest : map post_text ys ≡ map post_text xs ++ more = cc in
    (inl same, Kept-texts Touched xs ys more rest)

pub Kept-weaken :
    (P Q : ℤ → Type 0) (xs ys : List Post) → ((i : ℤ) → P i → Q i) → Kept P xs ys → Kept Q xs ys
Kept-weaken P Q [] ys f h = tt
Kept-weaken P Q (x ∷ xs) [] f h = h
Kept-weaken P Q (x ∷ xs) (y ∷ ys) f (inl e, h) = (inl e, Kept-weaken P Q xs ys f h)
Kept-weaken P Q (x ∷ xs) (y ∷ ys) f (inr (p, e), h) = (inr (f x.id p, e), Kept-weaken P Q xs ys f h)

module _ (Touched : ℤ → Type 0) where
  one_row :
      (x y z : Post)
      → (post_text y ≡ post_text x) ⊎ (Touched x.id × (y.id ≡ x.id))
      → (post_text z ≡ post_text y) ⊎ (Touched y.id × (z.id ≡ y.id))
      → (post_text z ≡ post_text x) ⊎ (Touched x.id × (z.id ≡ x.id))
  one_row x y z (inl e) (inl d) = inl (d ∙ e)
  one_row x y z (inl e) (inr (p, d)) =
      let same : y.id ≡ x.id = ap (λ (k : PostText). k.id) e in inr (subst Touched same p, d ∙ same)
  one_row x y z (inr (p, e)) (inl d) = inr (p, ap (λ (k : PostText). k.id) d ∙ e)
  one_row x y z (inr (p, e)) (inr (q, d)) = inr (p, d ∙ e)

  Kept-trans : (xs ys zs : List Post) → Kept Touched xs ys → Kept Touched ys zs → Kept Touched xs zs
  Kept-trans [] ys zs h k = tt
  Kept-trans (x ∷ xs) [] zs h k = absurd h
  Kept-trans (x ∷ xs) (y ∷ ys) [] h k = k
  Kept-trans (x ∷ xs) (y ∷ ys) (z ∷ zs) (e, h) (d, k) = (one_row x y z e d, Kept-trans xs ys zs h k)

module _ {S : Type 0} (t : Tables S) where
  abbrev pub texts : S → List PostText
  texts s = map post_text (t.posts s)

  -- No text is changed; rows may be added.
  abbrev pub Adds : S → S → Type 0
  Adds s s' = Extends (λ (k : PostText). Unit {0}) (texts s) (texts s')

  pub record TextsKept (Touched : ℤ → Type 0) (s s' : S) : Type 0 where
    pub rows : Kept Touched (t.posts s) (t.posts s')

  -- What the program relies on: gorm's create adds a row behind the others or none, an update of a
  -- post writes the row with its id alone, and the other calls write no post's text.
  pub record KeepsTexts (g : Gorm S) : Type 1 where
    pub insert_user : (u : User) (s : S) → Adds s (g.insert_user u s).1
    pub insert_post : (p : Post) (s : S) → Adds s (g.insert_post p s).1
    pub update_user : (u : User) (sets : List UserSet) (s : S) → Adds s (g.update_user u sets s).1
    pub update_post :
        (p : Post) (updates : PostUpdates) (s : S)
        → TextsKept (λ i. i ≡ p.id) s (g.update_post p updates s).1
    pub clear_relationships_as_source :
        (p : Post) (s : S) → Adds s (g.clear_relationships_as_source p s).1
    pub clear_relationships_as_target :
        (p : Post) (s : S) → Adds s (g.clear_relationships_as_target p s).1
    pub append_relationship_as_source :
        (p : Post) (r : Relationship) (s : S) → Adds s (g.append_relationship_as_source p r s).1

  module _ (Touched : ℤ → Type 0) where
    pub TextsKept-Adds : (s s' : S) → Adds s s' → TextsKept Touched s s'
    TextsKept-Adds s s' (more, h, e) = record {
      rows = Kept-texts Touched (t.posts s) (t.posts s') more e;
    }

    pub TextsKept-SameRows : (s s' : S) → SameRows t s s' → TextsKept Touched s s'
    TextsKept-SameRows s s' h =
        TextsKept-Adds s s' (Extends-refl _ _ _ (ap (map post_text) h.posts))

    pub TextsKept-IsPreorder : IsPreorder (TextsKept Touched)
    TextsKept-IsPreorder = record {
      same = λ s. TextsKept-Adds s s (Extends-refl _ _ _ refl);
      trans = λ s u v h k. record { rows = Kept-trans Touched _ _ _ h.rows k.rows };
    }

    pub TextsKept-Preserves :
        (g : Gorm S) → IsGorm t g → KeepsTexts g → Preserves (λ p. Unit {0}) (TextsKept Touched) g
    TextsKept-Preserves g law keeps = record {
      generate = λ s. TextsKept-SameRows s _ (law.generate_rows s);
      insert_user = λ u s h. TextsKept-Adds s _ (keeps.insert_user u s);
      add_post = λ p s h.
          let (i, s') = g.generate s in
          TextsKept-IsPreorder.trans s s' _ (TextsKept-SameRows s s' (law.generate_rows s))
            (TextsKept-Adds s' _ (keeps.insert_post (record p { id = i }) s'));
      clear_relationships_as_source =
          λ p s. TextsKept-Adds s _ (keeps.clear_relationships_as_source p s);
      clear_relationships_as_target =
          λ p s. TextsKept-Adds s _ (keeps.clear_relationships_as_target p s);
      append_relationship_as_source =
          λ p r s. TextsKept-Adds s _ (keeps.append_relationship_as_source p r s);
      transaction =
          λ A m s h. transaction-respects TextsKept-IsPreorder t g law TextsKept-SameRows m s h;
    }
