-- ===== src/Db/MemoryRows.antt =====
-- The database in memory keeps the keys of its rows, and the texts of the posts that an update does
-- not name.
use sgtm.Common.{
  ◌≡◌, refl, ap, ◌∙◌, inr, List, [], ◌∷◌, ◌++◌, map, Bool, true, false, if◌then◌else◌,
}
use sgtm.Common.{◌⊎◌, inl}
use sgtm.Common.Int.{ℤ, pos, int_eq, int_eq_iff}
use sgtm.Pb.{Post}
use sgtm.Db.Query.{PostSet}
use sgtm.Db.Writes.{apply_set, apply_sets, written, sets_of}
use sgtm.Db.Memory.{Memory, memory, tables}
use sgtm.Db.Texts.{post_text, Kept, texts, Adds, KeepsTexts}
use sgtm.Db.Rows.{Extends-refl, KeepsKeys, SameKeys, PostKey, user_key, post_key}

module _ {A B : Type 0} (f : A → B) where
  map-append : (xs ys : List A) → map f (xs ++ ys) ≡ map f xs ++ map f ys
  map-append [] ys = refl
  map-append (x ∷ xs) ys = ap (λ (l : List B). f x ∷ l) (map-append xs ys)

  -- A change of elements that `f` does not see.
  map-same : (h : A → A) → ((x : A) → f (h x) ≡ f x) → (xs : List A) → map f (map h xs) ≡ map f xs
  map-same h e [] = refl
  map-same h e (x ∷ xs) = rw (e x, map-same h e xs) refl

apply_set-key : (c : PostSet) (p : Post) → post_key (apply_set c p) ≡ post_key p
apply_set-key (PostSet.title v) p = refl
apply_set-key (PostSet.body v) p = refl
apply_set-key (PostSet.lyrics v) p = refl
apply_set-key (PostSet.tags v) p = refl
apply_set-key (PostSet.genre v) p = refl
apply_set-key (PostSet.provider_title v) p = refl
apply_set-key (PostSet.processing_error v) p = refl
apply_set-key (PostSet.processing_version v) p = refl
apply_set-key (PostSet.bpm v) p = refl

apply_sets-key : (cs : List PostSet) (p : Post) → post_key (apply_sets cs p) ≡ post_key p
unfolding apply_sets
apply_sets-key [] p = refl
apply_sets-key (c ∷ cs) p = apply_sets-key cs (apply_set c p) ∙ apply_set-key c p

updated-key :
    (b : Bool) (cs : List PostSet) (now : ℤ) (p : Post)
    → post_key (if b then written cs now p else p) ≡ post_key p
updated-key true cs now p = apply_sets-key cs p
updated-key false cs now p = refl

unchanged : (m : Memory) → SameKeys tables m m
unchanged m = record { users = refl; posts = refl }

pub memory-KeepsKeys : KeepsKeys tables memory
unfolding memory
memory-KeepsKeys = record {
  insert_user = λ u m. (inr (map-append user_key m.users (u ∷ [])), refl);
  insert_post = λ p m. (inr (map-append post_key m.posts (p ∷ [])), refl);
  update_user = λ u sets m. unchanged m;
  update_post = λ p updates m. record {
    users = refl;
    posts =
        map-same post_key _ (λ q. updated-key (int_eq q.id p.id) (sets_of updates) (pos m.next) q)
          m.posts;
  };
  clear_relationships_as_source = λ p m. record { users = refl; posts = refl };
  clear_relationships_as_target = λ p m. record { users = refl; posts = refl };
  append_relationship_as_source = λ p r m. record { users = refl; posts = refl };
}

-- An update touches the rows with the post's id.
updated-text :
    (b : Bool) (cs : List PostSet) (now i : ℤ) (q : Post)
    → (b ≡ true → q.id ≡ i)
    → let q' = if b then written cs now q else q in
      (post_text q' ≡ post_text q) ⊎ ((q.id ≡ i) × (q'.id ≡ q.id))
updated-text true cs now i q h = inr (h refl, ap (λ (k : PostKey). k.id) (apply_sets-key cs q))
updated-text false cs now i q h = inl refl

map-Kept :
    (Touched : ℤ → Type 0) (f : Post → Post) (qs : List Post)
    → ((q : Post) → (post_text (f q) ≡ post_text q) ⊎ (Touched q.id × ((f q).id ≡ q.id)))
    → Kept Touched qs (map f qs)
map-Kept Touched f [] h = tt
map-Kept Touched f (q ∷ qs) h = (h q, map-Kept Touched f qs h)

no_more : (m : Memory) → Adds tables m m
no_more m = Extends-refl _ (texts tables m) (texts tables m) refl

pub memory-KeepsTexts : KeepsTexts tables memory
unfolding memory
memory-KeepsTexts = record {
  insert_user = λ u m. no_more m;
  insert_post = λ p m. (post_text p ∷ [], (tt, tt), map-append post_text m.posts (p ∷ []));
  update_user = λ u sets m. no_more m;
  update_post = λ p updates m. record {
    rows =
        map-Kept (λ i. i ≡ p.id) _ m.posts
          (λ q.
            updated-text (int_eq q.id p.id) (sets_of updates) (pos m.next) p.id q
              (int_eq_iff q.id p.id).0);
  };
  clear_relationships_as_source = λ p m. no_more m;
  clear_relationships_as_target = λ p m. no_more m;
  append_relationship_as_source = λ p r m. no_more m;
}
