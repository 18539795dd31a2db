-- ===== src/Db/Rows.antt =====
-- What never changes of a stored row, and tables that only grow by such rows.
use mathlib.Core.List.{append_assoc, append-nil}
use sgtm.Common.{ℕ, ◌≡◌, refl, sym, ap, ◌∙◌, ◌⊎◌, inl, inr, String, List, [], ◌∷◌, ◌++◌, map, All}
use sgtm.Common.Int.{ℤ}
use sgtm.Common.Preorder.{IsPreorder}
use sgtm.Pb.{User, Post, Relationship, Kind, Visibility}
use sgtm.Db.Query.{PostUpdates, UserSet}
use sgtm.Db.Driver.{Gorm}
use sgtm.Db.Laws.{Tables, SameRows}

-- The columns that no update of the program writes.
pub record UserKey : Type 0 where
  pub id : ℤ
  pub role : String
  pub email : String
  pub slug : String
  pub discord_id : String

pub record PostKey : Type 0 where
  pub id : ℤ
  pub kind : Kind
  pub visibility : Visibility
  pub author_id : ℤ
  pub target_post_id : ℤ
  pub ipfs_cid : String
  pub soundcloud_id : ℕ

abbrev pub user_key : User → UserKey
user_key u = record {
  id = u.id;
  role = u.role;
  email = u.email;
  slug = u.slug;
  discord_id = u.discord_id;
}

abbrev pub post_key : Post → PostKey
post_key p = record {
  id = p.id;
  kind = p.kind;
  visibility = p.visibility;
  author_id = p.author_id;
  target_post_id = p.target_post_id;
  ipfs_cid = p.ipfs_cid;
  soundcloud_id = p.soundcloud_id;
}

-- A post that is no track: nothing was uploaded and nothing is linked.
abbrev pub IsPlain : Post → Type 0
IsPlain p = (p.ipfs_cid ≡ "") × (p.soundcloud_id ≡ 0)

-- A list that some elements, all of which meet `P`, were added to.
abbrev pub Extends : {A : Type 0} → (A → Type 0) → List A → List A → Type 0
Extends {A} P xs ys = (added : List A) × All P added × (ys ≡ xs ++ added)

module _ {A : Type 0} (P : A → Type 0) where
  pub Extends-refl : (xs ys : List A) → ys ≡ xs → Extends P xs ys
  Extends-refl xs ys e = ([], tt, e ∙ sym (append-nil xs))

  pub Extends-one :
      (xs ys : List A) (x : A) → P x → (ys ≡ xs) ⊎ (ys ≡ xs ++ x ∷ []) → Extends P xs ys
  Extends-one xs ys x p (inl e) = Extends-refl xs ys e
  Extends-one xs ys x p (inr e) = (x ∷ [], (p, tt), e)

  pub All-append : (xs ys : List A) → All P xs → All P ys → All P (xs ++ ys)
  All-append [] ys h k = k
  All-append (x ∷ xs) ys h k = (h.0, All-append xs ys h.1 k)

  pub Extends-trans : (xs ys zs : List A) → Extends P xs ys → Extends P ys zs → Extends P xs zs
  Extends-trans xs ys zs (a, p, e) (b, q, d) =
      (a ++ b, All-append a b p q, d ∙ ap (λ (l : List A). l ++ b) e ∙ append_assoc xs a b)

module _ {S : Type 0} (t : Tables S) where
  abbrev pub user_keys : S → List UserKey
  user_keys s = map user_key (t.users s)

  abbrev pub post_keys : S → List PostKey
  post_keys s = map post_key (t.posts s)

  -- Every user and post is still there, in its place and with its key; new users have no role.
  pub record Grows (s s' : S) : Type 0 where
    pub users : Extends (λ (k : UserKey). k.role ≡ "") (user_keys s) (user_keys s')
    pub posts : Extends (λ (k : PostKey). Unit {0}) (post_keys s) (post_keys s')

  pub record SameKeys (s s' : S) : Type 0 where
    pub users : user_keys s' ≡ user_keys s
    pub posts : post_keys s' ≡ post_keys s

  pub Grows-SameKeys : {s s' : S} → SameKeys s s' → Grows s s'
  Grows-SameKeys h = record {
    users = Extends-refl _ _ _ h.users;
    posts = Extends-refl _ _ _ h.posts;
  }

  pub Grows-SameRows : {s s' : S} → SameRows t s s' → Grows s s'
  Grows-SameRows h =
      Grows-SameKeys
        (record { users = ap (map user_key) h.users; posts = ap (map post_key) h.posts })

  pub Grows-trans : {s u v : S} → Grows s u → Grows u v → Grows s v
  Grows-trans h k = record {
    users = Extends-trans _ _ _ _ h.users k.users;
    posts = Extends-trans _ _ _ _ h.posts k.posts;
  }

  pub Grows-IsPreorder : IsPreorder Grows
  Grows-IsPreorder = record {
    same = λ s. Grows-SameKeys (record { users = refl; posts = refl });
    trans = λ s u v h k. Grows-trans h k;
  }

  -- What the program relies on: gorm's create adds the row that it is given or fails, its updates
  -- write the named columns of rows that are there, and the calls for an association write none of
  -- these columns.
  pub record KeepsKeys (g : Gorm S) : Type 1 where
    pub insert_user :
        (u : User) (s : S)
        → let s' = (g.insert_user u s).1 in
          ((user_keys s' ≡ user_keys s) ⊎ (user_keys s' ≡ user_keys s ++ user_key u ∷ []))
          × (post_keys s' ≡ post_keys s)
    pub insert_post :
        (p : Post) (s : S)
        → let s' = (g.insert_post p s).1 in
          ((post_keys s' ≡ post_keys s) ⊎ (post_keys s' ≡ post_keys s ++ post_key p ∷ []))
          × (user_keys s' ≡ user_keys s)
    pub update_user :
        (u : User) (sets : List UserSet) (s : S) → SameKeys s (g.update_user u sets s).1
    pub update_post :
        (p : Post) (updates : PostUpdates) (s : S) → SameKeys s (g.update_post p updates s).1
    pub clear_relationships_as_source :
        (p : Post) (s : S) → SameKeys s (g.clear_relationships_as_source p s).1
    pub clear_relationships_as_target :
        (p : Post) (s : S) → SameKeys s (g.clear_relationships_as_target p s).1
    pub append_relationship_as_source :
        (p : Post) (r : Relationship) (s : S) → SameKeys s (g.append_relationship_as_source p r s).1
