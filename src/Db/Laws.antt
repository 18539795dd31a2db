-- ===== src/Db/Laws.antt =====
-- What the program relies on: the documented meaning of the calls, for the rows that a state holds.
use sgtm.Common.{ℕ, ◌≤◌, ◌≡◌, refl, ◌∙◌, true, some, List, All, length}
use sgtm.Pb.{User, Post, Relationship}
use sgtm.Db.Outcome.{IsFailure, ok, err, panic, Error, Action}
use sgtm.Db.Query.{PostCond, PostQuery, like, conds_hold, user_like}
use sgtm.Db.Driver.{Gorm}

-- The rows that a state holds.
pub record Tables (S : Type 0) : Type 0 where
  pub users : S → List User
  pub posts : S → List Post
  pub relationships : S → List Relationship

module _ {S : Type 0} (t : Tables S) where
  pub record SameRows (s s' : S) : Type 0 where
    pub users : t.users s' ≡ t.users s
    pub posts : t.posts s' ≡ t.posts s
    pub relationships : t.relationships s' ≡ t.relationships s

  pub SameRows-refl : (s : S) → SameRows s s
  SameRows-refl s = record { users = refl; posts = refl; relationships = refl }

  pub SameRows-trans : {s u v : S} → SameRows s u → SameRows u v → SameRows s v
  SameRows-trans h k = record {
    users = k.users ∙ h.users;
    posts = k.posts ∙ h.posts;
    relationships = k.relationships ∙ h.relationships;
  }

  pub record IsGorm (g : Gorm S) : Type 1 where
    -- A row is returned only if it meets the conditions of the query.
    pub first_post_holds :
        (cs : List PostCond) (s : S) (p : Post) → g.first_post cs s ≡ ok p → conds_hold cs p ≡ true
    pub find_posts_hold :
        (q : PostQuery) (s : S) (ps : List Post)
        → g.find_posts q s ≡ ok ps
        → All (λ p. conds_hold q.conds p ≡ true) ps
    -- No more rows come back than the limit allows.
    pub find_posts_limit :
        (q : PostQuery) (limit : ℕ) (s : S) (ps : List Post)
        → q.limit ≡ some limit
        → g.find_posts q s ≡ ok ps
        → length ps ≤ limit
    pub find_last_users_limit :
        (limit : ℕ) (s : S) (us : List User) → g.find_last_users limit s ≡ ok us → length us ≤ limit
    pub first_user_like :
        (q : User) (s : S) (u : User) → g.first_user (like q) s ≡ ok u → user_like q u ≡ true
    -- Drawing an id touches no row, and neither does an insertion that fails.
    pub generate_rows : (s : S) → SameRows s (g.generate s).1
    pub insert_post_fails :
        (p : Post) (s : S) → IsFailure (g.insert_post p s).0 → SameRows s (g.insert_post p s).1
    -- A transaction passes on its body's error or panic.
    pub transaction_err :
        (A : Type 0) (m : Action S A) (s : S) (e : Error)
        → (m s).0 ≡ err e
        → (g.transaction A m s).0 ≡ err e
    pub transaction_panic :
        (A : Type 0) (m : Action S A) (s : S) → (m s).0 ≡ panic → (g.transaction A m s).0 ≡ panic
    -- One that fails, by its body or by the commit, is rolled back.
    pub transaction_rollback :
        (A : Type 0) (m : Action S A) (s : S)
        → IsFailure (g.transaction A m s).0
        → SameRows s (g.transaction A m s).1
    -- One that succeeds is committed.
    pub transaction_ok :
        (A : Type 0) (m : Action S A) (s : S) (a : A)
        → (g.transaction A m s).0 ≡ ok a
        → ((m s).0 ≡ ok a) × SameRows (m s).1 (g.transaction A m s).1
