-- ===== src/Db/Respects.antt =====
-- What every call of gorm respects.
use mathlib.Core.Path.{subst}
use sgtm.Common.{◌≡◌, refl, sym}
use sgtm.Common.Preorder.{IsPreorder}
use sgtm.Pb.{User, Post, Relationship}
use sgtm.Db.Outcome.{Result, IsFailure, Action, ok, err, panic, continue}
use sgtm.Db.Driver.{Gorm}
use sgtm.Db.Laws.{Tables, IsGorm, SameRows}

-- The calls but the two updates; a new user has no role, and a new post is one that `P` allows.
pub record Preserves {S : Type 0} (P : Post → Type 0) (R : S → S → Type 0) (g : Gorm S)
    : Type 1 where
  pub generate : (s : S) → R s (g.generate s).1
  pub insert_user : (u : User) (s : S) → u.role ≡ "" → R s (g.insert_user u s).1
  -- a post is inserted with the id that was drawn for it
  pub add_post :
      (p : Post) (s : S)
      → P p
      → let (i, s') = g.generate s in R s (g.insert_post (record p { id = i }) s').1
  pub clear_relationships_as_source :
      (p : Post) (s : S) → R s (g.clear_relationships_as_source p s).1
  pub clear_relationships_as_target :
      (p : Post) (s : S) → R s (g.clear_relationships_as_target p s).1
  pub append_relationship_as_source :
      (p : Post) (r : Relationship) (s : S) → R s (g.append_relationship_as_source p r s).1
  pub transaction :
      (A : Type 0) (m : Action S A) (s : S) → R s (m s).1 → R s (g.transaction A m s).1

-- A transaction keeps what its body made of the rows, or nothing of it.
pub transaction-respects :
    {S : Type 0} {R : S → S → Type 0} (order : IsPreorder R) (t : Tables S) (g : Gorm S)
    (law : IsGorm t g)
    → ((s s' : S) → SameRows t s s' → R s s')
    → {A : Type 0} (m : Action S A) (s : S) → R s (m s).1
    → R s (g.transaction A m s).1
transaction-respects {S} {R} order t g law same {A} m s h = go (g.transaction A m s).0 refl
  where
    go : (r : Result A) → (g.transaction A m s).0 ≡ r → R s (g.transaction A m s).1
    go (ok a) e = order.trans _ _ _ h (same _ _ (law.transaction_ok A m s a e).1)
    go (err x) e = same _ _ (law.transaction_rollback A m s (subst IsFailure (sym e) tt))
    go panic e = same _ _ (law.transaction_rollback A m s (subst IsFailure (sym e) tt))

module _ {S : Type 0} {R : S → S → Type 0} (order : IsPreorder R) where
  pub continue-respects :
      {A B : Type 0} (s : S) (x : Result A × S) (f : A → Action S B)
      → R s x.1
      → ((a : A) (s' : S) → R s' (f a s').1)
      → R s (continue x f).1
  continue-respects s (ok a, s') f h k = order.trans s s' _ h (k a s')
  continue-respects s (err e, s') f h k = h
  continue-respects s (panic, s') f h k = h
