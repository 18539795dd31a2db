-- ===== src/Store/Create.antt =====
-- pkg/sgtmstore/gorm.go: the callback before gorm's create, which gives each new row its id.
use sgtm.Common.Int.{ℤ}
use sgtm.Pb.{User, Post}
use sgtm.Db.{Gorm, ok, Action, ◌>>=◌}

module _ {S : Type 0} (g : Gorm S) where
  unfoldable pub next_id : Action S ℤ
  next_id s = let (i, s') = g.generate s in (ok i, s')

  -- `beforeCreate`, then gorm's create: what `tx.Create(&user)` does
  unfoldable pub create_user_row : User → Action S User
  unfolding next_id
  create_user_row u = do i ← next_id; g.insert_user (record u { id = i })

  unfoldable pub create_post_row : Post → Action S Post
  unfolding next_id
  create_post_row p = do i ← next_id; g.insert_post (record p { id = i })
