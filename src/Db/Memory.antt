-- ===== src/Db/Memory.antt =====
-- A database in memory, which shows that what the program relies on can be met, and in which the
-- examples run. Ids count up, the time of an update is the last id, text is its own lower case, and every text features "ghost".
use mathlib.Core.Path.{subst}
use sgtm.Common.{
  ℕ, suc, ◌≤◌, ◌≡◌, refl, Bool, true, List, [], ◌∷◌, ◌++◌, map, length, All, if◌then◌else◌, str_eq,
  not,
}
use sgtm.Common.Int.{pos, int_eq}
use sgtm.Pb.{User, Post, Relationship}
use sgtm.Db.Writes.{apply_sets, written, sets_of}
use sgtm.Db.Selection.{
  select, first, take, cut, select-All, cut-All, length-take, length-cut, first-holds,
}
use sgtm.Db.Outcome.{Result, Error, ok, err, panic, IsFailure, ok_inj}
use sgtm.Db.Query.{UserCond, id_is, lower_slug_is, like, user_like, conds_hold}
use sgtm.Db.Driver.{Gorm}
use sgtm.Db.Laws.{Tables, IsGorm, SameRows, SameRows-refl}

pub record Memory : Type 0 where
  pub users : List User
  pub posts : List Post
  pub relationships : List Relationship
  pub next : ℕ

abbrev pub tables : Tables Memory
tables = record { users = λ m. m.users; posts = λ m. m.posts; relationships = λ m. m.relationships }

abbrev user_holds : UserCond → User → Bool
user_holds (id_is i) u = int_eq u.id i
user_holds (lower_slug_is slug) u = str_eq u.slug slug
user_holds (like q) u = user_like q u

abbrev keep_rows : {A : Type 0} → Memory → Result A × Memory → Result A × Memory
keep_rows before (ok a, after) = (ok a, after)
keep_rows before (err e, after) = (err e, record before { next = after.next })
keep_rows before (panic, after) = (panic, record before { next = after.next })

keep_rows-fails :
    {A : Type 0} (before : Memory) (x : Result A × Memory)
    → IsFailure (keep_rows before x).0
    → SameRows tables before (keep_rows before x).1
keep_rows-fails before (ok a, after) h = absurd h
keep_rows-fails before (err e, after) h = record {
  users = refl;
  posts = refl;
  relationships = refl;
}
keep_rows-fails before (panic, after) h = record {
  users = refl;
  posts = refl;
  relationships = refl;
}

unfoldable pub memory : Gorm Memory
unfolding select first take cut apply_sets
memory = record {
  first_user = λ c m. first (select (user_holds c) m.users);
  first_user_with_recent_posts = λ i m. first (select (user_holds (id_is i)) m.users);
  find_last_users = λ n m. ok (take n m.users);
  count_users = λ m. ok (pos (length m.users));
  insert_user = λ u m. (ok u, record m { users = m.users ++ u ∷ [] });
  update_user = λ u sets m. (ok tt, m);
  first_post = λ cs m. first (select (conds_hold cs) m.posts);
  find_posts = λ q m. ok (cut q.limit (select (conds_hold q.conds) m.posts));
  count_posts = λ cs m. ok (pos (length (select (conds_hold cs) m.posts)));
  pluck_sort_seconds = λ cs m. ok [];
  count_by_weekday = λ cs m. ok [];
  count_by_kind = λ m. ok [];
  sum_duration = λ cs m. ok (pos 0);
  insert_post = λ p m. (ok p, record m { posts = m.posts ++ p ∷ [] });
  update_post = λ p updates m. (
    ok tt,
    record m {
      posts =
          map (λ q. if int_eq q.id p.id then written (sets_of updates) (pos m.next) q else q)
            m.posts;
    },
  );
  clear_relationships_as_source = λ p m. (
    ok tt,
    record m { relationships = select (λ r. not (int_eq r.source_post_id p.id)) m.relationships },
  );
  clear_relationships_as_target = λ p m. (
    ok tt,
    record m { relationships = select (λ r. not (int_eq r.target_post_id p.id)) m.relationships },
  );
  append_relationship_as_source =
      λ p r m. (ok tt, record m { relationships = m.relationships ++ r ∷ [] });
  transaction = λ A body m. keep_rows m (body m);
  generate = λ m. (pos (suc m.next), record m { next = suc m.next });
  to_lower = λ text. text;
  make_slug = λ text. text;
  featured_names = λ text. "ghost" ∷ [];
}

keep_rows-ok :
    {A : Type 0} (before : Memory) (x : Result A × Memory) (a : A)
    → (keep_rows before x).0 ≡ ok a
    → (x.0 ≡ ok a) × SameRows tables x.1 (keep_rows before x).1
keep_rows-ok before (ok b, after) a h = (h, SameRows-refl tables after)
keep_rows-ok before (err e, after) a h = cc
keep_rows-ok before (panic, after) a h = cc

keep_rows-err :
    {A : Type 0} (before : Memory) (x : Result A × Memory) (e : Error)
    → x.0 ≡ err e
    → (keep_rows before x).0 ≡ err e
keep_rows-err before (ok b, after) e h = cc
keep_rows-err before (err d, after) e h = h
keep_rows-err before (panic, after) e h = cc

keep_rows-panic :
    {A : Type 0} (before : Memory) (x : Result A × Memory)
    → x.0 ≡ panic
    → (keep_rows before x).0 ≡ panic
keep_rows-panic before (ok b, after) h = cc
keep_rows-panic before (err d, after) h = cc
keep_rows-panic before (panic, after) h = refl

pub memory-IsGorm : IsGorm tables memory
unfolding memory
memory-IsGorm = record {
  first_post_holds = λ cs s p e.
      first-holds (λ p. conds_hold cs p ≡ true) _ p (select-All (conds_hold cs) s.posts) e;
  find_posts_hold = λ q s ps e.
      subst (All (λ p. conds_hold q.conds p ≡ true)) (ok_inj e)
        (cut-All _ q.limit _ (select-All (conds_hold q.conds) s.posts));
  find_posts_limit =
      λ q limit s ps e h. subst (λ xs. length xs ≤ limit) (ok_inj h) (length-cut q.limit limit _ e);
  find_last_users_limit =
      λ limit s us h. subst (λ xs. length xs ≤ limit) (ok_inj h) (length-take limit s.users);
  first_user_like =
      λ q s u e. first-holds (λ u. user_like q u ≡ true) _ u (select-All (user_like q) s.users) e;
  generate_rows = λ s. record { users = refl; posts = refl; relationships = refl };
  insert_post_fails = λ p s h. absurd h;
  transaction_err = λ A m s e h. keep_rows-err s (m s) e h;
  transaction_panic = λ A m s h. keep_rows-panic s (m s) h;
  transaction_rollback = λ A m s h. keep_rows-fails s (m s) h;
  transaction_ok = λ A m s a h. keep_rows-ok s (m s) a h;
}
