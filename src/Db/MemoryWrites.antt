-- ===== src/Db/MemoryWrites.antt =====
-- The database in memory finds every row that meets the conditions, and writes the rows with an id.
use mathlib.Core.Path.{subst}
use sgtm.Common.{
  ◌≡◌, refl, sym, ap, ◌∙◌, inl, inr, Bool, true, false, none, Option, List, [], ◌∷◌, All,
  if◌then◌else◌,
}
use sgtm.Common.Int.{pos}
use sgtm.Pb.{Post}
use sgtm.Db.Outcome.{ok_inj}
use sgtm.Db.Query.{conds_hold}
use sgtm.Db.Selection.{select, cut}
use sgtm.Db.Memory.{memory, tables}
use sgtm.Db.Writes.{HasRow, WritesRows}

module _ (test : Post → Bool) where
  -- Every row of the first list that the test selects is among the second.
  abbrev Finds : List Post → List Post → Type 0
  Finds rows ps = All (λ row. test row ≡ true → HasRow row.id ps) rows

  Finds-more : (x : Post) (rows ps : List Post) → Finds rows ps → Finds rows (x ∷ ps)
  Finds-more x [] ps h = tt
  Finds-more x (row ∷ rows) ps h = (λ e. inr (h.0 e), Finds-more x rows ps h.1)

  select-Finds : (rows : List Post) → Finds rows (select test rows)
  unfolding select
  select-Finds [] = tt
  select-Finds (row ∷ rows) = by_test (test row) refl (select-Finds rows)
    where
      by_test :
          (b : Bool)
          → test row ≡ b
          → Finds rows (select test rows)
          → Finds (row ∷ rows) (if b then row ∷ select test rows else select test rows)
      by_test true e h = (λ _. inl refl, Finds-more row rows (select test rows) h)
      by_test false e h = (λ k. absurd (never e k), h)
        where
          never : test row ≡ false → test row ≡ true → ⊥
          never e k = cc

cut-none : (ps : List Post) → cut none ps ≡ ps
unfolding cut
cut-none ps = refl

pub memory-WritesRows : WritesRows tables memory
unfolding memory
memory-WritesRows = record {
  find_posts_all = λ q s ps unlimited e.
      let all = select (conds_hold q.conds) s.posts in
      let same : all ≡ ps =
        sym (cut-none all) ∙ ap (λ (o : Option _). cut o all) (sym unlimited) ∙ ok_inj e in
      subst (Finds (conds_hold q.conds) s.posts) same (select-Finds (conds_hold q.conds) s.posts);
  update_post_ok = λ p sets s e. (pos s.next, refl);
  update_post_fails = λ p updates s h. absurd h;
}
