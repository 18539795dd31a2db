-- ===== src/Worker/Settles.antt =====
-- What a round of the worker that goes well leaves to do.
use mathlib.Core.Path.{subst}
use sgtm.Common.{
  String, ℕ, suc, ◌≡◌, ◌≢◌, refl, sym, inl, inr, Bool, true, false, List, [], ◌∷◌, length, All,
  if◌then◌else◌, not, str_eq, ◌||◌,
}
use sgtm.Common.Int.{int_eq}
use sgtm.Common.Preorder.{IsPreorder}
use sgtm.Pb.{Post, provider_eq, sound_cloud}
use sgtm.Db.{
  Gorm, Result, Error, ok, err, panic, Action, PostSet, by_map, pure, conds_hold, error_text,
  IsFailure, continue,
}
use sgtm.Db.Laws.{Tables, IsGorm, SameRows}
use sgtm.Db.Writes.{apply_sets, HasRow, WritesRows}
use sgtm.Worker.Migrations.{Migration, genre_to_tags, title_to_provider_title, track_migrations}
use sgtm.Worker.Loop.{
  migrate, saved, process_entry, process_entries, outdated_query, state_updates, wrap,
  processing_loop,
}
use sgtm.Worker.Laws.{Raises, migrate-Outcome, Outcome, IsSettled}
use sgtm.Worker.Respects.{AllRespect, migrate-respects}
use sgtm.Worker.Marks.{
  IsLeft, All-rows, IsHarmless, written-IsLeft, IsMarked, Outcome-IsMarked, marked-IsLeft,
}

module _ {S : Type 0} (t : Tables S) (g : Gorm S) (law : IsGorm t g) (writes : WritesRows t g) where
  -- Every row is settled, or one of these entries.
  abbrev Left : ℕ → List Post → S → Type 0
  Left n ps s = All (IsLeft n ps) (t.posts s)

  abbrev KeepsLeft : ℕ → List Post → S → S → Type 0
  KeepsLeft n ps s s' = Left n ps s → Left n ps s'

  order : (n : ℕ) (ps : List Post) → IsPreorder (KeepsLeft n ps)
  order n ps = record { same = λ s h. h; trans = λ s u v f k h. k (f h) }

  rows_same : (n : ℕ) (ps : List Post) (s s' : S) → SameRows t s s' → KeepsLeft n ps s s'
  rows_same n ps s s' same h = subst (All (IsLeft n ps)) (sym same.posts) h

  harmless-KeepsLeft :
      (n : ℕ) (ps : List Post) (p : Post) (sets : List PostSet) (s : S)
      → IsHarmless sets
      → KeepsLeft n ps s (g.update_post p (by_map sets) s).1
  harmless-KeepsLeft n ps p sets s harmless h = by_result (g.update_post p (by_map sets) s).0 refl
    where
      by_result :
          (r : Result (Unit {0}))
          → (g.update_post p (by_map sets) s).0 ≡ r
          → Left n ps (g.update_post p (by_map sets) s).1
      by_result (ok tt) e =
          let (now, rows) = writes.update_post_ok p sets s e in
          subst (All (IsLeft n ps)) (sym rows) (
            All-rows (IsLeft n ps) (IsLeft n ps) _ (t.posts s)
              (λ row. written-IsLeft n ps sets now (int_eq row.id p.id) row harmless) h)
      by_result (err x) e =
          rows_same n ps s _
            (writes.update_post_fails p (by_map sets) s (subst IsFailure (sym e) tt)) h
      by_result panic e =
          rows_same n ps s _
            (writes.update_post_fails p (by_map sets) s (subst IsFailure (sym e) tt)) h

  unless-KeepsLeft :
      (n : ℕ) (ps : List Post) (b : Bool) (p : Post) (sets : List PostSet) (s : S)
      → IsHarmless sets
      → KeepsLeft n ps s ((if b then pure tt else g.update_post p (by_map sets)) s).1
  unless-KeepsLeft n ps true p sets s harmless h = h
  unless-KeepsLeft n ps false p sets s harmless h = harmless-KeepsLeft n ps p sets s harmless h

  track_migrations-KeepLeft :
      (n : ℕ) (ps : List Post) → AllRespect (KeepsLeft n ps) (track_migrations g)
  unfolding track_migrations genre_to_tags title_to_provider_title apply_sets outdated_query
  track_migrations-KeepLeft n ps = (
    λ p s.
        unless-KeepsLeft n ps (not (str_eq p.tags "") || str_eq p.genre "") p
          (PostSet.tags p.genre ∷ PostSet.genre "" ∷ []) s (λ n now row. (refl, refl)),
    (
      λ p s.
          unless-KeepsLeft n ps
            (not (provider_eq p.provider sound_cloud) || not (str_eq p.provider_title "")) p
            (PostSet.provider_title p.title ∷ PostSet.title "" ∷ []) s (λ n now row. (refl, refl)),
      tt,
    ),
  )

  -- The state of a marked entry is written.
  state-Left :
      (n : ℕ) (p q : Post) (ps : List Post) (s : S)
      → q.id ≡ p.id
      → IsMarked n q
      → (g.update_post q (state_updates q) s).0 ≡ ok tt
      → Left n (p ∷ ps) s
      → Left n ps (g.update_post q (state_updates q) s).1
  state-Left n p q ps s same marked e h =
      let (now, rows) = writes.update_post_ok q _ s e in
      subst (All (IsLeft n ps)) (sym rows) (
        All-rows (IsLeft n (p ∷ ps)) (IsLeft n ps) _ (t.posts s)
          (λ row. marked-IsLeft n p q ps now (int_eq row.id q.id) row refl same marked) h)

  saved-Left :
      (n : ℕ) (p q : Post) (ps : List Post) (s : S) (r : Result (Unit {0}))
      → (g.update_post q (state_updates q) s).0 ≡ r
      → q.id ≡ p.id
      → IsMarked n q
      → Left n (p ∷ ps) s
      → (saved g r (g.update_post q (state_updates q) s).1).0 ≡ ok tt
      → Left n ps (saved g r (g.update_post q (state_updates q) s).1).1
  unfolding saved
  saved-Left n p q ps s (ok tt) e same marked h good = state-Left n p q ps s same marked e h
  saved-Left n p q ps s (err x) e same marked h good = cc
  saved-Left n p q ps s panic e same marked h good = cc

  module _ (m : Migration S) (ms : List (Migration S))
      (texts : (e : Error) → Raises (m ∷ ms) e → error_text e ≢ "")
      (keep : (ps : List Post) → AllRespect (KeepsLeft (suc (length ms)) ps) (m ∷ ms)) where
    abbrev last : ℕ
    last = suc (length ms)

    abbrev state_step : Post → Action S (Unit {0})
    state_step q s = let (r, s') = g.update_post q (state_updates q) s in saved g r s'

    behind_migrations :
        (p : Post) (ps : List Post) (s0 : S) (x : Result Post × S)
        → Outcome (m ∷ ms) 1 p s0 x
        → Left last (p ∷ ps) x.1
        → (continue x state_step).0 ≡ ok tt
        → Left last ps (continue x state_step).1
    behind_migrations p ps s0 (ok q, s) out h good =
        let (marked, same) = Outcome-IsMarked m ms p q s0 s texts out in
        saved-Left last p q ps s (g.update_post q (state_updates q) s).0 refl same marked h good
    behind_migrations p ps s0 (err e, s) out h good = absurd out
    behind_migrations p ps s0 (panic, s) out h good = cc

    process_entry-Left :
        (p : Post) (ps : List Post) (s : S)
        → Left last (p ∷ ps) s
        → (process_entry g (m ∷ ms) p s).0 ≡ ok tt
        → Left last ps (process_entry g (m ∷ ms) p s).1
    unfolding process_entry
    process_entry-Left p ps s h good =
        behind_migrations p ps s (migrate (m ∷ ms) 1 p s) (migrate-Outcome (m ∷ ms) 1 p s)
          (migrate-respects (order last (p ∷ ps)) (m ∷ ms) (keep (p ∷ ps)) 1 p s h) good

    process_entries-Left :
        (ps : List Post) (s : S)
        → Left last ps s
        → (process_entries g (m ∷ ms) ps s).0 ≡ ok tt
        → Left last [] (process_entries g (m ∷ ms) ps s).1
    unfolding process_entries
    process_entries-Left [] s h good = h
    process_entries-Left (p ∷ ps) s h good =
        behind_entry (process_entry g (m ∷ ms) p s) (process_entry-Left p ps s h)
          (λ s'. process_entries-Left ps s') good
      where
        behind_entry :
            (x : Result (Unit {0}) × S)
            → (x.0 ≡ ok tt → Left last ps x.1)
            → ((s' : S)
                → Left last ps s'
                → (process_entries g (m ∷ ms) ps s').0 ≡ ok tt
                → Left last [] (process_entries g (m ∷ ms) ps s').1)
            → (continue x (λ _. process_entries g (m ∷ ms) ps)).0 ≡ ok tt
            → Left last [] (continue x (λ _. process_entries g (m ∷ ms) ps)).1
        behind_entry (ok tt, s') h rest good = rest s' (h refl) good
        behind_entry (err e, s') h rest good = cc
        behind_entry (panic, s') h rest good = cc

    -- The entries that the round finds are all that is left.
    found-Left :
        (s : S) (ps : List Post) → g.find_posts (outdated_query last) s ≡ ok ps → Left last ps s
    unfolding outdated_query
    found-Left s ps e =
        all_left (t.posts s) (writes.find_posts_all (outdated_query last) s ps refl e)
      where
        one_left :
            (b : Bool) (row : Post)
            → conds_hold (outdated_query last).conds row ≡ b
            → (conds_hold (outdated_query last).conds row ≡ true → HasRow row.id ps)
            → IsLeft last ps row
        one_left true row e h = inr (h e)
        one_left false row e h = inl e

        all_left :
            (rows : List Post)
            → All (λ row. conds_hold (outdated_query last).conds row ≡ true → HasRow row.id ps) rows
            → All (IsLeft last ps) rows
        all_left [] h = tt
        all_left (row ∷ rows) h =
            (one_left (conds_hold (outdated_query last).conds row) row refl h.0, all_left rows h.1)

    nothing_left : (rows : List Post) → All (IsLeft last []) rows → All (IsSettled last) rows
    nothing_left [] h = tt
    nothing_left (row ∷ rows) h = (settled row h.0, nothing_left rows h.1)
      where
        settled : (row : Post) → IsLeft last [] row → IsSettled last row
        settled row (inl done) = done
        settled row (inr there) = absurd there

    wrap_ok :
        {A : Type 0} (prefix : String) (r : Result A) (a : A) → wrap g prefix r ≡ ok a → r ≡ ok a
    wrap_ok prefix (ok b) a h = h
    wrap_ok prefix (err e) a h = cc
    wrap_ok prefix panic a h = cc

    processing_loop-Settled :
        (s : S)
        → (processing_loop g (m ∷ ms) s).0 ≡ ok tt
        → All (IsSettled last) (t.posts (processing_loop g (m ∷ ms) s).1)
    unfolding processing_loop
    processing_loop-Settled s good = by_found (g.find_posts (outdated_query last) s) refl good
      where
        body : List Post → Action S (Unit {0})
        body ps = process_entries g (m ∷ ms) ps

        rest : List Post → Action S (Unit {0})
        rest ps s' =
            let (r, s'') = g.transaction (Unit {0}) (body ps) s' in
            (wrap g "failed to run migration" r, s'')

        by_found :
            (r : Result (List Post))
            → g.find_posts (outdated_query last) s ≡ r
            → (continue (wrap g "failed to fetch tracks that need to be processed" r, s) rest).0
              ≡ ok tt
            → All (IsSettled last) (
                t.posts
                  (continue
                    (wrap g "failed to fetch tracks that need to be processed" r, s)
                    rest).1)
        by_found (ok ps) e k =
            let (went, same) =
              law.transaction_ok (Unit {0}) (body ps) s tt
                (wrap_ok "failed to run migration" _ tt k) in
            subst (All (IsSettled last)) (sym same.posts)
              (nothing_left _ (process_entries-Left ps s (found-Left s ps e) went))
        by_found (err x) e k = cc
        by_found panic e k = cc

  -- Over a database that meets `IsGorm` and `WritesRows`, and if no error of a migration has an
  -- empty text: behind a round of the worker that succeeds no row is left that the next round's
  -- query would find, which asks for tracks below the version of the last migration and without an
  -- error.
  pub track_round-Settled :
      (s : S)
      → ((e : Error) → Raises (track_migrations g) e → error_text e ≢ "")
      → (processing_loop g (track_migrations g) s).0 ≡ ok tt
      → All (IsSettled 2) (t.posts (processing_loop g (track_migrations g) s).1)
  unfolding track_migrations
  track_round-Settled s texts good =
      processing_loop-Settled (genre_to_tags g) (title_to_provider_title g ∷ []) texts
        (track_migrations-KeepLeft 2) s good
