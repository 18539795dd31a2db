-- ===== src/Worker/Respects.antt =====
-- What gorm's update of a post and its transactions respect, a round of the worker respects.
use sgtm.Common.{ℕ, ◌+◌, List, [], ◌∷◌, length, if◌then◌else◌, Bool, true, false, str_eq, not, ◌||◌}
use sgtm.Common.Preorder.{IsPreorder}
use sgtm.Pb.{Post, provider_eq, sound_cloud}
use sgtm.Db.{Gorm, Result, ok, err, panic, Action, PostUpdates, PostSet, by_map, pure}
use sgtm.Db.Respects.{continue-respects}
use sgtm.Worker.Migrations.{Migration, genre_to_tags, title_to_provider_title, track_migrations}
use sgtm.Worker.Loop.{
  noted, migrate, saved, process_entry, process_entries, outdated_query, state_updates, wrap,
  processing_loop,
}

-- The calls of gorm that a round makes.
pub record Updates {S : Type 0} (R : S → S → Type 0) (g : Gorm S) : Type 1 where
  pub update_post : (p : Post) (u : PostUpdates) (s : S) → R s (g.update_post p u s).1
  pub transaction :
      (A : Type 0) (m : Action S A) (s : S) → R s (m s).1 → R s (g.transaction A m s).1

-- Migrations that all respect a relation.
abbrev pub AllRespect : {S : Type 0} (R : S → S → Type 0) → List (Migration S) → Type 0
AllRespect R [] = Unit
AllRespect R (m ∷ ms) = ((p : Post) (s : _) → R s (m p s).1) × AllRespect R ms

module _ {S : Type 0} {R : S → S → Type 0} (order : IsPreorder R) where
  noted-respects :
      (r : Result (Unit {0})) (v : ℕ) (p : Post) (rest : Post → Action S Post) (s : S)
      → ((q : Post) → R s (rest q s).1)
      → R s (noted r v p rest s).1
  unfolding noted
  noted-respects (ok done) v p rest s h = h _
  noted-respects (err e) v p rest s h = order.same s
  noted-respects panic v p rest s h = order.same s

  pub migrate-respects :
      (ms : List (Migration S))
      → AllRespect R ms
      → (v : ℕ) (p : Post) (s : S) → R s (migrate ms v p s).1
  unfolding migrate
  migrate-respects [] all v p s = order.same s
  migrate-respects (m ∷ ms) all v p s =
      let (r, s') = m p s in
      order.trans s s' _ (all.0 p s)
        (noted-respects r v p _ s' (λ q. migrate-respects ms all.1 (v + 1) q s'))

module _ {S : Type 0} {R : S → S → Type 0} (order : IsPreorder R) (g : Gorm S)
    (law : Updates R g) where
  -- An update that a test may leave out.
  unless-respects :
      (b : Bool) (p : Post) (u : PostUpdates) (s : S)
      → R s ((if b then pure tt else g.update_post p u) s).1
  unless-respects true p u s = order.same s
  unless-respects false p u s = law.update_post p u s

  track_migrations-respect : AllRespect R (track_migrations g)
  unfolding track_migrations genre_to_tags title_to_provider_title
  track_migrations-respect = (
    λ p s.
        unless-respects (not (str_eq p.tags "") || str_eq p.genre "") p
          (by_map (PostSet.tags p.genre ∷ PostSet.genre "" ∷ [])) s,
    (
      λ p s.
          unless-respects
            (not (provider_eq p.provider sound_cloud) || not (str_eq p.provider_title "")) p
            (by_map (PostSet.provider_title p.title ∷ PostSet.title "" ∷ [])) s,
      tt,
    ),
  )

  saved-respects : (r : Result (Unit {0})) (s : S) → R s (saved g r s).1
  unfolding saved
  saved-respects (ok done) s = order.same s
  saved-respects (err e) s = order.same s
  saved-respects panic s = order.same s

  process_entries-respects :
      (ms : List (Migration S))
      → AllRespect R ms
      → (ps : List Post) (s : S) → R s (process_entries g ms ps s).1
  unfolding process_entries process_entry
  process_entries-respects ms all [] s = order.same s
  process_entries-respects ms all (p ∷ ps) s =
      continue-respects order s (process_entry g ms p s) _
        (continue-respects order s (migrate ms 1 p s) _ (migrate-respects order ms all 1 p s)
          λ q s1.
            order.trans s1 _ _ (law.update_post q (state_updates q) s1)
              (saved-respects (g.update_post q (state_updates q) s1).0 _))
        λ _ s2. process_entries-respects ms all ps s2

  round-respects :
      (ms : List (Migration S)) → AllRespect R ms → (s : S) → R s (processing_loop g ms s).1
  unfolding processing_loop
  round-respects ms all s =
      continue-respects order s (wrap g _ (g.find_posts (outdated_query (length ms)) s), s) _
        (order.same s)
        λ ps s1.
          law.transaction _ (process_entries g ms ps) s1 (process_entries-respects ms all ps s1)

  pub processing_loop-respects : (s : S) → R s (processing_loop g (track_migrations g) s).1
  processing_loop-respects s = round-respects (track_migrations g) track_migrations-respect s
