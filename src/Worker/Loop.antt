-- ===== src/Worker/Loop.antt =====
-- One round of the worker (`processingLoop`), over the migrations that it is given.
use sgtm.Common.{ℕ, ◌+◌, none, String, List, [], ◌∷◌, length}
use sgtm.Common.Int.{pos}
use sgtm.Pb.{Post, track}
use sgtm.Db.{
  Gorm, Action, Result, ok, err, panic, pure, query, raise, ◌>>=◌, ◌>>◌, error_text, failed, fields,
  no_processing_error, processing_version_below, PostField, PostQuery, unordered, by_map, PostSet,
  PostUpdates,
}
use sgtm.Common.{◌<>◌}
use sgtm.Worker.Migrations.{Migration}

-- The tracks without an error whose version is below the last.
unfoldable pub outdated_query : ℕ → PostQuery
outdated_query last = record {
  conds =
      fields (PostField.kind track ∷ []) ∷ no_processing_error ∷ processing_version_below last ∷ [];
  order = unordered;
  limit = none;
}

abbrev pub state_updates : Post → PostUpdates
state_updates p = by_map (
    PostSet.processing_version p.processing_version
    ∷ PostSet.processing_error p.processing_error
    ∷ [])

module _ {S : Type 0} where
  -- How one migration ended: with its version noted, or with its error noted and the rest left out.
  unfoldable pub noted : Result (Unit {0}) → ℕ → Post → (Post → Action S Post) → Action S Post
  noted (ok done) version p rest = rest (record p { processing_version = pos version })
  noted (err e) version p rest = pure (record p { processing_error = error_text e })
  noted panic version p rest = λ s. (panic, s)

  -- The migrations of one entry, from a version on. All of them run, whatever the entry's version.
  unfoldable pub migrate : List (Migration S) → ℕ → Post → Action S Post
  unfolding noted
  migrate [] version p s = (ok p, s)
  migrate (m ∷ ms) version p s =
      let (r, s') = m p s in noted r version p (λ q. migrate ms (version + 1) q) s'

module _ {S : Type 0} (g : Gorm S) where
  unfoldable pub saved : Result (Unit {0}) → Action S (Unit {0})
  saved (ok done) = pure tt
  saved (err e) = raise (failed ("failed to save processing state: " <> error_text e))
  saved panic = λ s. (panic, s)

  -- One entry: its migrations, then its new state.
  unfoldable pub process_entry : List (Migration S) → Post → Action S (Unit {0})
  unfolding saved
  process_entry ms p = do
    q ← migrate ms 1 p
    (λ s. let (r, s') = g.update_post q (state_updates q) s in saved r s')

  unfoldable pub process_entries : List (Migration S) → List Post → Action S (Unit {0})
  unfolding process_entry
  process_entries ms [] = pure tt
  process_entries ms (p ∷ ps) = process_entry ms p >> process_entries ms ps

  abbrev pub wrap : {A : Type 0} → String → Result A → Result A
  wrap prefix (ok a) = ok a
  wrap prefix (err e) = err (failed (prefix <> ": " <> error_text e))
  wrap prefix panic = panic

  unfoldable pub processing_loop : List (Migration S) → Action S (Unit {0})
  unfolding outdated_query process_entries
  processing_loop ms = do
    outdated ← query (λ s.
        wrap "failed to fetch tracks that need to be processed"
          (g.find_posts (outdated_query (length ms)) s))
    (λ s.
        let (r, s') = g.transaction (Unit {0}) (process_entries ms outdated) s in
        (wrap "failed to run migration" r, s'))
