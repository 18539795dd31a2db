-- ===== src/Worker/Start.antt =====
-- `StartProcessingWorker`: round after round, by what wakes the worker between two of them.
pub mod Laws
use sgtm.Common.{String, List, [], ◌∷◌}
use sgtm.Db.{Gorm, Error, Result, ok, err, panic}
use sgtm.Worker.Migrations.{track_migrations}
use sgtm.Worker.Loop.{processing_loop}

-- The two cases of the `select`: the timer, and the end of the service's context.
pub data Wake : Type 0 where
  timer done : Wake

-- How far the worker has come: it waits for the next event, it has returned nil or an error, or it
-- has panicked.
pub data Progress : Type 0 where
  waiting returned : Progress
  returned_error : Error → Progress
  panicked : Progress

-- What follows a round, by how the round ended.
abbrev pub behind : {S : Type 0} → Result (Unit {0}) × S → (S → Progress × S) → Progress × S
behind (ok d, s) rest = rest s
behind (err e, s) rest = (returned_error e, s)
behind (panic, s) rest = (panicked, s)

module _ {S : Type 0} (g : Gorm S) where
  unfoldable pub start_processing_worker : List Wake → S → Progress × S
  start_processing_worker [] s =
      behind (processing_loop g (track_migrations g) s) (λ s'. (waiting, s'))
  start_processing_worker (done ∷ ws) s =
      behind (processing_loop g (track_migrations g) s) (λ s'. (returned, s'))
  start_processing_worker (timer ∷ ws) s =
      behind (processing_loop g (track_migrations g) s) (λ s'. start_processing_worker ws s')
