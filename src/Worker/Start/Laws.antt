-- ===== src/Worker/Start/Laws.antt =====
-- How the worker ends.
use sgtm.Common.{◌≡◌, refl, List, [], ◌∷◌}
use sgtm.Common.{ap}
use sgtm.Db.{Gorm, Result, ok, err, panic}
use sgtm.Worker.Migrations.{track_migrations}
use sgtm.Worker.Loop.{processing_loop}
use sgtm.Worker.Start.{
  Wake, timer, done, Progress, waiting, returned, returned_error, panicked, behind,
  start_processing_worker,
}

module _ {S : Type 0} (g : Gorm S) where
  abbrev round_of : S → Result (Unit {0}) × S
  round_of s = processing_loop g (track_migrations g) s

  -- Rounds that went well, one behind the other.
  pub data Rounds : S → S → Type 0 where
    none_yet : {s : S} → Rounds s s
    one_more : {s u v : S} → (round_of s).0 ≡ ok tt → (round_of s).1 ≡ u → Rounds u v → Rounds s v

  -- Some rounds went well, and then one ended like this.
  pub record EndsIn (r : Result (Unit {0})) (s s' : S) : Type 0 where
    pub last : S
    pub before : Rounds s last
    pub result : (round_of last).0 ≡ r
    pub database : (round_of last).1 ≡ s'

  abbrev pub Came : Progress × S → S → Type 0
  Came (waiting, s') s = EndsIn (ok tt) s s'
  Came (returned, s') s = EndsIn (ok tt) s s'
  Came (returned_error e, s') s = EndsIn (err e) s s'
  Came (panicked, s') s = EndsIn panic s s'

  now : (r : Result (Unit {0})) (s s' : S) → round_of s ≡ (r, s') → EndsIn r s s'
  now r s s' e = record {
    last = s;
    before = none_yet;
    result = ap (λ (x : Result (Unit {0}) × S). x.0) e;
    database = ap (λ (x : Result (Unit {0}) × S). x.1) e;
  }

  later :
      (r : Result (Unit {0})) (s u s' : S) → round_of s ≡ (ok tt, u) → EndsIn r u s' → EndsIn r s s'
  later r s u s' e h = record {
    last = h.last;
    before =
        one_more (ap (λ (x : Result (Unit {0}) × S). x.0) e)
          (ap (λ (x : Result (Unit {0}) × S). x.1) e) h.before;
    result = h.result;
    database = h.database;
  }

  Came-later : (p : Progress × S) (s u : S) → round_of s ≡ (ok tt, u) → Came p u → Came p s
  Came-later (waiting, s') s u e h = later _ s u s' e h
  Came-later (returned, s') s u e h = later _ s u s' e h
  Came-later (returned_error f, s') s u e h = later _ s u s' e h
  Came-later (panicked, s') s u e h = later _ s u s' e h

  first_round :
      (s : S) (rest : S → Progress × S) (x : Result (Unit {0}) × S)
      → round_of s ≡ x
      → ((s' : S) → round_of s ≡ (ok tt, s') → Came (rest s') s)
      → Came (behind x rest) s
  first_round s rest (ok tt, s') e h = h s' e
  first_round s rest (err f, s') e h = now (err f) s s' e
  first_round s rest (panic, s') e h = now panic s s' e

  -- Whatever wakes the worker, it has come to where it is by rounds that all went well, but for the
  -- last of them: while it waits, or has returned without an error, that one went well too; where
  -- it has returned an error, that is the error of the last round; and where it has panicked, the
  -- last round did. So the first round that fails is the last one.
  pub start_processing_worker-Came :
      (ws : List Wake) (s : S) → Came (start_processing_worker g ws s) s
  unfolding start_processing_worker
  start_processing_worker-Came [] s = first_round s _ (round_of s) refl (λ s' e. now (ok tt) s s' e)
  start_processing_worker-Came (done ∷ ws) s =
      first_round s _ (round_of s) refl (λ s' e. now (ok tt) s s' e)
  start_processing_worker-Came (timer ∷ ws) s =
      first_round s _ (round_of s) refl
        λ s' e. Came-later _ s s' e (start_processing_worker-Came ws s')
