-- ===== src/Examples/Worker.antt =====
-- A migration that goes well and one that fails.
use sgtm.Common.{
  Bool, true, false, not, ◌||◌, str_eq, All, if◌then◌else◌, ◌≡◌, ◌≢◌, refl, inl, inr, List, [], ◌∷◌,
}
use sgtm.Common.Int.{pos}
use sgtm.Pb.{Post, provider_eq, sound_cloud}
use sgtm.Db.{PostUpdates, Error, ok, err, panic, failed, pure, raise, error_text, IsFailure}
use sgtm.Db.Laws.{SameRows}
use sgtm.Db.Memory.{Memory, memory, memory-IsGorm, tables}
use sgtm.Db.MemoryWrites.{memory-WritesRows}
use sgtm.Worker.{
  Migration, migrate, processing_loop, track_migrations, genre_to_tags, title_to_provider_title,
}
use sgtm.Worker.Settles.{track_round-Settled}
use sgtm.Worker.Laws.{Outcome, Raises, IsSettled, migrate-Outcome, processing_loop_fails}
use sgtm.Examples.Sample.{rows, song}

abbrev good : Migration Memory
good p = pure tt

abbrev bad : Migration Memory
bad p = raise (failed "bad")

abbrev both : List (Migration Memory)
both = good ∷ bad ∷ []

migrate-Outcome_example : Outcome both 1 song rows (migrate both 1 song rows)
migrate-Outcome_example = migrate-Outcome both 1 song rows

abbrev half_way : Post
half_way = record song { processing_version = pos 1; processing_error = "bad" }

fails_second : (migrate both 1 song rows).0 ≡ ok half_way
unfolding migrate
fails_second = refl

abbrev breaking : Migration Memory
breaking p s = (panic, s)

breaks : IsFailure (processing_loop memory (breaking ∷ []) rows).0
unfolding processing_loop memory migrate
breaks = tt

processing_loop_fails_example : SameRows tables rows (processing_loop memory (breaking ∷ []) rows).1
processing_loop_fails_example =
    processing_loop_fails tables memory memory-IsGorm (breaking ∷ []) rows breaks

never_raises :
    (b : Bool) (p : Post) (updates : PostUpdates) (s : Memory) (e : Error)
    → ((if b then pure tt else memory.update_post p updates) s).0 ≢ err e
unfolding memory
never_raises true p updates s e h = cc
never_raises false p updates s e h = cc

no_error : (e : Error) → Raises (track_migrations memory) e → error_text e ≢ ""
unfolding track_migrations genre_to_tags title_to_provider_title
no_error e (inl (p, s, h)) =
    absurd (never_raises (not (str_eq p.tags "") || str_eq p.genre "") p _ s e h)
no_error e (inr (inl (p, s, h))) = absurd (
    never_raises (not (provider_eq p.provider sound_cloud) || not (str_eq p.provider_title "")) p _
      s e h)
no_error e (inr (inr h)) = absurd h

goes_well : (processing_loop memory (track_migrations memory) rows).0 ≡ ok tt
unfolding processing_loop memory migrate track_migrations
goes_well = refl

track_round-Settled_example :
    All (IsSettled 2) (processing_loop memory (track_migrations memory) rows).1.posts
track_round-Settled_example =
    track_round-Settled tables memory memory-IsGorm memory-WritesRows rows no_error goes_well
