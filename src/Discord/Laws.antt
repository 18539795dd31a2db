-- ===== src/Discord/Laws.antt =====
-- What is left of the bot's connection when it is closed.
use sgtm.Common.{
  ℕ, Bool, true, false, ◌≡◌, refl, ◌∙◌, ap, Option, none, some, List, [], ◌∷◌, if◌then◌else◌,
}
use sgtm.Db.{Error, Result, ok, err, panic}
use sgtm.Opts.{Opts}
use sgtm.Discord.{
  DiscordGo, DiscordDriver, new_discord, Phase, starting, opened, kept, returned, crashed,
  returned_error, opened_by, greeted, with_session, connect, start_discord, closed_with,
  close_discord, Move, go_on, close, moved, moves,
}

-- The connection that a `CloseDiscord` at this point leaves.
abbrev pub Leaves : DiscordDriver → Option ℕ → Type 0
Leaves d connected = (close_discord d).connected ≡ connected

-- Where the bot stands, by how far `StartDiscord` has come.
abbrev pub Stands : Phase × DiscordDriver → Type 0
Stands (starting, d) = (d.session ≡ none) × (d.connected ≡ none)
Stands (opened n, d) = (d.session ≡ none) × (d.connected ≡ some n) × Leaves d (some n)
Stands (kept, d) = (n : ℕ) × (d.session ≡ some n) × Leaves d none
Stands (returned, d) = (n : ℕ) × (d.session ≡ some n) × Leaves d none × (d.is_cancelled ≡ true)
Stands (returned_error e, d) = (d.session ≡ none) × (d.connected ≡ none)
Stands (crashed, d) = (d.session ≡ none) × (d.connected ≡ none)

closed_session : (d : DiscordDriver) (n : ℕ) → d.session ≡ some n → Leaves d none
unfolding close_discord
closed_session d n e = ap (λ (o : Option ℕ). closed_with o d.connected) e

no_session : (d : DiscordDriver) → d.session ≡ none → Leaves d d.connected
unfolding close_discord
no_session d e = ap (λ (o : Option ℕ). closed_with o d.connected) e

module _ (lib : DiscordGo) (opts : Opts) where
  opened_by-Stands :
      (n : ℕ) (e : Option Error) (d : DiscordDriver)
      → d.session ≡ none
      → d.connected ≡ none
      → Stands (opened_by lib opts n e d)
  unfolding opened_by
  opened_by-Stands n none d s c = (s, refl, no_session (record d { connected = some n }) s)
  opened_by-Stands n (some e) d s c = (s, c)

  with_session-Stands :
      (r : Result ℕ) (d : DiscordDriver)
      → d.session ≡ none
      → d.connected ≡ none
      → Stands (with_session lib opts r d)
  unfolding with_session greeted
  with_session-Stands (ok n) d s c = opened_by-Stands n (lib.open_error n) d s c
  with_session-Stands (err e) d s c = (s, c)
  with_session-Stands panic d s c = (s, c)

  waiting-Stands :
      (b : Bool) (d : DiscordDriver) (n : ℕ)
      → d.is_cancelled ≡ b
      → d.session ≡ some n
      → Leaves d none
      → Stands (if b then returned else kept, d)
  waiting-Stands true d n b s l = (n, s, l, b)
  waiting-Stands false d n b s l = (n, s, l)

  go_on-Stands :
      (p : Phase) (d : DiscordDriver) → Stands (p, d) → Stands (start_discord lib opts p d)
  unfolding start_discord connect
  go_on-Stands starting d (s, c) = with_session-Stands (lib.new_session _) d s c
  go_on-Stands (opened n) d (s, c, l) =
      (n, refl, closed_session (record d { session = some n }) n refl)
  go_on-Stands kept d (n, s, l) = waiting-Stands d.is_cancelled d n refl s l
  go_on-Stands returned d h = h
  go_on-Stands crashed d h = h
  go_on-Stands (returned_error e) d h = h

  close-Stands : (p : Phase) (d : DiscordDriver) → Stands (p, d) → Stands (p, close_discord d)
  unfolding close_discord
  close-Stands starting d (s, c) = (s, no_session d s ∙ c)
  close-Stands (opened n) d (s, c, l) = (s, l, no_session (close_discord d) s ∙ l)
  close-Stands kept d (n, s, l) = (n, s, closed_session (close_discord d) n s)
  close-Stands returned d (n, s, l, b) = (n, s, closed_session (close_discord d) n s, refl)
  close-Stands crashed d (s, c) = (s, no_session d s ∙ c)
  close-Stands (returned_error e) d (s, c) = (s, no_session d s ∙ c)

  moved-Stands : (m : Move) (x : Phase × DiscordDriver) → Stands x → Stands (moved lib opts m x)
  unfolding moved
  moved-Stands go_on (p, d) h = go_on-Stands p d h
  moved-Stands close (p, d) h = close-Stands p d h

  from : (ms : List Move) (x : Phase × DiscordDriver) → Stands x → Stands (moves lib opts ms x)
  unfolding moves
  from [] x h = h
  from (m ∷ ms) x h = from ms (moved lib opts m x) (moved-Stands m x h)

  -- However the steps of `StartDiscord` and calls of `CloseDiscord` follow each other: a close
  -- leaves no connection open once the session is kept, and none is open before one is opened or
  -- where the start has failed; but a close that comes when the session is opened and not yet kept
  -- leaves it open. The start returns without an error only when the context is cancelled.
  pub moves-Stands : (ms : List Move) → Stands (moves lib opts ms (starting, new_discord))
  moves-Stands ms = from ms (starting, new_discord) (refl, refl)
