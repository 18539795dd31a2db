-- ===== src/Discord.antt =====
-- pkg/sgtm/driver_discord.go: the bot that logs what it reads. `StartDiscord` runs beside
-- `CloseDiscord`; the parts between which the other may run are steps.
pub mod Laws
use sgtm.Common.{
  ℕ, Bool, true, false, ◌<>◌, ◌||◌, not, Option, none, some, String, List, [], ◌∷◌, if◌then◌else◌,
  str_eq,
}
use sgtm.Db.{Error, Result, ok, err, panic}
use sgtm.Opts.{Opts}

-- Package discordgo: a session for a token, a message to a channel, and the opening of a session.
pub record DiscordGo : Type 0 where
  pub new_session : String → Result ℕ
  pub send_error : ℕ → String → String → Option Error
  pub open_error : ℕ → Option Error

-- `discordDriver`, the sessions whose connection is open, and whether the service's context is
-- cancelled.
pub record DiscordDriver : Type 0 where
  pub session : Option ℕ
  pub connected : Option ℕ
  pub is_cancelled : Bool

abbrev pub new_discord : DiscordDriver
new_discord = record { session = none; connected = none; is_cancelled = false }

-- How far `StartDiscord` has come: it has opened a session, it has kept it and waits for the end of
-- the context, or it has returned.
pub data Phase : Type 0 where
  starting kept returned crashed : Phase
  opened : ℕ → Phase
  returned_error : Error → Phase

-- The message to the administrators' channel.
unfoldable pub intro : Bool → String
intro dev_mode = "**Hello World!**" <> (if dev_mode then " (dev)" else "")

-- Whether a message is logged: not the bot's own, and none of another bot.
unfoldable pub is_heeded : String → String → Bool → Bool
is_heeded own_id author_id by_bot = not (str_eq author_id own_id || by_bot)

module _ (lib : DiscordGo) (opts : Opts) where
  -- `dg.Open()`
  unfoldable opened_by : ℕ → Option Error → DiscordDriver → Phase × DiscordDriver
  opened_by n none d = (opened n, record d { connected = some n })
  opened_by n (some e) d = (returned_error e, d)

  -- The error of the message is only logged.
  unfoldable greeted : Option Error → ℕ → DiscordDriver → Phase × DiscordDriver
  unfolding opened_by
  greeted sent n d = opened_by n (lib.open_error n) d

  unfoldable with_session : Result ℕ → DiscordDriver → Phase × DiscordDriver
  unfolding greeted intro
  with_session (ok n) d =
      greeted (lib.send_error n opts.discord_admin_channel (intro opts.dev_mode)) n d
  with_session (err e) d = (returned_error e, d)
  with_session panic d = (crashed, d)

  unfoldable connect : DiscordDriver → Phase × DiscordDriver
  unfolding with_session
  connect d = with_session (lib.new_session ("Bot " <> opts.discord_token)) d

  -- `StartDiscord` up to its next step: it opens a session, it keeps it, it waits for the end.
  unfoldable pub start_discord : Phase → DiscordDriver → Phase × DiscordDriver
  unfolding connect
  start_discord starting d = connect d
  start_discord (opened n) d = (kept, record d { session = some n })
  start_discord kept d = (if d.is_cancelled then returned else kept, d)
  start_discord returned d = (returned, d)
  start_discord crashed d = (crashed, d)
  start_discord (returned_error e) d = (returned_error e, d)

-- A session that was kept is closed.
abbrev pub closed_with : Option ℕ → Option ℕ → Option ℕ
closed_with none connected = connected
closed_with (some n) connected = none

unfoldable pub close_discord : DiscordDriver → DiscordDriver
close_discord d = record d { connected = closed_with d.session d.connected; is_cancelled = true }

-- A step of `StartDiscord`, or a call of `CloseDiscord`.
pub data Move : Type 0 where
  go_on close : Move

module _ (lib : DiscordGo) (opts : Opts) where
  unfoldable pub moved : Move → Phase × DiscordDriver → Phase × DiscordDriver
  unfolding start_discord close_discord
  moved go_on (phase, d) = start_discord lib opts phase d
  moved close (phase, d) = (phase, close_discord d)

  unfoldable pub moves : List Move → Phase × DiscordDriver → Phase × DiscordDriver
  unfolding moved
  moves [] x = x
  moves (m ∷ ms) x = moves ms (moved m x)
