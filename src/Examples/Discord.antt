-- ===== src/Examples/Discord.antt =====
-- The bot, closed while it starts.
use sgtm.Common.{◌≡◌, refl, some, none, [], ◌∷◌, List, true}
use sgtm.Db.{ok}
use sgtm.Opts.{zero_opts}
use sgtm.Discord.{
  DiscordGo, new_discord, starting, returned, start_discord, close_discord, Move, go_on, close,
  moved, moves, intro, is_heeded,
}
use sgtm.Discord.Laws.{Stands, moves-Stands}

abbrev discord_go : DiscordGo
discord_go = record {
  new_session = λ token. ok 7;
  send_error = λ session channel text. none;
  open_error = λ session. none;
}

-- The close comes when the session is opened and not yet kept.
abbrev early_close : List Move
early_close = go_on ∷ close ∷ go_on ∷ go_on ∷ []

still_connected :
    moves discord_go zero_opts early_close (starting, new_discord)
    ≡ (returned, record { session = some 7; connected = some 7; is_cancelled = true })
unfolding moves moved start_discord close_discord
still_connected = refl

greeting : intro true ≡ "**Hello World!** (dev)"
unfolding intro
greeting = refl

other_author : is_heeded "1" "2" true ≡ is_heeded "1" "1" true
unfolding is_heeded
other_author = refl

moves-Stands_example : Stands (moves discord_go zero_opts early_close (starting, new_discord))
moves-Stands_example = moves-Stands discord_go zero_opts early_close
