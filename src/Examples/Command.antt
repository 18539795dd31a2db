-- ===== src/Examples/Command.antt =====
-- A start of the program that comes to its actors.
use sgtm.Common.{List, str_eq, if◌then◌else◌, ◌≡◌, refl, true, false, none, some, [], ◌∷◌, String}
use sgtm.Db.{ok}
use sgtm.Opts.{Opts, zero_opts, apply_defaults}
use sgtm.Command.{
  StartUp, signal_handler, server, Ready, run_cmd, init_db, open_store, new_service, db_init,
  actors,
}
use sgtm.Command.Flags.{FlagPackage, set_all, exit_status, signalled, interrupt}
use sgtm.Command.Flags.Laws.{last_given, set_all-last_given}
use sgtm.Command.Laws.{IsReady, run_cmd-IsReady}

abbrev start_up : StartUp String
start_up = record {
  sentry_error = none;
  logger = 2;
  open_db = λ path. ok path;
  new_node = λ i. ok 3;
  register_error = λ db node. none;
  migrate_error = λ db. none;
  defaults = record { todo = 0; nop = 0; new_node = λ i. ok i; draw = λ i. 0 };
}

abbrev options : Opts
options = record zero_opts { db_path = "sgtm.db"; enable_server = true; jwt_signing_key = "key" }

abbrev ready : Ready String
ready = record {
  db = "sgtm.db";
  service = record {
    opts = record options { context = some 1; logger = some 2; snowflake = some 3 };
    parent = some 1;
    is_cancelled = false;
  };
  actors = signal_handler ∷ server ∷ [];
}

comes_up : run_cmd start_up 1 options ≡ ok ready
unfolding run_cmd init_db open_store new_service db_init actors apply_defaults
comes_up = refl

run_cmd-IsReady_example : IsReady start_up 1 options ready
run_cmd-IsReady_example = run_cmd-IsReady start_up 1 options ready comes_up

abbrev flag_package : FlagPackage
flag_package = record {
  parse_bool = λ text. if str_eq text "true" then some true else none;
  parse_duration = λ text. none;
}

-- The key twice, and a switch between.
abbrev given_flags : List (String × String)
given_flags =
    ("jwt-signing-key", "first") ∷ ("dev-mode", "true") ∷ ("jwt-signing-key", "second") ∷ []

abbrev flagged : Opts
flagged = record zero_opts { jwt_signing_key = "second"; dev_mode = true }

flags_set : set_all flag_package given_flags zero_opts ≡ some flagged
unfolding set_all
flags_set = refl

set_all-last_given_example : "second" ≡ last_given "jwt-signing-key" given_flags ""
set_all-last_given_example = set_all-last_given flag_package given_flags zero_opts flagged flags_set

stopped : exit_status (signalled interrupt) ≡ 0
unfolding exit_status
stopped = refl
