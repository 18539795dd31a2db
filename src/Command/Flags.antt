-- ===== src/Command/Flags.antt =====
-- cmd/sgtm/main.go, `main` and `app`: the flags, the options that they set, and the exit status.
pub mod Laws
use sgtm.Common.{ℕ, Bool, Option, none, some, String, List, [], ◌∷◌, map, str_eq, if◌then◌else◌}
use sgtm.Db.{Error}
use sgtm.Opts.{Opts, default_opts}

-- A flag with its name and the option that it sets.
pub data Flag : Type 0 where
  bool_var : String → (Bool → Opts → Opts) → Flag
  string_var : String → (String → Opts → Opts) → Flag
  duration_var : String → (ℕ → Opts → Opts) → Flag

abbrev pub flag_name : Flag → String
flag_name (bool_var name set) = name
flag_name (string_var name set) = name
flag_name (duration_var name set) = name

-- Their defaults are the options' own.
unfoldable pub root_flags : List Flag
root_flags =
    bool_var "dev-mode" (λ v o. record o { dev_mode = v })
    ∷ bool_var "enable-discord" (λ v o. record o { enable_discord = v })
    ∷ string_var "discord-token" (λ v o. record o { discord_token = v })
    ∷ string_var "discord-admin-channel" (λ v o. record o { discord_admin_channel = v })
    ∷ string_var "db-path" (λ v o. record o { db_path = v })
    ∷ bool_var "enable-server" (λ v o. record o { enable_server = v })
    ∷ string_var "server-bind" (λ v o. record o { server_bind = v })
    ∷ string_var "server-cors-allowed-origins" (λ v o. record o { server_cors_allowed_origins = v })
    ∷ duration_var "server-request-timeout" (λ v o. record o { server_request_timeout = v })
    ∷ duration_var "server-shutdown-timeout" (λ v o. record o { server_shutdown_timeout = v })
    ∷ bool_var "server-with-pprof" (λ v o. record o { server_with_pprof = v })
    ∷ string_var "discord-client-id" (λ v o. record o { discord_client_id = v })
    ∷ string_var "discord-client-secret" (λ v o. record o { discord_client_secret = v })
    ∷ string_var "jwt-signing-key" (λ v o. record o { jwt_signing_key = v })
    ∷ string_var "hostname" (λ v o. record o { hostname = v })
    ∷ string_var "soundcloud-client-id" (λ v o. record o { sound_cloud_client_id = v })
    ∷ string_var "bearer-token" (λ v o. record o { bearer_token = v })
    ∷ string_var "ipfs-api" (λ v o. record o { ipfs_api = v })
    ∷ bool_var "enable-processing-worker" (λ v o. record o { enable_processing_worker = v })
    ∷ []

-- Package flag, which stores the value of each flag that is given in the flag's variable: how the
-- texts of the values are read.
pub record FlagPackage : Type 0 where
  pub parse_bool : String → Option Bool
  pub parse_duration : String → Option ℕ

abbrev set_read : {A : Type 0} → (A → Opts → Opts) → Opts → Option A → Option Opts
set_read set o none = none
set_read set o (some v) = some (set v o)

module _ (lib : FlagPackage) where
  -- A value that cannot be read ends the program.
  unfoldable pub set_flag : Flag → String → Opts → Option Opts
  set_flag (bool_var name set) text o = set_read set o (lib.parse_bool text)
  set_flag (string_var name set) text o = some (set text o)
  set_flag (duration_var name set) text o = set_read set o (lib.parse_duration text)

  -- The flag with a name; one that is not there ends the program.
  unfoldable pub set_named : List Flag → String → String → Opts → Option Opts
  unfolding set_flag
  set_named [] name text o = none
  set_named (f ∷ fs) name text o =
      let later = set_named fs name text o in
      if str_eq (flag_name f) name then set_flag f text o else later

  abbrev then_option : Option Opts → (Opts → Option Opts) → Option Opts
  then_option none f = none
  then_option (some o) f = f o

  -- The flags that are given, one after the other.
  unfoldable pub set_all : List (String × String) → Opts → Option Opts
  unfolding set_named root_flags
  set_all [] o = some o
  set_all ((name, text) ∷ rest) o = then_option (set_named root_flags name text o) (set_all rest)

-- How `app` ends: without an error, by a signal, or by another error.
pub data Signal : Type 0 where
  interrupt other_signal : Signal

pub data Ended : Type 0 where
  no_error : Ended
  signalled : Signal → Ended
  failed_by : Error → Ended

-- `main`
unfoldable pub exit_status : Ended → ℕ
exit_status no_error = 0
exit_status (signalled interrupt) = 0
exit_status (signalled other_signal) = 1
exit_status (failed_by e) = 1
