-- ===== src/Opts.antt =====
-- pkg/sgtm/opts.go and pkg/sgtm/util.go: the options of the service and their defaults.
pub mod Laws
use Prim.Native.Char.{Char}
use Prim.Native.String
use mathlib.Core.Option
use sgtm.Common.{
  ℕ, zero, suc, Bool, false, String, Option, none, some, if◌then◌else◌, str_eq, ◌==◌, ◌*◌, ◌<>◌,
}
use sgtm.Db.{Result, ok, err, panic, then_result}

-- Pointers (a context, a logger, a snowflake node) are named by numbers; nil is `none`. Durations are
-- in nanoseconds.
pub record Opts : Type 0 where
  pub context : Option ℕ
  pub logger : Option ℕ
  pub dev_mode : Bool
  pub jwt_signing_key : String
  pub snowflake : Option ℕ
  pub bearer_token : String
  pub enable_discord : Bool
  pub discord_token : String
  pub discord_admin_channel : String
  pub discord_client_id : String
  pub discord_client_secret : String
  pub enable_processing_worker : Bool
  pub sound_cloud_client_id : String
  pub db_path : String
  pub enable_server : Bool
  pub server_bind : String
  pub server_cors_allowed_origins : String
  pub server_request_timeout : ℕ
  pub server_shutdown_timeout : ℕ
  pub server_with_pprof : Bool
  pub hostname : String
  pub ipfs_api : String

abbrev pub filtering_string : String
filtering_string = "*FILTERED*"

unfoldable pub hide : String → String
hide secret = if str_eq secret "" then secret else filtering_string

unfoldable pub filtered : Opts → Opts
filtered o = record o {
  discord_token = hide o.discord_token;
  discord_admin_channel = hide o.discord_admin_channel;
  discord_client_secret = hide o.discord_client_secret;
  jwt_signing_key = hide o.jwt_signing_key;
}

unfoldable pub or_text : String → String → String
or_text value default = if str_eq value "" then default else value

unfoldable pub or_number : ℕ → ℕ → ℕ
or_number value default = if value == 0 then default else value

abbrev second : ℕ
second = 1_000_000_000

unfoldable pub set_defaults : Opts → Opts
set_defaults o = record o {
  server_bind = or_text o.server_bind ":8000";
  server_cors_allowed_origins = or_text o.server_cors_allowed_origins "*";
  server_request_timeout = or_number o.server_request_timeout (5 * second);
  server_shutdown_timeout = or_number o.server_shutdown_timeout (6 * second);
  db_path = or_text o.db_path "/tmp/sgtm.db";
}

abbrev pub zero_opts : Opts
zero_opts = record {
  context = none;
  logger = none;
  dev_mode = false;
  jwt_signing_key = "";
  snowflake = none;
  bearer_token = "";
  enable_discord = false;
  discord_token = "";
  discord_admin_channel = "";
  discord_client_id = "";
  discord_client_secret = "";
  enable_processing_worker = false;
  sound_cloud_client_id = "";
  db_path = "";
  enable_server = false;
  server_bind = "";
  server_cors_allowed_origins = "";
  server_request_timeout = 0;
  server_shutdown_timeout = 0;
  server_with_pprof = false;
  hostname = "";
  ipfs_api = "";
}

unfoldable pub default_opts : Opts
unfolding set_defaults or_text or_number
default_opts = set_defaults zero_opts

abbrev letter_bytes : String
letter_bytes = "abcdefghijklmnopqrstuvwxyzABCDEFGHIJKLMNOPQRSTUVWXYZ"

char_at : String → ℕ → Option Char
char_at String.[] i = none
char_at (String.◌∷◌ c s) zero = some c
char_at (String.◌∷◌ c s) (suc i) = char_at s i

-- `randString(n)`; `draw i` is the value of the i-th last `rand.Intn(52)`. An index out of range would
-- panic, here `none`.
unfoldable pub rand_string : (ℕ → ℕ) → ℕ → Option String
unfolding char_at
rand_string draw zero = some ""
rand_string draw (suc n) = elim (char_at letter_bytes (draw n)) [
  | none ↦ none
  | some c ↦ Option.map (λ s. String.◌∷◌ c s) (rand_string draw n)
]

-- The environment of `applyDefaults`: `context.TODO()`, `zap.NewNop()`, `snowflake.NewNode(1)` and
-- the random draws.
pub record Defaults : Type 0 where
  pub todo : ℕ
  pub nop : ℕ
  pub new_node : ℕ → Result ℕ
  pub draw : ℕ → ℕ

abbrev pub or_handle : Option ℕ → ℕ → Option ℕ
or_handle none h = some h
or_handle (some h) d = some h

abbrev pub node_or_new : Defaults → Option ℕ → Result (Option ℕ)
node_or_new env (some node) = ok (some node)
node_or_new env none = then_result (env.new_node 1) (λ node. ok (some node))

abbrev pub key_or_random : Defaults → String → Result String
key_or_random env key =
    if str_eq key ""
    then elim (rand_string env.draw 42) [ none ↦ panic | some text ↦ ok text ]
    else ok key

-- The options behind the call; an error leaves the service unmade.
unfoldable pub apply_defaults : Defaults → Opts → Result Opts
apply_defaults env o = then_result (node_or_new env o.snowflake) λ node.
    then_result (key_or_random env o.jwt_signing_key) λ key. ok (record o {
      context = or_handle o.context env.todo;
      logger = or_handle o.logger env.nop;
      snowflake = node;
      jwt_signing_key = key;
    })
