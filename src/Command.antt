-- ===== src/Command.antt =====
-- cmd/sgtm/main.go: `runCmd`, from the options to the actors that it runs, with `New` of
-- pkg/sgtmstore/store.go, `dbInit` of pkg/sgtmstore/gorm.go and `New` of pkg/sgtm/service.go.
pub mod Laws
pub mod Flags
use sgtm.Common.{
  ℕ, Bool, true, false, ◌||◌, ◌++◌, Option, none, some, ◌⊎◌, inl, inr, String, List, [], ◌∷◌,
  if◌then◌else◌,
}
use sgtm.Db.{Error, Result, ok, err, then_result}
use sgtm.Opts.{Opts, Defaults, apply_defaults}
use sgtm.Service.Auth.{wrap}

-- The packages of the start-up, over the databases `D` that gorm opens.
pub record StartUp (D : Type 0) : Type 0 where
  -- `sentry.Init`, and the logger that zapconfig makes
  pub sentry_error : Option Error
  pub logger : ℕ
  -- `gorm.Open`, `snowflake.NewNode`
  pub open_db : String → Result D
  pub new_node : ℕ → Result ℕ
  -- the callback before gorm's create, with its node, and `AutoMigrate`
  pub register_error : D → ℕ → Option Error
  pub migrate_error : D → Option Error
  pub defaults : Defaults

pub data Actor : Type 0 where
  signal_handler discord processing_worker server : Actor

-- The actors of the run group, in their order.
unfoldable pub actors : Opts → List Actor
actors o =
    (if o.enable_discord || o.enable_server || o.enable_processing_worker
      then signal_handler ∷ []
      else [])
    ++ (if o.enable_discord then discord ∷ [] else [])
    ++ (if o.enable_processing_worker then processing_worker ∷ [] else [])
    ++ (if o.enable_server then server ∷ [] else [])

-- `if err != nil { return …, err }`
abbrev pub unless_failed : {A : Type 0} → Option Error → Result A → Result A
unless_failed none r = r
unless_failed (some e) r = err e

-- The service that `New` makes, as far as it is not the store: its options, the context above its own,
-- and whether its own is cancelled.
pub record Running : Type 0 where
  pub opts : Opts
  pub parent : Option ℕ
  pub is_cancelled : Bool

unfoldable pub new_service : Defaults → Opts → Result Running
new_service defaults o =
    then_result (apply_defaults defaults o)
      λ opts. ok (record { opts = opts; parent = opts.context; is_cancelled = false })

-- `Close`
unfoldable pub close_service : Running → Running
close_service svc = record svc { is_cancelled = true }

-- What the program has made when the run group begins.
pub record Ready (D : Type 0) : Type 0 where
  pub db : D
  pub service : Running
  pub actors : List Actor

module _ {D : Type 0} (lib : StartUp D) where
  unfoldable pub db_init : D → ℕ → Result D
  db_init db node =
      unless_failed (lib.register_error db node) (unless_failed (lib.migrate_error db) (ok db))

  -- The store is the database behind `dbInit`.
  unfoldable pub open_store : D → ℕ → Result D
  unfolding db_init
  open_store db node = wrap "db init" (db_init db node)

  -- Sentry is left out of the developer mode.
  abbrev pub init_sentry : Bool → Option Error
  init_sentry dev_mode = if dev_mode then none else lib.sentry_error

  -- The database, the node, the store and the service, one behind the other.
  unfoldable pub init_db : Opts → Result (Ready D)
  unfolding open_store new_service
  init_db o = then_result (wrap "gorm init" (lib.open_db o.db_path)) λ db.
      then_result (wrap "snowflake init" (lib.new_node 1)) λ node.
        then_result (wrap "store init" (open_store db node)) λ store.
          then_result (new_service lib.defaults (record o { snowflake = some node }))
            λ svc. ok (record { db = store; service = svc; actors = actors o })

  -- The run group, and `defer svc.Close()`, which runs however the group ends.
  abbrev pub closed_behind : (Ready D → Result (Unit {0})) → Ready D → Result (Unit {0}) × Ready D
  closed_behind run_group ready =
      (run_group ready, record ready { service = close_service ready.service })

  unfoldable pub run_cmd : ℕ → Opts → Result (Ready D)
  unfolding init_db
  run_cmd ctx o =
      unless_failed (init_sentry o.dev_mode)
        (init_db (record o { context = some ctx; logger = some lib.logger }))
