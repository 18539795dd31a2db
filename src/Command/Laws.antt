-- ===== src/Command/Laws.antt =====
-- What the start-up has made when the actors begin.
use mathlib.Core.Path.{subst}
use sgtm.Common.{false, ℕ, ◌≡◌, ◌≢◌, refl, sym, ap, ◌∙◌, Option, none, some}
use sgtm.Db.{Error, Result, ok, err, then_result-eq-ok, ok_inj}
use sgtm.Opts.{Opts, Defaults, apply_defaults, key_or_random, or_handle}
use sgtm.Opts.Laws.{apply_defaults_complete}
use sgtm.Service.Auth.{wrap, wrap-eq-ok}
use sgtm.Command.{
  StartUp, actors, unless_failed, Running, new_service, Ready, db_init, open_store, init_sentry,
  init_db, run_cmd,
}

-- One node draws the ids of the rows and those of the sessions.
pub record IsReady {D : Type 0} (lib : StartUp D) (ctx : ℕ) (o : Opts) (ready : Ready D)
    : Type 0 where
  pub node : ℕ
  pub made : lib.new_node 1 ≡ ok node
  pub registered : lib.register_error ready.db node ≡ none
  pub migrated : lib.migrate_error ready.db ≡ none
  pub sessions : ready.service.opts.snowflake ≡ some node
  pub opened : lib.open_db o.db_path ≡ ok ready.db
  pub context : ready.service.parent ≡ some ctx
  pub running : ready.service.is_cancelled ≡ false
  pub key : ready.service.opts.jwt_signing_key ≢ ""
  pub enabled : ready.actors ≡ actors o

unless_failed-eq-ok :
    {A : Type 0} (e : Option Error) (r : Result A) (a : A)
    → unless_failed e r ≡ ok a
    → (e ≡ none) × (r ≡ ok a)
unless_failed-eq-ok none r a h = (refl, h)
unless_failed-eq-ok (some e) r a h = absurd (failed_ne h)
  where
    failed_ne : err e ≡ ok a → ⊥
    failed_ne k = cc

-- Defaults leave what is given.
given_stay :
    (env : Defaults) (o o' : Opts) (node ctx : ℕ)
    → o.context ≡ some ctx
    → apply_defaults env (record o { snowflake = some node }) ≡ ok o'
    → (o'.snowflake ≡ some node) × (o'.context ≡ some ctx)
unfolding apply_defaults
given_stay env o o' node ctx given e =
    let (key, drawn, whole) = then_result-eq-ok (key_or_random env o.jwt_signing_key) _ e in
    let same = sym (ok_inj whole) in
    (
      ap (λ (x : Opts). x.snowflake) same,
      ap (λ (x : Opts). x.context) same ∙ ap (λ c. or_handle c env.todo) given,
    )

-- The context and the logger enable nothing.
unchanged :
    (o : Opts) (ctx logger : ℕ)
    → actors (record o { context = some ctx; logger = some logger }) ≡ actors o
unfolding actors
unchanged o ctx logger = refl

new_service-eq-ok :
    (env : Defaults) (o : Opts) (svc : Running)
    → new_service env o ≡ ok svc
    → (opts : Opts) × (apply_defaults env o ≡ ok opts)
      × (svc ≡ record { opts = opts; parent = opts.context; is_cancelled = false })
unfolding new_service
new_service-eq-ok env o svc h =
    let (opts, completed, whole) = then_result-eq-ok (apply_defaults env o) _ h in
    (opts, completed, sym (ok_inj whole))

module _ {D : Type 0} (lib : StartUp D) where
  db_init-eq-ok :
      (db db' : D) (node : ℕ)
      → db_init lib db node ≡ ok db'
      → (lib.register_error db node ≡ none) × (lib.migrate_error db ≡ none) × (db ≡ db')
  unfolding db_init
  db_init-eq-ok db db' node h =
      let (registered, h1) = unless_failed-eq-ok (lib.register_error db node) _ db' h in
      let (migrated, h2) = unless_failed-eq-ok (lib.migrate_error db) (ok db) db' h1 in
      (registered, migrated, ok_inj h2)

  init_db-IsReady :
      (ctx : ℕ) (o : Opts) (ready : Ready D)
      → o.context ≡ some ctx
      → init_db lib o ≡ ok ready
      → IsReady lib ctx o ready
  unfolding init_db open_store
  init_db-IsReady ctx o ready given h =
      let (db, opened, h1) = then_result-eq-ok (wrap "gorm init" (lib.open_db o.db_path)) _ h in
      let (node, made, h2) = then_result-eq-ok (wrap "snowflake init" (lib.new_node 1)) _ h1 in
      let (store, stored, h3) =
        then_result-eq-ok (wrap "store init" (wrap "db init" (db_init lib db node))) _ h2 in
      let (svc, begun, h4) =
        then_result-eq-ok (new_service lib.defaults (record o { snowflake = some node })) _ h3 in
      let (opts, completed, as_made) = new_service-eq-ok lib.defaults _ svc begun in
      let (registered, migrated, same) =
        db_init-eq-ok db store node (wrap-eq-ok _ _ (wrap-eq-ok _ _ stored)) in
      let (kept_node, kept_context) = given_stay lib.defaults o opts node ctx given completed in
      let (has_context, has_logger, has_node, has_key) =
        apply_defaults_complete lib.defaults _ opts completed in
      subst (IsReady lib ctx o) (ok_inj h4) (record {
        node = node;
        made = wrap-eq-ok _ _ made;
        registered = subst (λ d. lib.register_error d node ≡ none) same registered;
        migrated = subst (λ d. lib.migrate_error d ≡ none) same migrated;
        sessions = ap (λ (v : Running). v.opts.snowflake) as_made ∙ kept_node;
        opened = wrap-eq-ok _ _ opened ∙ ap ok same;
        context = ap (λ (v : Running). v.parent) as_made ∙ kept_context;
        running = ap (λ (v : Running). v.is_cancelled) as_made;
        key = subst (λ (v : Running). v.opts.jwt_signing_key ≢ "") (sym as_made) has_key;
        enabled = refl;
      })

  -- When the run group begins, the database is the one that the options' path opens, with the
  -- callback that draws the ids of new rows registered and the tables migrated; the node of that
  -- callback is the one from which the service draws the ids of its sessions; the service's own
  -- context is not cancelled and stands under the command's, and its signing key is not empty; and the actors are those that the
  -- options enable.
  pub run_cmd-IsReady :
      (ctx : ℕ) (o : Opts) (ready : Ready D)
      → run_cmd lib ctx o ≡ ok ready
      → IsReady lib ctx o ready
  unfolding run_cmd
  run_cmd-IsReady ctx o ready h =
      let (sentry, made) =
        unless_failed-eq-ok (init_sentry lib o.dev_mode)
          (init_db lib (record o { context = some ctx; logger = some lib.logger })) ready h in
      let inner =
        init_db-IsReady ctx (record o { context = some ctx; logger = some lib.logger }) ready refl
          made in
      record {
        node = inner.node;
        made = inner.made;
        registered = inner.registered;
        migrated = inner.migrated;
        sessions = inner.sessions;
        opened = inner.opened;
        context = inner.context;
        running = inner.running;
        key = inner.key;
        enabled = inner.enabled ∙ unchanged o ctx lib.logger;
      }
