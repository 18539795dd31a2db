-- ===== src/Api/Interceptors.antt =====
-- pkg/sgtm/http_server.go, `grpcServer` and `AuthFuncOverride`: what stands around each method of
-- the API.
pub mod Laws
use sgtm.Common.{Bool, ◌++◌, ◌<>◌, String, List, [], ◌∷◌, if◌then◌else◌}
use sgtm.Db.{Error, Result, ok, err, panic, failed}

module _ (C A : Type 0) where
  -- A method, from its context to its answer, and what can be put around it. The log is not modelled.
  abbrev pub Handler : Type 0
  Handler = C → Result A

  abbrev pub Interceptor : Type 0
  Interceptor = Handler → Handler

  -- The packages grpc_recovery, grpc_auth, grpc_zap and grpc_middleware, for single calls or for
  -- streams.
  pub record Middleware : Type 0 where
    -- what some panic's text becomes, where an option says so
    pub recovery : List (String → Error) → Interceptor
    -- the function of the server, and the one by which the service overrides it, on a method's name
    pub auth : (C → Result C) → (C → String → Result C) → Interceptor
    pub zap : Interceptor
    pub chain : List Interceptor → Interceptor

abbrev pub internal : String → Error
internal text = failed ("rpc error: code = Internal desc = recover: " <> text)

-- The options of the recovery, by whether the logger logs at the level of debugging.
unfoldable pub recovery_opts : Bool → List (String → Error)
recovery_opts debug = if debug then internal ∷ [] else []

-- `authFunc`, and `AuthFuncOverride`, which accepts everything.
unfoldable pub auth_func : {C : Type 0} → C → Result C
auth_func c = err (failed "auth: dummy function, see AuthFuncOverride")

unfoldable pub auth_func_override : {C : Type 0} → C → String → Result C
auth_func_override c path = ok c

-- The interceptor that logs an error.
unfoldable pub logged : {C A : Type 0} → Interceptor C A
logged h c = h c

module _ {C A : Type 0} (lib : Middleware C A) where
  -- The interceptors, from the outermost on.
  unfoldable pub server_opts : Bool → List (Interceptor C A)
  unfolding recovery_opts auth_func auth_func_override logged
  server_opts debug =
      (lib.recovery (recovery_opts debug) ∷ lib.auth auth_func auth_func_override ∷ lib.zap ∷ [])
      ++ (if debug then logged ∷ [] else [])
      ++ (lib.recovery (recovery_opts debug) ∷ [])

  unfoldable pub grpc_server : Bool → Interceptor C A
  unfolding server_opts
  grpc_server debug h = lib.chain (server_opts debug) h
