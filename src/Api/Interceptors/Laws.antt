-- ===== src/Api/Interceptors/Laws.antt =====
-- What the interceptors make of a method's answer.
use mathlib.Core.Path.{subst}
use sgtm.Common.{Bool, true, false, ◌≡◌, refl, sym, ◌∙◌, ◌++◌, String, List, [], ◌∷◌, if◌then◌else◌}
use sgtm.Db.{Error, Result, ok, err, panic, then_result}
use sgtm.Api.Interceptors.{
  Handler, Interceptor, Middleware, recovery_opts, auth_func, auth_func_override, logged,
  server_opts, grpc_server,
}

-- The answer of the method where it has one, and some error where it panics.
abbrev pub Passes : {A : Type 0} → Result A → Result A → Type 0
Passes (ok a) r = r ≡ ok a
Passes (err e) r = r ≡ err e
Passes panic r = (e : Error) × (r ≡ err e)

Passes-trans : {A : Type 0} (r q p : Result A) → Passes r q → Passes q p → Passes r p
Passes-trans (ok a) q p h k = subst (λ x. Passes x p) h k
Passes-trans (err e) q p h k = subst (λ x. Passes x p) h k
Passes-trans panic q p (e, h) k = (e, subst (λ x. Passes x p) h k)

module _ {C A : Type 0} where
  -- What the program relies on: a recovery passes an answer on, and makes an error of a panic; where
  -- a service overrides the auth function, that decides with which context the method is called, or
  -- that it is not; the log changes nothing; and a chain of interceptors is entered from its first on.
  pub record IsMiddleware (lib : Middleware C A) : Type 0 where
    pub recovers :
        (opts : List (String → Error)) (h : Handler C A) (c : C)
        → Passes (h c) (lib.recovery opts h c)
    pub overrides :
        (f : C → Result C) (g : C → String → Result C) (h : Handler C A) (c : C)
        → (path : String) × (lib.auth f g h c ≡ then_result (g c path) h)
    pub zap_same : (h : Handler C A) (c : C) → lib.zap h c ≡ h c
    pub chain_nil : (h : Handler C A) (c : C) → lib.chain [] h c ≡ h c
    pub chain_cons :
        (i : Interceptor C A) (rest : List (Interceptor C A)) (h : Handler C A) (c : C)
        → lib.chain (i ∷ rest) h c ≡ i (lib.chain rest h) c

  module _ (lib : Middleware C A) (law : IsMiddleware lib) where
    -- A recovery around a handler that gives what another gives.
    recovery-Passes :
        (opts : List (String → Error)) (h k : Handler C A) (c : C)
        → k c ≡ h c
        → Passes (h c) (lib.recovery opts k c)
    recovery-Passes opts h k c e =
        subst (λ (x : Result A). Passes x (lib.recovery opts k c)) e (law.recovers opts k c)

    innermost :
        (opts : List (String → Error)) (h : Handler C A) (c : C)
        → Passes (h c) (lib.chain (lib.recovery opts ∷ []) h c)
    innermost opts h c =
        subst (λ (x : Result A). Passes (h c) x) (sym (law.chain_cons (lib.recovery opts) [] h c))
          (recovery-Passes opts h (lib.chain [] h) c (law.chain_nil h c))

    -- With or without the interceptor that logs.
    behind_log :
        (debug : Bool) (rest : List (Interceptor C A)) (h : Handler C A) (c : C)
        → lib.chain ((if debug then logged ∷ [] else []) ++ rest) h c ≡ lib.chain rest h c
    unfolding logged
    behind_log true rest h c = law.chain_cons logged rest h c
    behind_log false rest h c = refl

    behind_auth :
        (rest : List (Interceptor C A)) (h : Handler C A) (c : C)
        → lib.chain (lib.auth auth_func auth_func_override ∷ rest) h c ≡ lib.chain rest h c
    unfolding auth_func_override
    behind_auth rest h c =
        law.chain_cons (lib.auth auth_func auth_func_override) rest h c
        ∙ (law.overrides auth_func auth_func_override (lib.chain rest h) c).1

    behind_zap :
        (rest : List (Interceptor C A)) (h : Handler C A) (c : C)
        → lib.chain (lib.zap ∷ rest) h c ≡ lib.chain rest h c
    behind_zap rest h c = law.chain_cons lib.zap rest h c ∙ law.zap_same (lib.chain rest h) c

    -- Over packages that meet `IsMiddleware`, whether the server debugs or not: a call of the API
    -- gives the answer or the error of its method, for every context, so that none is refused for
    -- want of an identity, and gives some error where the method panics.
    pub grpc_server-Passes :
        (debug : Bool) (h : Handler C A) (c : C) → Passes (h c) (grpc_server lib debug h c)
    unfolding grpc_server server_opts
    grpc_server-Passes debug h c =
        let opts = recovery_opts debug in
        let last = lib.recovery opts ∷ [] in
        let log = (if debug then logged ∷ [] else []) ++ last in
        let inner = lib.chain (lib.auth auth_func auth_func_override ∷ lib.zap ∷ log) h in
        let same : inner c ≡ lib.chain last h c =
          behind_auth (lib.zap ∷ log) h c ∙ behind_zap log h c ∙ behind_log debug last h c in
        Passes-trans (h c) (inner c) (grpc_server lib debug h c)
          (subst (λ (x : Result A). Passes (h c) x) (sym same) (innermost opts h c))
          (subst (λ (x : Result A). Passes (inner c) x)
            (sym (
              law.chain_cons (lib.recovery opts)
                (lib.auth auth_func auth_func_override ∷ lib.zap ∷ log) h c))
            (law.recovers opts inner c))
