-- ===== src/Examples/Api.antt =====
-- The API's methods, over the database in memory.
use sgtm.Common.{◌≡◌, refl, Option, none, some, List, [], ◌∷◌, String, true}
use sgtm.Db.{Error, Result, ok, err, panic, failed, then_result}
use sgtm.Db.Memory.{memory}
use sgtm.Pb.{User}
use sgtm.Store.{new_store}
use sgtm.Store.Users
use sgtm.Service.Auth.{parse_jwt_token, key_func}
use sgtm.Api.{Metadata, me, annotate, claims_from_context, values, token_of}
use sgtm.Api.Laws.{IsMe, me-IsMe}
use sgtm.Api.Interceptors.{Interceptor, Middleware, grpc_server}
use sgtm.Api.Interceptors.Laws.{Passes, IsMiddleware, grpc_server-Passes}
use sgtm.Examples.Sample.{alice, rows, sample_service}

alice_answered : me sample_service (some (annotate (some "key"))) rows ≡ ok alice
unfolding me claims_from_context values annotate token_of parse_jwt_token key_func new_store
    Users.get_user_by_id memory
alice_answered = refl

me-IsMe_example : IsMe sample_service (some (annotate (some "key"))) rows alice
me-IsMe_example = me-IsMe sample_service (some (annotate (some "key"))) rows alice alice_answered

-- The packages around the API's methods, as they are documented; a method that panics on a token
-- without a session, and one that is refused without a token.
abbrev caught : {A : Type 0} → List (String → Error) → Result A → Result A
caught opts (ok a) = ok a
caught opts (err e) = err e
caught [] panic = err (failed "panic")
caught (f ∷ fs) panic = err (f "panic")

abbrev chained : {C A : Type 0} → List (Interceptor C A) → Interceptor C A
chained [] h = h
chained (i ∷ rest) h = i (chained rest h)

abbrev middleware : Middleware (Option Metadata) User
middleware = record {
  recovery = λ opts h c. caught opts (h c);
  auth = λ f g h c. then_result (g c "/sgtm.WebAPI/Me") h;
  zap = λ h c. h c;
  chain = chained;
}

caught-Passes :
    {A : Type 0} (opts : List (String → Error)) (r : Result A) → Passes r (caught opts r)
caught-Passes opts (ok a) = refl
caught-Passes opts (err e) = refl
caught-Passes [] panic = (_, refl)
caught-Passes (f ∷ fs) panic = (_, refl)

middleware-IsMiddleware : IsMiddleware middleware
middleware-IsMiddleware = record {
  recovers = λ opts h c. caught-Passes opts (h c);
  overrides = λ f g h c. ("/sgtm.WebAPI/Me", refl);
  zap_same = λ h c. refl;
  chain_nil = λ h c. refl;
  chain_cons = λ i rest h c. refl;
}

grpc_server-Passes_example :
    Passes
      (me sample_service none rows)
      (grpc_server middleware true (λ md. me sample_service md rows) none)
grpc_server-Passes_example =
    grpc_server-Passes middleware middleware-IsMiddleware true (λ md. me sample_service md rows)
      none
