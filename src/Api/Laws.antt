-- ===== src/Api/Laws.antt =====
-- Whom the API knows, and what its lists tell.
use sgtm.Common.{arith, ◌≡◌, refl, Option, none, some, String, List, [], ◌∷◌}
use sgtm.Pb.{User, Session}
use sgtm.Db.{Result, ok, err, failed, then_result-eq-ok}
use sgtm.Service.{Service, Claims}
use sgtm.Service.Auth.{parse_jwt_token}
use sgtm.Api.{Metadata, values, annotate, token_of, claims_from_context, session_of, me}

-- Without a cookie the gateway passes on no token.
unfoldable pub cookie_claims : {S : Type 0} → Service S → Option String → Result Claims
cookie_claims svc none = err (failed "no such oauth-token")
cookie_claims svc (some text) = parse_jwt_token svc text

module _ {S : Type 0} (svc : Service S) where
  -- For a request that comes through the gateway, the claims that the API finds in the metadata are
  -- those of the cookie that the pages read: the same text, parsed in the same way, with an error
  -- where there is no cookie.
  pub claims_from_context-annotate :
      (cookie : Option String)
      → claims_from_context svc (some (annotate cookie)) ≡ cookie_claims svc cookie
  unfolding claims_from_context annotate values token_of cookie_claims
  claims_from_context-annotate none = refl
  claims_from_context-annotate (some text) = refl

  pub record IsMe (md : Option Metadata) (s : S) (u : User) : Type 0 where
    pub metadata : Metadata
    pub given : md ≡ some metadata
    pub text : String
    pub others : List String
    pub has_token : values "oauth-token" metadata ≡ some (text ∷ others)
    pub claims : Claims
    pub parsed : parse_jwt_token svc text ≡ ok claims
    pub session : Session
    pub has_session : claims.session ≡ some session
    pub loaded : svc.store.get_user_by_id session.user_id s ≡ ok u

  session_of-eq-ok : (o : Option Session) (x : Session) → session_of svc o ≡ ok x → o ≡ some x
  session_of-eq-ok none x h = cc
  session_of-eq-ok (some y) x h = cc

  token_of-eq-ok :
      (o : Option (List String)) (text : String)
      → token_of svc o ≡ ok text
      → (others : List String) × (o ≡ some (text ∷ others))
  unfolding token_of
  token_of-eq-ok none text h = absurd (ground arith)
  token_of-eq-ok (some []) text h = absurd (ground arith)
  token_of-eq-ok (some (t ∷ ts)) text h = (ts, cc)

  -- `Me` answers with a user only if the call's metadata holds a token, its first value parses to
  -- claims with a session, and the store finds that user under the id of the session.
  pub me-IsMe : (md : Option Metadata) (s : S) (u : User) → me svc md s ≡ ok u → IsMe md s u
  unfolding me claims_from_context
  me-IsMe none s u h = cc
  me-IsMe (some md) s u h =
      let (claims, h1, k1) = then_result-eq-ok (claims_from_context svc (some md)) _ h in
      let (session, h2, loaded) = then_result-eq-ok (session_of svc claims.session) _ k1 in
      let (text, h3, parsed) =
        then_result-eq-ok (token_of svc (values "oauth-token" md)) (parse_jwt_token svc) h1 in
      let (others, has_token) = token_of-eq-ok (values "oauth-token" md) text h3 in
      record {
        metadata = md;
        given = refl;
        text = text;
        others = others;
        has_token = has_token;
        claims = claims;
        parsed = parsed;
        session = session;
        has_session = session_of-eq-ok claims.session session h2;
        loaded = loaded;
      }
