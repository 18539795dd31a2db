-- ===== src/Service/Auth.antt =====
-- pkg/sgtm/page_auth.go: `parseJWTToken`, and the state that a login sends along.
use sgtm.Common.{◌≡◌, not, String, ◌<>◌, str_eq, if◌then◌else◌}
use sgtm.Db.{Result, ok, err, panic, failed, error_text, then_result}
use sgtm.Service.Types.{Service, Claims, SigningMethod, hmac, other, Token}
use sgtm.Web.{Request}

-- `fmt.Errorf("…: %w", err)` around a query's error.
abbrev pub wrap {ℓ} : {A : Type ℓ} → String → Result A → Result A
wrap prefix (ok a) = ok a
wrap prefix (err e) = err (failed (prefix <> ": " <> error_text e))
wrap prefix panic = panic

pub wrap-eq-ok :
    {A : Type 0} (prefix : String) (x : Result A) {a : A} → wrap prefix x ≡ ok a → x ≡ ok a
wrap-eq-ok prefix (ok b) h = h
wrap-eq-ok prefix (err e) h = cc
wrap-eq-ok prefix panic h = cc

module _ {S : Type 0} (svc : Service S) where
  -- The key for a token: HMAC tokens alone have one.
  unfoldable pub key_func : SigningMethod → Result String
  key_func hmac = ok svc.opts.jwt_signing_key
  key_func (other alg) = err (failed ("unexpected signing method: " <> alg))

  abbrev pub check_token : Token → Result Claims
  check_token token =
      if not token.valid
      then err (failed "invalid token")
      else if not (str_eq token.claims.audience "sgtm")
      then err (failed "invalid audience")
      else ok token.claims

  unfoldable pub parse_jwt_token : String → Result Claims
  unfolding key_func
  parse_jwt_token text =
      then_result (wrap "parse with claims" (svc.platform.parse_with_claims text key_func))
        check_token

  -- `authGenerateState`
  unfoldable pub auth_generate_state : Request → String
  auth_generate_state r = svc.platform.digest (r.user_agent <> svc.opts.discord_client_secret)

  -- The redirect URL of `authConfigFromReq`.
  unfoldable pub redirect_url : Request → String
  redirect_url r =
      (if str_eq svc.opts.hostname ""
        then (if r.is_tls then "https" else "http") <> "://" <> r.host
        else svc.opts.hostname)
      <> "/auth/callback"
