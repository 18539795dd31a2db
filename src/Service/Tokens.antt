-- ===== src/Service/Tokens.antt =====
-- Which tokens are accepted.
use mathlib.Core.Path.{subst}
use sgtm.Common.{
  arith, ◌≡◌, refl, sym, ap, ◌∙◌, Bool, true, false, not, String, str_eq, eq_iff, if◌then◌else◌,
}
use sgtm.Db.{Result, ok, err, failed, then_result-eq-ok, ok_inj}
use sgtm.Service.Types.{Service, Claims, SigningMethod, hmac, other, Token}
use sgtm.Service.Auth.{wrap, wrap-eq-ok, key_func, check_token, parse_jwt_token}

-- What package jwt promises of a token that it parses: its key function has a key for the method that
-- the token names, and the text is signed with that key, by that method.
pub record IsJwt (Signed : String → SigningMethod → String → Claims → Type 0)
    (parse : String → (SigningMethod → Result String) → Result Token) : Type 0 where
  pub parses :
      (text : String) (f : SigningMethod → Result String) (token : Token)
      → parse text f ≡ ok token
      → (method : SigningMethod) × (key : String) × (f method ≡ ok key)
        × Signed text method key token.claims

module _ {S : Type 0} (svc : Service S) where
  checked :
      (token : Token) (c : Claims) (valid audience : Bool)
      → token.valid ≡ valid
      → str_eq token.claims.audience "sgtm" ≡ audience
      → (if not valid
          then err (failed "invalid token")
          else if not audience
          then err (failed "invalid audience")
          else ok token.claims)
        ≡ ok c
      → (token.valid ≡ true) × (token.claims.audience ≡ "sgtm") × (token.claims ≡ c)
  checked token c true true v a h = (v, (eq_iff token.claims.audience "sgtm").0 a, ok_inj h)
  checked token c true false v a h = absurd (ground arith)
  checked token c false audience v a h = absurd (ground arith)

  -- A key is there for HMAC alone, and it is the service's.
  key_func-hmac :
      (Q : SigningMethod → String → Type 0) (method : SigningMethod) (key : String)
      → key_func svc method ≡ ok key
      → Q method key
      → Q hmac svc.opts.jwt_signing_key
  unfolding key_func
  key_func-hmac Q hmac key h q = subst (Q hmac) (sym (ok_inj h)) q
  key_func-hmac Q (other alg) key h q = absurd (ground arith)

  -- If package jwt parses a text only with a key that its key function gives for the method by
  -- which the text is signed with that key, then a text whose claims are accepted is signed by
  -- HMAC with the service's own signing key, and the claims have the audience "sgtm": another
  -- method, such as "none", is never accepted.
  pub parse_jwt_token-Signed :
      (Signed : String → SigningMethod → String → Claims → Type 0)
      → IsJwt Signed svc.platform.parse_with_claims
      → (text : String) (c : Claims) → parse_jwt_token svc text ≡ ok c
      → Signed text hmac svc.opts.jwt_signing_key c × (c.audience ≡ "sgtm")
  unfolding parse_jwt_token
  parse_jwt_token-Signed Signed law text c h =
      let (token, parsed, accepted) =
        then_result-eq-ok
          (wrap "parse with claims" (svc.platform.parse_with_claims text (key_func svc)))
          (check_token svc) h in
      let (valid, audience, same) =
        checked token c token.valid (str_eq token.claims.audience "sgtm") refl refl accepted in
      let (method, key, has_key, signed) =
        law.parses text (key_func svc) token (wrap-eq-ok _ _ parsed) in
      (
        subst (Signed text hmac svc.opts.jwt_signing_key) same
            (key_func-hmac (λ m k. Signed text m k token.claims) method key has_key signed),
        ap (λ (x : Claims). x.audience) (sym same) ∙ audience,
      )
