-- ===== src/Examples/Login.antt =====
-- A login of "bob", and tokens.
use sgtm.Common.{arith, ◌≡◌, refl, String, str_eq, ap, eq_iff, true, if◌then◌else◌}
use sgtm.Common.Int.{pos}
use sgtm.Common.Decimal.{format_int}
use sgtm.Db.{ok, err, failed, Result, then_result, then_result-eq-ok}
use sgtm.Db.Memory.{memory}
use sgtm.Store.{new_store}
use sgtm.Store.Users.{get_user_recent_post}
use sgtm.Service.{OauthToken, Claims, SigningMethod, hmac}
use sgtm.Service.Auth.{parse_jwt_token, key_func}
use sgtm.Service.Laws.{Identity}
use sgtm.Service.Tokens.{IsJwt, parse_jwt_token-Signed}
use sgtm.Pages.Login.{http_auth_callback, claims_for}
use sgtm.Pages.Login.Laws.{Entered, http_auth_callback-IsLogin, claims_for-Identity}
use sgtm.Examples.Sample.{
  alice, alice_claims, alice_form, anonymous_request, first_world, parse_key, rows, sample_service,
}

http_auth_callback-IsLogin_example :
    Entered sample_service anonymous_request first_world.db
      (http_auth_callback sample_service anonymous_request first_world).1.db
http_auth_callback-IsLogin_example =
    http_auth_callback-IsLogin sample_service anonymous_request first_world

abbrev Signed : String → SigningMethod → String → Claims → Type 0
Signed text method key claims = text ≡ key

parse_key-IsJwt : IsJwt Signed parse_key
parse_key-IsJwt = record {
  parses = λ text f token h.
      let (key, has_key, opened) = then_result-eq-ok (f hmac) _ h in
      (hmac, key, has_key, ground (arith, eq_iff text key));
}

accepted : parse_jwt_token sample_service "key" ≡ ok alice_claims
unfolding parse_jwt_token key_func
accepted = refl

parse_jwt_token-Signed_example :
    Signed "key" hmac "key" alice_claims × (alice_claims.audience ≡ "sgtm")
parse_jwt_token-Signed_example =
    parse_jwt_token-Signed sample_service Signed parse_key-IsJwt "key" alice_claims accepted

abbrev alice_token : OauthToken
alice_token = record { access_token = "access"; expiry = pos 2000 }

opens :
    (f : SigningMethod → Result String)
    → f hmac ≡ ok sample_service.opts.jwt_signing_key
    → sample_service.platform.parse_with_claims "key" f
      ≡ ok (record { claims = claims_for sample_service alice alice_token (pos 9); valid = true })
unfolding claims_for format_int
opens f h =
    ap
      (λ r. then_result r λ key.
        if str_eq "key" key
        then ok (record { claims = alice_claims; valid = true })
        else err (failed "signature"))
      h

loaded : sample_service.store.get_user_recent_post (pos 1) rows ≡ ok alice
unfolding new_store get_user_recent_post memory
loaded = refl

claims_for-Identity_example : Identity sample_service alice_form rows alice
claims_for-Identity_example =
    claims_for-Identity sample_service alice_form rows alice alice alice_token (pos 9) "key" opens
      refl loaded
