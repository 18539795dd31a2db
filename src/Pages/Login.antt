-- ===== src/Pages/Login.antt =====
-- pkg/sgtm/page_auth.go: the handlers of /login, /logout and /auth/callback.
pub mod Laws
use sgtm.Common.{
  ℕ, Bool, not, true, false, String, Option, none, some, ◌⊎◌, inl, inr, str_eq, if◌then◌else◌, ◌<>◌,
  ◌/◌,
}
use sgtm.Common.Int.{ℤ, pos, negsuc}
use sgtm.Common.Decimal.{format_int}
use sgtm.Pb.{User, zero_user, Session}
use sgtm.Db.{Error, failed, Result}
use sgtm.Service.{Service, Claims, DiscordUser, OauthToken}
use sgtm.Service.Auth.{auth_generate_state, redirect_url}
use sgtm.Service.Errors.{err_render_html}
use sgtm.Pages.Blocks.{or_422}
use sgtm.Web.{
  Request, Cookie, Page, ◌>>=◌, ◌>>◌, pure, ask, act, respond, halt, redirect, set_cookie,
}

abbrev pub oauth_token_cookie : String
oauth_token_cookie = "oauth-token"

-- `time.Now().Unix()` of a time in nanoseconds behind 1970.
abbrev seconds_of : ℤ → ℤ
seconds_of (pos n) = pos (n / 1_000_000_000)
seconds_of (negsuc n) = negsuc (n / 1_000_000_000)

module _ {S : Type 0} (svc : Service S) where
  unfoldable pub http_auth_login : Request → Page S (Unit {0})
  http_auth_login r =
      respond
        (redirect (svc.platform.auth_code_url (redirect_url svc r) (auth_generate_state svc r)) 307)

  unfoldable pub http_auth_logout : Request → Page S (Unit {0})
  http_auth_logout r =
      respond (
        set_cookie (record {
          name = oauth_token_cookie;
          value = "";
          path = "/";
          expires = pos 0;
          max_age = negsuc 0;
          http_only = true;
        }))
      >> respond (redirect "/" 307)

  abbrev refuse_with : Request → String → ℕ → Page S (Unit {0})
  refuse_with r text code = err_render_html svc r (failed text) code >> halt

  unfoldable pub check_state : Request → Page S (Unit {0})
  check_state r =
      if not (str_eq (auth_generate_state svc r) (r.query "state"))
      then refuse_with r "invalid oauth2 state" 400
      else pure tt

  unfoldable pub check_discord_user : Request → DiscordUser → Page S (Unit {0})
  check_discord_user r u =
      if not u.is_verified
      then refuse_with r "email not verified" 403
      else if u.is_bot
      then refuse_with r "access denied for bots" 403
      else pure tt

  -- The code is exchanged, and Discord asked who the user is.
  unfoldable pub identify : Request → Page S (OauthToken × DiscordUser)
  unfolding check_state check_discord_user
  identify r = do
    check_state r
    exchanged ← ask (λ s. svc.platform.exchange (redirect_url svc r) (r.query "code"))
    token ← or_422 svc r exchanged
    answered ← ask (λ s. svc.platform.discord_user token)
    u ← or_422 svc r answered
    check_discord_user r u
    pure (token, u)

  unfoldable pub profile_of : DiscordUser → User
  profile_of u = record zero_user {
    email = u.email;
    discord_id = u.id;
    discord_username = u.username;
    slug = u.username;
    locale = u.locale;
    avatar = u.avatar;
  }

  unfoldable pub claims_for : User → OauthToken → ℤ → Claims
  claims_for u token session_id = record {
    session = some (record { user_id = u.id; discord_access_token = token.access_token });
    id = format_int session_id;
    expires_at = token.expiry;
    issuer = "discord";
    issued_at = seconds_of svc.platform.now;
    audience = "sgtm";
  }

  unfoldable pub session_cookie : String → OauthToken → Cookie
  session_cookie text token = record {
    name = oauth_token_cookie;
    value = text;
    path = "/";
    expires = token.expiry;
    max_age = pos 0;
    http_only = true;
  }

  -- Find or create the user, sign a session token, hand it out as a cookie.
  unfoldable pub start_session : Request → OauthToken × DiscordUser → Page S (Unit {0})
  unfolding profile_of claims_for session_cookie
  start_session r (token, discord) = do
    created ← act (svc.store.create_user (profile_of discord))
    u ← or_422 svc r created
    drawn ← act svc.generate
    session_id ← or_422 svc r drawn
    signed ← ask (λ s. svc.platform.sign (claims_for u token session_id) svc.opts.jwt_signing_key)
    text ← or_422 svc r signed
    respond (set_cookie (session_cookie text token))
    respond (redirect "/" 307)

  unfoldable pub http_auth_callback : Request → Page S (Unit {0})
  unfolding identify start_session
  http_auth_callback r = do known ← identify r; start_session r known
