-- ===== src/Api.antt =====
-- pkg/sgtm/api.go: the methods of the API, and what the gateway in pkg/sgtm/http_server.go passes
-- on of a request to them.
pub mod Laws
pub mod Interceptors
use sgtm.Common.{Bool, true, Option, none, some, String, List, [], ◌∷◌, str_eq, if◌then◌else◌}
use sgtm.Common.Int.{ℤ}
use sgtm.Pb.{User, Post, Session}
use sgtm.Db.{Result, ok, err, panic, failed, then_result}
use sgtm.Service.{Service, Claims}
use sgtm.Service.Auth.{parse_jwt_token}
use sgtm.Web.{Request}

-- `metadata.MD`: keys with their values.
abbrev pub Metadata : Type 0
Metadata = List (String × List String)

unfoldable pub values : String → Metadata → Option (List String)
values key [] = none
values key ((k, vs) ∷ rest) = let later = values key rest in if str_eq k key then some vs else later

-- `gatewayMetadataAnnotator`
unfoldable pub annotate : Option String → Metadata
annotate none = []
annotate (some token) = ("oauth-token", token ∷ []) ∷ []

pub record StatusResponse : Type 0 where
  pub uptime : ℤ
  pub hostname : String
  pub everything_is_ok : Bool

-- The clock and the host: `int32` of the seconds since a time, and `os.Hostname()`, of which the
-- error is dropped.
pub record Host : Type 0 where
  pub seconds_since : ℤ → ℤ
  pub hostname : String

unfoldable pub status : Host → ℤ → StatusResponse
status host started_at = record {
  uptime = host.seconds_since started_at;
  hostname = host.hostname;
  everything_is_ok = true;
}

module _ {S : Type 0} (svc : Service S) where
  -- The first value of "oauth-token".
  unfoldable pub token_of : Option (List String) → Result String
  token_of none = err (failed "no such oauth-token")
  token_of (some []) = err (failed "no such oauth-token")
  token_of (some (token ∷ tokens)) = ok token

  -- `claimsFromContext`, of the context's incoming metadata.
  unfoldable pub claims_from_context : Option Metadata → Result Claims
  unfolding token_of values
  claims_from_context none = err (failed "cannot get metadata from context")
  claims_from_context (some md) =
      then_result (token_of (values "oauth-token" md)) (parse_jwt_token svc)

  -- `claims.Session.UserID`, which panics on a nil session.
  abbrev pub session_of : Option Session → Result Session
  session_of none = panic
  session_of (some session) = ok session

  unfoldable pub me : Option Metadata → S → Result User
  unfolding claims_from_context
  me md s = then_result (claims_from_context md) λ claims.
      then_result (session_of claims.session) λ session. svc.store.get_user_by_id session.user_id s

  unfoldable pub user_list : S → Result (List User)
  user_list s = svc.store.get_last_users_list 100 s

  unfoldable pub post_list : S → Result (List Post)
  post_list s = svc.store.get_post_list 100 s
