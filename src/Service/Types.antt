-- ===== src/Service/Types.antt =====
-- The service, the claims of a session token and the data of a page.
use sgtm.Common.{ℕ, Bool, String, Option, List}
use sgtm.Common.Int.{ℤ}
use sgtm.Pb.{User, Post, Session}
use sgtm.Pb.PostHelpers.{AvatarDecoder}
use sgtm.Db.{Error, Result, Action}
use sgtm.Store.{Store}
use sgtm.Web.{Request, Writer}
use sgtm.Opts.{Opts}
use sgtm.Ipfs.Add.{AddCalls}

-- `jwtClaims`; a token without a session has a nil session.
pub record Claims : Type 0 where
  pub session : Option Session
  pub id : String
  pub expires_at : ℤ
  pub issuer : String
  pub issued_at : ℤ
  pub audience : String

-- The signing method that a token's header names.
pub data SigningMethod : Type 0 where
  hmac : SigningMethod
  -- another method, with its name
  other : String → SigningMethod

-- The claims and the `Valid` flag of a parsed `jwt.Token`.
pub record Token : Type 0 where
  pub claims : Claims
  pub valid : Bool

-- What rendering a template wrote, and the error that stopped it.
pub record Rendered : Type 0 where
  pub output : String
  pub failure : Option String

-- `templateData`, without the fields that only pass on the request, the service, the clock and the
-- build's version.
pub record TemplateData : Type 0 where
  pub page_kind : String
  pub title : String
  pub jwt_token : String
  pub claims : Option Claims
  pub opts : Opts
  pub lang : String
  pub is_admin : Bool
  pub user : Option User
  pub user_id : ℤ
  pub error : String
  pub rss_last_tracks : List Post
  pub home_last_tracks : List Post
  pub home_last_users : List User
  pub profile_user : Option User
  pub profile_last_tracks : List Post
  pub profile_tracks : ℤ
  pub calendar_heatmap : List (ℤ × ℤ)
  pub open_users : ℤ
  pub open_tracks : ℤ
  pub open_track_drafts : ℤ
  pub open_comments : ℤ
  pub open_post_views : ℤ
  pub open_home_views : ℤ
  pub open_open_views : ℤ
  pub open_profile_views : ℤ
  pub open_total_duration : ℤ
  pub uploads_by_weekday : List ℤ
  pub last_activities : List Post
  pub url_invalid_msg : String
  pub post : Option Post
  pub comments : List Post
  pub post_edit : Option Post

-- What SoundCloud answers about a track.
pub record SoundCloudTrack : Type 0 where
  pub json : String
  pub title : String
  -- `time.Parse` of its creation date, in nanoseconds
  pub created_at : Option ℤ
  pub genre : String
  pub tag_list : String
  pub duration : ℕ
  pub artwork_url : String
  pub isrc : String
  pub bpm : ℕ
  pub key_signature : String
  pub description : String
  pub is_downloadable : Bool
  pub download_url : String
  pub permalink_url : String

-- A parsed URL: its host, its path and its query value "secret_token".
pub record ParsedUrl : Type 0 where
  pub host : String
  pub path : String
  pub text : String
  pub secret_token : String

-- The user that Discord reports.
pub record DiscordUser : Type 0 where
  pub id : String
  pub username : String
  pub email : String
  pub locale : String
  pub avatar : String
  pub is_verified : Bool
  pub is_bot : Bool

-- The token that Discord's token endpoint gives.
pub record OauthToken : Type 0 where
  pub access_token : String
  -- seconds since 1970
  pub expiry : ℤ

-- What `ExtractBPM` calls. A float64 is the natural number of its bits.
pub record Tempo : Type 0 where
  -- what `sonic-annotator` prints of the tempo of a file
  pub annotate : String → Result String
  -- the records that package csv reads, and the error behind them, if it is not the end
  pub read_csv : String → List (List String) × Option Error
  pub parse_float : String → Option ℕ
  -- a record as `%q` shows it
  pub quoted : List String → String
  pub zero : ℕ
  pub one : ℕ
  pub add : ℕ → ℕ → ℕ
  pub divide : ℕ → ℕ → ℕ
  -- `math.Round(x*100) / 100`
  pub round_to_cents : ℕ → ℕ

-- The packages and programs that the service calls.
pub record Platform : Type 0 where
  -- `time.Now()`, in nanoseconds
  pub now : ℤ
  -- `jwt.ParseWithClaims` with a key function, and `SignedString` of HS256 claims with a key
  pub parse_with_claims : String → (SigningMethod → Result String) → Result Token
  pub sign : Claims → String → Result String
  -- `tmpl.Execute` of the named templates
  pub render : String → TemplateData → Rendered
  -- `http.StatusText`, and the JSON of an error response with a status
  pub status_text : ℕ → String
  pub error_json : String → ℕ → String → String
  -- the JSON of a post (`godev.PrettyJSONPB`)
  pub post_json : Post → String
  pub decode_avatar : AvatarDecoder
  -- base64 of the SHA-256 sum
  pub digest : String → String
  -- `AuthCodeURL` for a redirect URL and a state; `Exchange` of a code; the user behind a token
  pub auth_code_url : String → String → String
  pub exchange : String → String → Result OauthToken
  pub discord_user : OauthToken → Result DiscordUser
  -- `url.Parse`, SoundCloud's `Resolve` and `Track(id).Get`
  pub parse_url : String → Result ParsedUrl
  pub resolve : String → Result ParsedUrl
  pub get_track : ℕ → String → Result SoundCloudTrack
  pub ipfs : AddCalls
  -- `youtube-dl` and the reading of its manifest; the path of the file that it left
  pub youtube_dl : ℤ → String → Result String
  pub tempo : Tempo
  -- the text of the error of `strconv.ParseUint`
  pub parse_uint_error : String → String
  -- `http.ServeContent` of the IPFS file with a content id and a size
  pub serve_content : String → ℤ → Request → Writer → Writer

pub record Service (S : Type 0) : Type 0 where
  pub store : Store S
  pub opts : Opts
  pub platform : Platform
  -- `svc.opts.Snowflake.Generate()`
  pub generate : Action S ℤ
