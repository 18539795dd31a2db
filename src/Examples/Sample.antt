-- ===== src/Examples/Sample.antt =====
-- A service over a database in memory.
use sgtm.Common.{
  ◌+◌, ◌/◌, true, false, String, none, some, [], ◌∷◌, inl, inr, str_eq, if◌then◌else◌,
}
use sgtm.Common.Int.{pos}
use sgtm.Pb.{User, Post, zero_user, zero_post, track, public}
use sgtm.Db.{Result, ok, err, failed, then_result}
use sgtm.Db.Memory.{Memory, memory}
use sgtm.Opts.{default_opts}
use sgtm.Store.{new_store}
use sgtm.Service.{Service, Platform, Tempo, Claims, Token, SigningMethod, hmac}
use sgtm.Web.{Request, World, new_writer}

abbrev pub alice : User
alice = record zero_user { id = pos 1; slug = "alice"; discord_username = "alice#7" }

abbrev pub song : Post
song = record zero_post {
  id = pos 5;
  kind = track;
  visibility = public;
  title = "song";
  author = some alice;
  author_id = pos 1;
}

abbrev pub rows : Memory
rows = record { users = alice ∷ []; posts = song ∷ []; relationships = []; next = 100 }

abbrev pub alice_claims : Claims
alice_claims = record {
  session = some (record { user_id = pos 1; discord_access_token = "access" });
  id = "9";
  expires_at = pos 2000;
  issuer = "discord";
  issued_at = pos 1000;
  audience = "sgtm";
}

-- The key itself is the signed text of the claims of `alice`.
abbrev pub parse_key : String → (SigningMethod → Result String) → Result Token
parse_key text f = then_result (f hmac) λ key.
    if str_eq text key
    then ok (record { claims = alice_claims; valid = true })
    else err (failed "signature")

-- Floats that are whole numbers, and a text that is one record.
abbrev pub sample_tempo : Tempo
sample_tempo = record {
  annotate = λ path. ok path;
  read_csv = λ text. ((text ∷ "0.0" ∷ "120" ∷ []) ∷ (text ∷ "9.5" ∷ "124" ∷ []) ∷ [], none);
  parse_float = λ text. some (if str_eq text "120" then 120 else 124);
  quoted = λ line. "record";
  zero = 0;
  one = 1;
  add = λ a b. a + b;
  divide = λ a b. a / b;
  round_to_cents = λ a. a;
}

abbrev pub sample_platform : Platform
sample_platform = record {
  now = pos 1000000000000;
  parse_with_claims = parse_key;
  sign = λ claims key. ok key;
  render = λ name d. record { output = name; failure = none };
  status_text = λ code. "status";
  error_json = λ text code status. text;
  post_json = λ p. p.title;
  decode_avatar = λ text. none;
  digest = λ text. text;
  auth_code_url = λ url state. url;
  exchange = λ url code. ok (record { access_token = "access"; expiry = pos 2000 });
  discord_user = λ token. ok (record {
    id = "7";
    username = "bob";
    email = "bob@example.org";
    locale = "en";
    avatar = "a";
    is_verified = true;
    is_bot = false;
  });
  parse_url = λ text.
      ok (record { host = "soundcloud.com"; path = "/bob/tune"; text = text; secret_token = "" });
  resolve = λ text.
      ok (record {
        host = "api.soundcloud.com";
        path = "/tracks/12";
        text = text;
        secret_token = "";
      });
  get_track = λ scid secret. err (failed "offline");
  ipfs = record {
    pipe_error = none;
    copy_error = λ content. none;
    combined_output = λ args content. ("Qm1\n", none);
  };
  youtube_dl = λ i url. err (failed "offline");
  tempo = sample_tempo;
  parse_uint_error = λ text. text;
  serve_content = λ cid size r w. w;
}

abbrev pub sample_service : Service Memory
sample_service = record {
  store = new_store memory (λ text. none);
  opts = record default_opts { jwt_signing_key = "key"; discord_client_secret = "secret" };
  platform = sample_platform;
  generate = λ m. (ok (pos m.next), record m { next = 200 });
}

abbrev pub first_world : World Memory
first_world = record { db = rows; writer = new_writer }

-- A request without a cookie; then a form that is sent by `alice`, and a file.
abbrev pub anonymous_request : Request
anonymous_request = record {
  method = "GET";
  host = "localhost";
  is_tls = false;
  user_agent = "agent";
  path = "/";
  post_slug = "5";
  user_slug = "nobody";
  query = λ name.
      if str_eq name "state"
      then "agentsecret"
      else if str_eq name "detect_relationships"
      then "1"
      else "";
  oauth_cookie = none;
  form_error = none;
  form = λ name. "text";
  upload = inl "no file";
}

abbrev pub alice_form : Request
alice_form = record anonymous_request { method = "POST"; oauth_cookie = some "key" }

abbrev pub alice_upload : Request
alice_upload = record alice_form {
  form = λ name. "";
  upload = inr (record {
    filename = "tune.mp3";
    size = pos 3;
    content_type = some "audio/mpeg";
    content = "abc";
  });
}
