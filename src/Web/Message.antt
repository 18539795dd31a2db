-- ===== src/Web/Message.antt =====
-- Requests and the response writer, as far as the handlers use them.
use sgtm.Common.{
  ℕ, Bool, String, Option, none, some, List, [], ◌∷◌, ◌<>◌, ◌⊎◌, if◌then◌else◌, str_eq,
}
use sgtm.Common.Int.{ℤ}

-- The file of a multipart form: its name, size, declared type and bytes.
pub record Upload : Type 0 where
  pub filename : String
  pub size : ℤ
  -- the first value of its "Content-Type", if it has one
  pub content_type : Option String
  pub content : String

pub record Request : Type 0 where
  pub method : String
  pub host : String
  pub is_tls : Bool
  pub user_agent : String
  -- the path, and `chi.URLParam` of "post_slug" and "user_slug"
  pub path : String
  pub post_slug : String
  pub user_slug : String
  -- `r.URL.Query().Get`
  pub query : String → String
  -- the value of the cookie "oauth-token"
  pub oauth_cookie : Option String
  -- the error of `ParseForm` or `ParseMultipartForm`, and `r.Form.Get` after it
  pub form_error : Option String
  pub form : String → String
  -- `r.FormFile("upload")`
  pub upload : String ⊎ Upload

pub record Cookie : Type 0 where
  pub name : String
  pub value : String
  pub path : String
  pub expires : ℤ
  pub max_age : ℤ
  pub http_only : Bool

-- `status` is set by the first `WriteHeader` or `Write`; the headers are sent then.
pub record Writer : Type 0 where
  pub header : List (String × String)
  pub cookies : List Cookie
  pub status : Option ℕ
  pub body : String

abbrev pub new_writer : Writer
new_writer = record { header = []; cookies = []; status = none; body = "" }

pub put : String → String → List (String × String) → List (String × String)
put k v [] = (k, v) ∷ []
put k v (e ∷ h) = if str_eq e.0 k then (k, v) ∷ h else e ∷ put k v h

-- A header set after the headers are sent is not sent.
abbrev set_if_open : Option ℕ → String → String → Writer → Writer
set_if_open none k v w = record w { header = put k v w.header }
set_if_open (some code) k v w = w

abbrev pub set_header : String → String → Writer → Writer
set_header k v w = set_if_open w.status k v w

abbrev add_if_open : Option ℕ → Cookie → Writer → Writer
add_if_open none c w = record w { cookies = c ∷ w.cookies }
add_if_open (some code) c w = w

abbrev pub set_cookie : Cookie → Writer → Writer
set_cookie c w = add_if_open w.status c w

-- The first status stays.
abbrev first_status : Option ℕ → ℕ → Option ℕ
first_status none code = some code
first_status (some old) code = some old

abbrev pub write_header : ℕ → Writer → Writer
write_header code w = record w { status = first_status w.status code }

abbrev pub write : String → Writer → Writer
write text w = record w { status = first_status w.status 200; body = w.body <> text }

-- `http.Redirect`, without the short body that it writes for a browser that does not follow it
abbrev pub redirect : String → ℕ → Writer → Writer
redirect url code w = write_header code (set_header "Location" url w)
