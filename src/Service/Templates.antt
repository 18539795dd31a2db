-- ===== src/Service/Templates.antt =====
-- pkg/sgtm/templates.go: `newTemplateData`, which every page begins with.
use sgtm.Common.{false, String, Option, none, some, [], ◌⊎◌, inl, inr, if◌then◌else◌, ◌<>◌, str_eq}
use sgtm.Common.Int.{pos}
use sgtm.Pb.{User, Session}
use sgtm.Opts.{filtered}
use sgtm.Db.{Error}
use sgtm.Service.Types.{Service, Claims, TemplateData}
use sgtm.Service.Auth.{parse_jwt_token, wrap}
use sgtm.Web.{Request, Page, ◌>>=◌, ◌>>◌, pure, fault, ask, respond, set_header}

module _ {S : Type 0} (svc : Service S) where
  unfoldable pub base_data : TemplateData
  base_data = record {
    page_kind = "other";
    title = if svc.opts.dev_mode then "SGTM" <> " (dev)" else "SGTM";
    jwt_token = "";
    claims = none;
    opts = filtered svc.opts;
    lang = "en";
    is_admin = false;
    user = none;
    user_id = pos 0;
    error = "";
    rss_last_tracks = [];
    home_last_tracks = [];
    home_last_users = [];
    profile_user = none;
    profile_last_tracks = [];
    profile_tracks = pos 0;
    calendar_heatmap = [];
    open_users = pos 0;
    open_tracks = pos 0;
    open_track_drafts = pos 0;
    open_comments = pos 0;
    open_post_views = pos 0;
    open_home_views = pos 0;
    open_open_views = pos 0;
    open_profile_views = pos 0;
    open_total_duration = pos 0;
    uploads_by_weekday = [];
    last_activities = [];
    url_invalid_msg = "";
    post = none;
    comments = [];
    post_edit = none;
  }

  -- The fields that the signed-in user fills; a failed query leaves the page anonymous.
  unfoldable pub with_user : TemplateData → Error ⊎ User → TemplateData
  with_user d (inl e) = d
  with_user d (inr u) = record d { user = some u; user_id = u.id; is_admin = str_eq u.role "admin" }

  -- The slug goes into the response's header, for the access log.
  unfoldable pub log_user : Error ⊎ User → Page S (Unit {0})
  log_user (inl e) = pure tt
  log_user (inr u) = respond (set_header "SGTM-User-Slug" u.slug)

  -- Claims without a session make `data.Claims.Session.UserID` panic.
  unfoldable pub load_user : TemplateData → Option Session → Page S TemplateData
  unfolding with_user log_user
  load_user d none = fault
  load_user d (some session) = do
    user ← ask (svc.store.get_user_recent_post session.user_id)
    log_user user
    pure (with_user d user)

  unfoldable pub signed_in : String → Error ⊎ Claims → Page S (Error ⊎ TemplateData)
  unfolding load_user base_data
  signed_in text (inl e) = pure (inl e)
  signed_in text (inr c) = do
    d ← load_user (record base_data { jwt_token = text; claims = some c }) c.session
    pure (inr d)

  unfoldable pub with_cookie : Option String → Page S (Error ⊎ TemplateData)
  unfolding signed_in
  with_cookie none = respond (set_header "SGTM-User-Slug" "-") >> pure (inr base_data)
  with_cookie (some text) =
      ask (λ s. wrap "parse jwt token" (parse_jwt_token svc text)) >>= signed_in text

  unfoldable pub new_template_data : Request → Page S (Error ⊎ TemplateData)
  unfolding with_cookie
  new_template_data r = with_cookie r.oauth_cookie
