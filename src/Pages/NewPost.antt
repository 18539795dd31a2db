-- ===== src/Pages/NewPost.antt =====
-- pkg/sgtm/page_new.go: `newPage`, which makes a post of an uploaded file or of a SoundCloud link.
mod Filename
mod TrackPath
pub mod Laws
pub use Filename.*
pub use TrackPath.*
use sgtm.Common.{
  ℕ, Bool, not, true, false, String, Option, none, some, ◌⊎◌, inl, inr, str_eq, List, [], ◌∷◌, ◌++◌,
  if◌then◌else◌, ◌<>◌, split, join, replace_all, escape_html,
}
use sgtm.Common.Int.{ℤ, pos, is_zero}
use sgtm.Common.Decimal.{format_int, parse_uint}
use sgtm.Pb.{Post, User, zero_post, track, public, draft, sound_cloud, ipfs, sound_cloud_track}
use sgtm.Pb.PostHelpers.{canonical_url, safe_title}
use sgtm.Db.{Error, error_text, Result, ok, err, panic}
use sgtm.Service.{Service, TemplateData, ParsedUrl, SoundCloudTrack}
use sgtm.Service.Errors.{begin_page, render_page}
use sgtm.Pages.Blocks.{or_422, user_or_home}
use sgtm.Ipfs.Add.{ipfs_add}
use sgtm.Web.{Request, Upload, Page, ◌>>=◌, ◌>>◌, pure, fault, ask, act, respond, halt, redirect}

-- What `validate` gives: the page's data with a message, or the post to store.
pub data Draft : Type 0 where
  refused : TemplateData → Draft
  accepted : Post → Draft

-- `data.Error = …; return nil` and `data.New.URLInvalidMsg = …; return nil`
abbrev pub refuse : TemplateData → String → Draft
refuse d text = refused (record d { error = text })

abbrev pub refuse_url : TemplateData → String → Draft
refuse_url d text = refused (record d { url_invalid_msg = text })

-- The link to a post that is there already; the title goes in as it is.
unfoldable pub already_exists : String → Post → String
already_exists link p =
    "This track already exists: <a href=\"" <> link <> "\">" <> safe_title p <> "</a>."

unfoldable pub uploaded_post : ℤ → ℤ → String → String → Upload → Post
uploaded_post author_id now cid mime_type file = record zero_post {
  kind = track;
  visibility = public;
  author_id = author_id;
  provider_title = (name_parts file.filename).0;
  sort_date = now;
  url = "https://ipfs.io/ipfs/" <> cid;
  provider = ipfs;
  ipfs_cid = cid;
  mime_type = mime_type;
  size_bytes = file.size;
  file_extension = (name_parts file.filename).1;
  attachment_filename = file.filename;
}

abbrev date_or : Option ℤ → ℤ → ℤ
date_or none now = now
date_or (some t) now = t

unfoldable pub linked_post : ℤ → ℤ → ℕ → String → SoundCloudTrack → String → Post
linked_post author_id now scid secret t submit = record zero_post {
  kind = track;
  visibility = if str_eq submit "draft" then draft else public;
  author_id = author_id;
  sort_date = date_or t.created_at now;
  soundcloud_kind = sound_cloud_track;
  soundcloud_id = scid;
  soundcloud_secret_token = secret;
  provider_metadata = t.json;
  provider_title = t.title;
  provider_created_at = date_or t.created_at (pos 0);
  tags = join ", " (t.genre ∷ split " " t.tag_list);
  duration = t.duration;
  artwork_url = replace_all t.artwork_url "-large.jpg" "-t500x500.jpg";
  isrc = t.isrc;
  bpm = t.bpm;
  key_signature = t.key_signature;
  provider_description = t.description;
  download_url = if t.is_downloadable then t.download_url else "";
  url = t.permalink_url;
  provider = sound_cloud;
}

module _ {S : Type 0} (svc : Service S) where
  -- A file whose part has no type panics.
  unfoldable new_upload : TemplateData → User → String → Upload → Option String → Page S Draft
  unfolding uploaded_post
  new_upload d u cid file none = fault
  new_upload d u cid file (some mime_type) =
      pure (accepted (uploaded_post u.id svc.platform.now cid mime_type file))

  -- A track with this content id is refused, unless its id is 0; a failed search is no track.
  unfoldable unless_known : TemplateData → User → String → Upload → Error ⊎ Post → Page S Draft
  unfolding new_upload already_exists
  unless_known d u cid file (inl e) = new_upload d u cid file file.content_type
  unless_known d u cid file (inr p) =
      if is_zero p.id
      then new_upload d u cid file file.content_type
      else pure (refuse_url d (already_exists ("/post/" <> format_int p.id) p))

  unfoldable with_cid : TemplateData → User → Upload → Error ⊎ String → Page S Draft
  unfolding unless_known
  with_cid d u file (inl e) = pure (refuse d (error_text e))
  with_cid d u file (inr cid) = ask (svc.store.get_track_by_cid cid) >>= unless_known d u cid file

  unfoldable pub from_upload : TemplateData → User → String ⊎ Upload → Page S Draft
  unfolding with_cid
  from_upload d u (inl text) = pure (refuse d text)
  from_upload d u (inr file) =
      ask (λ s. ipfs_add svc.platform.ipfs svc.opts.ipfs_api file.content) >>= with_cid d u file

  unfoldable from_track :
      Request → TemplateData → User → ℕ → String → Error ⊎ SoundCloudTrack → Page S Draft
  unfolding linked_post
  from_track r d u scid secret (inl e) =
      pure (refuse_url d ("Fetch track info from SoundCloud: " <> error_text e <> "."))
  from_track r d u scid secret (inr t) =
      pure (accepted (linked_post u.id svc.platform.now scid secret t (r.form "submit")))

  unfoldable fetch_track : Request → TemplateData → User → ℕ → String → Page S Draft
  unfolding from_track
  fetch_track r d u scid secret =
      ask (λ s. svc.platform.get_track scid secret) >>= from_track r d u scid secret

  unfoldable unless_linked :
      Request → TemplateData → User → ℕ → String → Error ⊎ Post → Page S Draft
  unfolding fetch_track already_exists
  unless_linked r d u scid secret (inl e) = fetch_track r d u scid secret
  unless_linked r d u scid secret (inr p) =
      if is_zero p.id
      then fetch_track r d u scid secret
      else pure (refuse_url d (already_exists (canonical_url (some p)) p))

  unfoldable with_number : Request → TemplateData → User → String → String → Option ℕ → Page S Draft
  unfolding unless_linked
  with_number r d u text secret none =
      pure (refuse_url d ("Parse track ID: " <> svc.platform.parse_uint_error text <> "."))
  with_number r d u text secret (some scid) =
      ask (svc.store.get_track_by_scid scid) >>= unless_linked r d u scid secret

  unfoldable with_path : Request → TemplateData → User → String → Option String → Page S Draft
  unfolding with_number
  with_path r d u secret none = pure (refuse_url d "Invalid SoundCloud track link.")
  with_path r d u secret (some text) = with_number r d u text secret (parse_uint text)

  unfoldable with_resolved : Request → TemplateData → User → Error ⊎ ParsedUrl → Page S Draft
  unfolding with_path
  with_resolved r d u (inl e) = pure (refuse_url d "This URL does not exist on SoundCloud.com.")
  with_resolved r d u (inr url) = with_path r d u url.secret_token (track_path url.path)

  unfoldable with_url : Request → TemplateData → User → Error ⊎ ParsedUrl → Page S Draft
  unfolding with_resolved
  with_url r d u (inl e) = pure (refuse d ("Parse URL: " <> error_text e))
  with_url r d u (inr url) =
      if str_eq url.host "soundcloud.com"
      then ask (λ s. svc.platform.resolve url.text) >>= with_resolved r d u
      else pure (refuse_url d ("Unsupported provider: " <> escape_html url.host <> "."))

  unfoldable pub from_url : Request → TemplateData → User → Page S Draft
  unfolding with_url
  from_url r d u = ask (λ s. svc.platform.parse_url (r.form "url")) >>= with_url r d u

  unfoldable pub validate : Request → TemplateData → User → Option String → Page S Draft
  unfolding from_upload from_url
  validate r d u (some text) = pure (refuse d text)
  validate r d u none =
      if str_eq (r.form "url") "" then from_upload d u r.upload else from_url r d u

  -- A post that is accepted is stored, and its page is next.
  unfoldable pub save_new : Request → Draft → Page S TemplateData
  save_new r (refused d) = pure d
  save_new r (accepted p) = do
    done ← act (svc.store.create_post p)
    stored ← or_422 svc r done
    respond (redirect (canonical_url (some stored)) 302)
    halt

  unfoldable pub new_page : Request → Page S (Unit {0})
  unfolding begin_page validate save_new render_page
  new_page r = do
    d ← begin_page svc r
    u ← user_or_home svc d.user
    d' ← if str_eq r.method "POST" then validate r d u r.form_error >>= save_new r else pure d
    render_page svc r "new.tmpl.html" d'
