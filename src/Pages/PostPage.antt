-- ===== src/Pages/PostPage.antt =====
-- pkg/sgtm/page_post.go: `postPage`, the page of a post with its comments.
pub mod Laws
use sgtm.Common.{
  Bool, not, true, false, ◌&&◌, String, Option, none, some, ◌⊎◌, inl, inr, str_eq, ◌<>◌,
  if◌then◌else◌, trim_space,
}
use sgtm.Common.Int.{ℤ, pos, is_zero}
use sgtm.Pb.{Post, User, zero_post, comment, view_post, public}
use sgtm.Pb.PostHelpers
use sgtm.Pb.UserHelpers
use sgtm.Db.{Error}
use sgtm.Service.{Service, TemplateData}
use sgtm.Service.Errors.{begin_page, render_page}
use sgtm.Pages.Blocks.{or_422, find_post, track_view}
use sgtm.Web.{
  Request, Page, ◌>>=◌, ◌>>◌, pure, fault, ask, act, respond, halt, when, write, redirect,
}

module _ {S : Type 0} (svc : Service S) where
  -- `?format=json`: a post without an author would panic here.
  unfoldable pub write_json : Post → Option User → Page S (Unit {0})
  write_json p none = fault
  write_json p (some author) =
      respond (
        write (
          svc.platform.post_json
            (record (PostHelpers.filter p) { author = some (UserHelpers.filter author) })
          <> "\n"))
      >> halt

  -- The comment that a form sends.
  unfoldable pub comment_of : Request → TemplateData → Post → Post
  comment_of r d p = record zero_post {
    kind = comment;
    author_id = d.user_id;
    body = trim_space (r.form "comment");
    visibility = public;
    target_post_id = p.id;
  }

  unfoldable pub save_comment : Request → TemplateData → Post → Page S TemplateData
  unfolding comment_of
  save_comment r d p = do
    done ← act (svc.store.create_post (comment_of r d p))
    stored ← or_422 svc r done
    respond (redirect (PostHelpers.canonical_url (some p)) 302)
    halt

  -- A form that cannot be read shows its error; an empty comment is dropped.
  unfoldable pub post_comment : Request → TemplateData → Post → Option String → Page S TemplateData
  unfolding save_comment
  post_comment r d p (some text) = pure (record d { error = text })
  post_comment r d p none =
      if str_eq (trim_space (r.form "comment")) "" then pure d else save_comment r d p

  unfoldable pub comment_block : Request → TemplateData → Post → Page S TemplateData
  unfolding post_comment
  comment_block r d p =
      if str_eq r.method "POST" && not (is_zero d.user_id)
      then post_comment r d p r.form_error
      else pure d

  -- Load the comments, note the view, show the page.
  unfoldable pub show_post : Request → TemplateData → Post → Page S (Unit {0})
  unfolding track_view render_page
  show_post r d p = do
    found ← ask (svc.store.get_post_comments p.id)
    comments ← or_422 svc r found
    d' ←
        track_view svc
          (record zero_post { author_id = d.user_id; kind = view_post; target_post_id = p.id })
          (record d { comments = comments })
    render_page svc r "post.tmpl.html" d'

  unfoldable pub post_page : Request → Page S (Unit {0})
  unfolding begin_page find_post write_json comment_block show_post
  post_page r = do
    d ← begin_page svc r
    found ← find_post svc r
    let p = PostHelpers.apply_defaults svc.platform.decode_avatar found
    when (str_eq (r.query "format") "json") (write_json p p.author)
    d' ← comment_block r (record d { page_kind = "post"; post = some p }) p
    show_post r d' p
