-- ===== src/Pages/PostEdit.antt =====
-- pkg/sgtm/page_post.go: `postEditPage`, the form in which an author or an admin edits a post.
pub mod Laws
use sgtm.Common.{
  Bool, not, true, false, ◌&&◌, ◌||◌, String, Option, none, some, ◌⊎◌, inl, inr, str_eq, List, [],
  ◌∷◌, if◌then◌else◌, trim_space,
}
use sgtm.Common.Int.{ℤ, int_eq}
use sgtm.Pb.{Post, User, Provider, ipfs, provider_eq}
use sgtm.Pb.PostHelpers.{canonical_url}
use sgtm.Db.{Error, by_map, PostSet}
use sgtm.Service.{Service, TemplateData}
use sgtm.Service.Errors.{begin_page, render_page}
use sgtm.Pages.Blocks.{or_422, not_found, user_or_home, find_post}
use sgtm.Web.{Request, Page, ◌>>=◌, ◌>>◌, pure, fault, ask, act, respond, halt, redirect}

module _ {S : Type 0} (svc : Service S) where
  -- "only author or admin": for a user who is no admin, a post without an author panics.
  unfoldable pub check_author :
      Request → TemplateData → User → Post → Option User → Page S (Unit {0})
  check_author r d u p none = if d.is_admin then pure tt else fault
  check_author r d u p (some author) =
      if not d.is_admin && not (int_eq u.id author.id) then not_found svc r else pure tt

  -- The form's fields; the title of an uploaded track is not trimmed.
  unfoldable pub edit_fields : Request → Post → List PostSet
  edit_fields r p =
      PostSet.title
        (if provider_eq p.provider ipfs then r.form "title" else trim_space (r.form "title"))
      ∷ PostSet.body (trim_space (r.form "body"))
      ∷ PostSet.lyrics (trim_space (r.form "lyrics"))
      ∷ []

  unfoldable pub save_edit : Request → TemplateData → Post → Option String → Page S TemplateData
  unfolding edit_fields
  save_edit r d p (some text) = pure (record d { error = text })
  save_edit r d p none = do
    done ← act (svc.store.update_post p (by_map (edit_fields r p)))
    saved ← or_422 svc r done
    respond (redirect (canonical_url (some p)) 302)
    halt

  -- What the handler has established before it looks at the method.
  unfoldable pub editable : Request → Page S (TemplateData × Post)
  unfolding begin_page find_post check_author
  editable r = do
    d ← begin_page svc r
    u ← user_or_home svc d.user
    p ← find_post svc r
    check_author r d u p p.author
    pure (record d { page_kind = "post-edit"; post_edit = some p }, p)

  unfoldable pub edit_block : Request → TemplateData × Post → Page S (Unit {0})
  unfolding save_edit render_page
  edit_block r (d, p) = do
    d' ← if str_eq r.method "POST" then save_edit r d p r.form_error else pure d
    render_page svc r "post-edit.tmpl.html" d'

  unfoldable pub post_edit_page : Request → Page S (Unit {0})
  unfolding editable edit_block
  post_edit_page r = do ready ← editable r; edit_block r ready
