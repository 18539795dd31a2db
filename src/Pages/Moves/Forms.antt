-- ===== src/Pages/Moves/Forms.antt =====
-- The pages that store what a form or a login gave.
use sgtm.Common.{trim_space, not, ◌&&◌, str_eq, Bool, true, false, Option, none, some, String}
use sgtm.Common.Int.{is_zero}
use sgtm.Pb.{Post, User}
use sgtm.Service.{Service, TemplateData, OauthToken, DiscordUser}
use sgtm.Service.Reads.{
  begin_page-Reads, err_render_html-Reads, render_page-Reads, error_404_page-Reads,
}
use sgtm.Pages.Settings.{settings_page, save_settings}
use sgtm.Pages.PostEdit.{post_edit_page, editable, edit_block, save_edit}
use sgtm.Pages.PostPage.{
  post_page, show_post, post_comment, save_comment, comment_block, write_json,
}
use sgtm.Pages.NewPost.{Draft, refused, accepted, new_page, save_new}
use sgtm.Pages.NewPost.Laws.{validate-Acceptable}
use sgtm.Pages.Maintenance.{
  should_extract_bpm, should_detect_relationships, post_maintenance_page, maintainable, maintain,
  download_if, store_bpm, detect_relationships, return_to,
}
use sgtm.Pages.Login.{http_auth_callback, start_session}
use sgtm.Pages.Login.Laws.{identify-IsLogin}
use sgtm.Pb.PostHelpers.{apply_defaults}
use sgtm.Web.{Request, when, ◌>>=◌}
use sgtm.Web.Hoare.{Reads, reads}
use sgtm.Web.Finds.{Reads-Finds}
use sgtm.Common.Preorder.{IsPreorder}
use sgtm.Web.Moves.{Moves, Moves-Reads, Moves->>=, Moves->>, Moves-act, Moves-if, Moves-pure}
use sgtm.Pages.Moves.{
  Respects, track_view-Moves, begun-Moves, user_or_home-Reads, find_post-Reads, check_author-Reads,
  saves-Moves,
}

module _ {S : Type 0} {R : S → S → Type 0} ⦃order : IsPreorder R⦄ (svc : Service S)
    (law : Respects R svc) where
  -- The end of a handler that stores what a form gave.
  save_settings-Moves :
      (r : Request) (d : TemplateData) (u : User) (o : Option String)
      → Moves R (save_settings svc r d u o)
  unfolding save_settings
  save_settings-Moves r d u (some text) = Moves-pure _
  save_settings-Moves r d u none =
      saves-Moves svc law _ _ (law.update_user u _)
        (λ x. search (reads, err_render_html-Reads) depth 9)

  pub settings_page-Moves : (r : Request) → Moves R (settings_page svc r)
  unfolding settings_page
  settings_page-Moves r = begun-Moves svc law r _ λ d.
      Moves->>= _ _ (Moves-Reads _ (user_or_home-Reads svc d.user)) λ u.
        Moves->>= _ _
          (Moves-if (str_eq r.method "POST") _ _
            (save_settings-Moves r (record d { page_kind = "settings" }) u r.form_error)
            (Moves-pure _))
          (λ d'. Moves-Reads _ (render_page-Reads svc r _ d'))

  save_edit-Moves :
      (r : Request) (d : TemplateData) (p : Post) (o : Option String)
      → Moves R (save_edit svc r d p o)
  unfolding save_edit
  save_edit-Moves r d p (some text) = Moves-pure _
  save_edit-Moves r d p none =
      saves-Moves svc law _ _ (law.update_post p _)
        (λ x. search (reads, err_render_html-Reads) depth 9)

  editable-Reads : (r : Request) → Reads (editable svc r)
  unfolding editable
  editable-Reads r =
      search
        (
          reads,
          begin_page-Reads,
          user_or_home-Reads svc,
          find_post-Reads svc,
          check_author-Reads svc,
        )
        depth 12

  pub post_edit_page-Moves : (r : Request) → Moves R (post_edit_page svc r)
  unfolding post_edit_page edit_block
  post_edit_page-Moves r = Moves->>= _ _ (Moves-Reads _ (editable-Reads r)) λ ready.
      Moves->>= _ _
        (Moves-if (str_eq r.method "POST") _ _ (save_edit-Moves r ready.0 ready.1 r.form_error)
          (Moves-pure _))
        (λ d'. Moves-Reads _ (render_page-Reads svc r _ d'))

  write_json-Reads : (p : Post) (o : Option User) → Reads (write_json svc p o)
  unfolding write_json
  write_json-Reads p none = search reads
  write_json-Reads p (some a) = search reads

  json_block-Reads : (b : Bool) (p : Post) (o : Option User) → Reads (when b (write_json svc p o))
  unfolding when
  json_block-Reads true p o = write_json-Reads p o
  json_block-Reads false p o = search reads

  post_comment-Moves :
      (r : Request) (d : TemplateData) (p : Post) (o : Option String)
      → Moves R (post_comment svc r d p o)
  unfolding post_comment save_comment
  post_comment-Moves r d p (some text) = Moves-pure _
  post_comment-Moves r d p none =
      Moves-if (str_eq (trim_space (r.form "comment")) "") _ _ (Moves-pure d) (
        saves-Moves svc law _ _ (law.create_post _)
          (λ x. search (reads, err_render_html-Reads) depth 9))

  comment_block-Moves :
      (r : Request) (d : TemplateData) (p : Post) → Moves R (comment_block svc r d p)
  unfolding comment_block
  comment_block-Moves r d p =
      Moves-if (str_eq r.method "POST" && not (is_zero d.user_id)) _ _
        (post_comment-Moves r d p r.form_error) (Moves-pure d)

  show_post-Moves : (r : Request) (d : TemplateData) (p : Post) → Moves R (show_post svc r d p)
  unfolding show_post
  show_post-Moves r d p = Moves->>= _ _ (Moves-Reads _ (search reads)) λ found.
      Moves->>= _ _ (Moves-Reads _ (search (reads, err_render_html-Reads))) λ comments.
        Moves->>= _ _ (track_view-Moves svc law _ _)
          λ d'. Moves-Reads _ (render_page-Reads svc r _ d')

  commented-Moves :
      (r : Request) (d : TemplateData) (p : Post)
      → Moves R (comment_block svc r d p >>= λ d'. show_post svc r d' p)
  commented-Moves r d p = Moves->>= _ _ (comment_block-Moves r d p) (λ d'. show_post-Moves r d' p)

  pub post_page-Moves : (r : Request) → Moves R (post_page svc r)
  unfolding post_page
  post_page-Moves r = begun-Moves svc law r _ λ d.
      Moves->>= _ _ (Moves-Reads _ (find_post-Reads svc r)) λ p.
        Moves->> _ _ (Moves-Reads _ (json_block-Reads _ _ _)) (
          commented-Moves r
            (record d {
              page_kind = "post";
              post = some (apply_defaults svc.platform.decode_avatar p);
            })
            (apply_defaults svc.platform.decode_avatar p))

  save_new-Moves : (r : Request) (x : Draft) → Moves R (save_new svc r x)
  unfolding save_new
  save_new-Moves r (refused d) = Moves-pure _
  save_new-Moves r (accepted p) =
      saves-Moves svc law _ _ (law.create_post p)
        (λ x. search (reads, err_render_html-Reads) depth 9)

  pub new_page-Moves : (r : Request) → Moves R (new_page svc r)
  unfolding new_page
  new_page-Moves r = begun-Moves svc law r _ λ d.
      Moves->>= _ _ (Moves-Reads _ (user_or_home-Reads svc d.user)) λ u.
        Moves->>= _ _
          (Moves-if (str_eq r.method "POST") _ _
            (Moves->>= _ _
              (Moves-Reads _ (Reads-Finds (λ s. validate-Acceptable svc r s d u r.form_error)))
              (save_new-Moves r))
            (Moves-pure _))
          (λ d'. Moves-Reads _ (render_page-Reads svc r _ d'))

  download_if-Reads : (b : Bool) (r : Request) (p : Post) → Reads (download_if svc b r p)
  unfolding download_if
  download_if-Reads false r p = search reads
  download_if-Reads true r p = search (reads, err_render_html-Reads) depth 9

  store_bpm-Moves : (r : Request) (p : Post) (path : String) → Moves R (store_bpm svc r p path)
  unfolding store_bpm
  store_bpm-Moves r p path = Moves->>= _ _ (Moves-Reads _ (search reads)) λ found.
      Moves->>= _ _ (Moves-Reads _ (search (reads, err_render_html-Reads))) λ bpm.
        saves-Moves svc law _ _ (law.update_post _ _)
          (λ x. search (reads, err_render_html-Reads) depth 9)

  detect_relationships-Moves : (r : Request) (p : Post) → Moves R (detect_relationships svc r p)
  unfolding detect_relationships
  detect_relationships-Moves r p =
      saves-Moves svc law _ _ (law.check_and_update_post p)
        (λ x. search (reads, err_render_html-Reads) depth 9)

  maintainable-Reads : (r : Request) → Reads (maintainable svc r)
  unfolding maintainable
  maintainable-Reads r =
      search
        (
          reads,
          begin_page-Reads,
          error_404_page-Reads,
          user_or_home-Reads svc,
          find_post-Reads svc,
          check_author-Reads svc,
        )
        depth 14

  pub post_maintenance_page-Moves : (r : Request) → Moves R (post_maintenance_page svc r)
  unfolding post_maintenance_page maintain return_to
  post_maintenance_page-Moves r = Moves->>= _ _ (Moves-Reads _ (maintainable-Reads r)) λ ready.
      Moves->>= _ _ (Moves-Reads _ (download_if-Reads _ r _)) λ path.
        Moves->> _ _ (Moves-Reads _ (search (reads, error_404_page-Reads))) (
          Moves->>= _ _
            (Moves-if (should_extract_bpm svc r) _ _ (store_bpm-Moves r ready.1 path)
              (Moves-pure ready.1))
            λ p'.
              Moves->>= _ _
                (Moves-if (should_detect_relationships svc r) _ _ (detect_relationships-Moves r p')
                  (Moves-pure _))
                λ p''. Moves-Reads _ (search (reads, render_page-Reads) depth 9))

  start_session-Moves :
      (r : Request) (token : OauthToken) (discord : DiscordUser)
      → Moves R (start_session svc r (token, discord))
  unfolding start_session
  start_session-Moves r token discord = Moves->>= _ _ (Moves-act _ (law.create_user _)) λ created.
      Moves->>= _ _ (Moves-Reads _ (search (reads, err_render_html-Reads))) λ u.
        saves-Moves svc law _ _ law.generate
          (λ drawn. search (reads, err_render_html-Reads) depth 14)

  pub http_auth_callback-Moves : (r : Request) → Moves R (http_auth_callback svc r)
  unfolding http_auth_callback
  http_auth_callback-Moves r =
      Moves->>= _ _ (Moves-Reads _ (Reads-Finds (λ s. identify-IsLogin svc r s)))
        (λ known. start_session-Moves r known.0 known.1)
