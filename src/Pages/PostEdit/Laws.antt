-- ===== src/Pages/PostEdit/Laws.antt =====
-- Who can edit a post, and how.
use sgtm.Common.{◌≡◌, refl, ◌⊎◌, inl, inr, Option, none, some, str_eq, eq_iff, String}
use sgtm.Pb.{Post, User}
use sgtm.Db.{by_map}
use sgtm.Service.{Service, TemplateData}
use sgtm.Service.Reads.{err_render_html-Reads, render_page-Reads}
use sgtm.Service.Laws.{begin_page-KnowsVisitor}
use sgtm.Pages.Access.{
  MayEdit, find_post-Found, user_or_home-some, check_author-Rights, KnowsVisitor-MayEdit,
}
use sgtm.Pages.PostEdit.{editable, edit_block, edit_fields, save_edit, post_edit_page}
use sgtm.Web.{Request, World}
use sgtm.Web.Hoare.{reads}
use sgtm.Web.Finds.{Finds, Finds->>=, Finds-then, Finds-pure}
use sgtm.Web.Ends.{Ends, Ends->>=, Ends-Reads, Ends-then, Ends-act, Ends-if}

module _ {S : Type 0} (svc : Service S) (r : Request) (s : S) where
  abbrev CanEdit : Post → Type 0
  CanEdit p = (u : User) × MayEdit svc r s u p

  editable-CanEdit : Finds s (λ ready. CanEdit ready.1) (editable svc r)
  unfolding editable
  editable-CanEdit = Finds->>= (begin_page-KnowsVisitor svc r s) λ d known.
      Finds->>= (user_or_home-some svc r s d.user) λ u is_u.
        Finds->>= (find_post-Found svc r s) λ p found.
          Finds-then (check_author-Rights svc r s d u p p.author)
            λ _ rights. Finds-pure _ (u, KnowsVisitor-MayEdit svc r s d u p known is_u found rights)

  -- The form is sent, it can be read, and its post may be edited by its sender.
  pub record IsEdit (p : Post) : Type 0 where
    pub method : r.method ≡ "POST"
    pub form : r.form_error ≡ none
    pub editor : User
    pub may : MayEdit svc r s editor p

  -- The database behind the request: nothing is written, or the edit of one post.
  abbrev pub Edited : S → Type 0
  Edited s' =
      (s' ≡ s)
      ⊎ ((p : Post) × IsEdit p
          × (s' ≡ (svc.store.update_post p (by_map (edit_fields svc r p)) s).1))

  save_edit-Edited :
      (d : TemplateData) (p : Post) (o : Option String)
      → r.form_error ≡ o
      → r.method ≡ "POST"
      → CanEdit p
      → Ends s Edited (save_edit svc r d p o)
  unfolding save_edit
  save_edit-Edited d p (some text) form method can = Ends-Reads (search reads) (inl refl)
  save_edit-Edited d p none form method (u, may) =
      Ends-act _ (inr (p, record { method = method; form = form; editor = u; may = may }, refl))
        (λ x. search (reads, err_render_html-Reads) depth 9)

  edit_block-Edited :
      (d : TemplateData) (p : Post) → CanEdit p → Ends s Edited (edit_block svc r (d, p))
  unfolding edit_block
  edit_block-Edited d p can =
      Ends-then
        (Ends-if (str_eq r.method "POST")
          (λ e. save_edit-Edited d p r.form_error refl ((eq_iff r.method "POST").0 e) can)
          (λ _. Ends-Reads (search reads) (inl refl)))
        (λ d'. render_page-Reads svc r _ d')

module _ {S : Type 0} where
  -- However a request to the edit page ends, the database is as it was, or it is what one call of
  -- `UpdatePost`, with exactly the title, body and lyrics of the form, made of it for the post
  -- that the path names, and then the request is a POST whose form could be read, of a user whom
  -- the session's token names and who is an admin by the stored role or the post's author.
  pub post_edit_page-Edited :
      (svc : Service S) (r : Request) (w : World S)
      → Edited svc r w.db (post_edit_page svc r w).1.db
  unfolding post_edit_page
  post_edit_page-Edited svc r w =
      let h : Ends w.db (Edited svc r w.db) (post_edit_page svc r) =
        Ends->>= (editable-CanEdit svc r w.db) (inl refl)
          (λ ready can. edit_block-Edited svc r w.db ready.0 ready.1 can) in
      h.ended w refl
