-- ===== src/Pages/PostPage/Laws.antt =====
-- What the page of a post writes.
use sgtm.Common.{
  arith, Bool, true, false, not, ◌&&◌, ◌≡◌, refl, ◌⊎◌, inl, inr, Option, none, some, str_eq, eq_iff,
  String, trim_space, ap, sym, ◌∙◌,
}
use sgtm.Common.Int.{ℤ, is_zero}
use sgtm.Pb.{Post, User, zero_post, view_post}
use sgtm.Pb.PostHelpers
use sgtm.Service.{Service, TemplateData}
use sgtm.Service.Reads.{err_render_html-Reads, render_page-Reads}
use sgtm.Service.Laws.{KnowsVisitor, begin_page-KnowsVisitor}
use sgtm.Pages.Access.{Found, find_post-Found}
use sgtm.Pages.Blocks.{track_view}
use sgtm.Pages.PostPage.{
  write_json, comment_of, save_comment, post_comment, comment_block, show_post, post_page,
}
use sgtm.Web.{Request, World, when}
use sgtm.Web.Hoare.{reads}
use sgtm.Web.Finds.{
  Finds, Finds->>=, Finds->>, Finds-pure, Finds-halt, Finds-ask, Finds-fault, Finds-value_or,
  Finds-weaken,
}
use sgtm.Web.Ends.{
  Ends, Ends->>=, Ends->>, Ends-then, Ends-act, Splits, Splits->>=, Splits-Finds, Splits-act,
  Splits-if,
}

module _ {S : Type 0} (svc : Service S) (r : Request) (s : S) where
  -- A comment that the request may leave on the post `p`.
  pub record IsComment (p : Post) (d : TemplateData) : Type 0 where
    pub method : r.method ≡ "POST"
    pub form : r.form_error ≡ none
    pub text : str_eq (trim_space (r.form "comment")) "" ≡ false
    pub author : is_zero d.user_id ≡ false

  abbrev pub view_of : TemplateData → Post → Post
  view_of d p = record zero_post { author_id = d.user_id; kind = view_post; target_post_id = p.id }

  abbrev pub shown : Post → Post
  shown p = PostHelpers.apply_defaults svc.platform.decode_avatar p

  -- The database behind the request: as before, with one comment, or with one noted view.
  abbrev Written : TemplateData → Post → S → Type 0
  Written d p s' =
      (IsComment p d × (s' ≡ (svc.store.create_post (comment_of svc r d p) s).1))
      ⊎ (s' ≡ (svc.store.create_post (view_of d p) s).1)

  abbrev pub Visited : S → Type 0
  Visited s' =
      (s' ≡ s)
      ⊎ ((d : TemplateData) × (p : Post) × KnowsVisitor svc r s d
          × Found svc r s p
          × Written d (shown p) s')

  module _ (d : TemplateData) (p : Post) (known : KnowsVisitor svc r s d)
      (found : Found svc r s p) where
    abbrev SameVisitor : TemplateData → Type 0
    SameVisitor d' = d'.user_id ≡ d.user_id

    save_comment-Visited :
        (d' : TemplateData)
        → SameVisitor d'
        → IsComment (shown p) d
        → Splits s SameVisitor Visited (save_comment svc r d' (shown p))
    unfolding save_comment comment_of
    save_comment-Visited d' e c =
        Splits-act _
          (inr (
            d,
            p,
            known,
            found,
            inl (
              c,
              ap
                  (λ (i : ℤ).
                    (svc.store.create_post (record (comment_of svc r d (shown p)) { author_id = i })
                      s).1)
                  e,
            ),
          ))
          (λ x.
            Finds->>= (Finds-value_or x (λ err. err_render_html-Reads svc r err 422))
              λ _ _. Finds->> (search reads) (Finds-halt _))

    post_comment-Visited :
        (d' : TemplateData) (o : Option String)
        → SameVisitor d'
        → r.form_error ≡ o
        → r.method ≡ "POST"
        → is_zero d.user_id ≡ false
        → Splits s SameVisitor Visited (post_comment svc r d' (shown p) o)
    unfolding post_comment
    post_comment-Visited d' (some text) e form method author =
        Splits-Finds (Finds-pure _ e) (inl refl)
    post_comment-Visited d' none e form method author =
        Splits-if (str_eq (trim_space (r.form "comment")) "")
          (λ _. Splits-Finds (Finds-pure _ e) (inl refl))
          (λ text.
            save_comment-Visited d' e
              (record { method = method; form = form; text = text; author = author }))

    comment_block-Visited :
        (d' : TemplateData)
        → SameVisitor d'
        → Splits s SameVisitor Visited (comment_block svc r d' (shown p))
    unfolding comment_block
    comment_block-Visited d' e =
        Splits-if (str_eq r.method "POST" && not (is_zero d'.user_id))
          (λ h.
            post_comment-Visited d' r.form_error e refl ((eq_iff r.method "POST").0 (ground arith))
              (ap is_zero (sym e) ∙ ground arith))
          (λ _. Splits-Finds (Finds-pure _ e) (inl refl))

    show_post-Visited :
        (d' : TemplateData) → SameVisitor d' → Ends s Visited (show_post svc r d' (shown p))
    unfolding show_post track_view
    show_post-Visited d' e =
        Ends->>= (Finds-ask (svc.store.get_post_comments (shown p).id)) (inl refl) λ x _.
          Ends->>= (Finds-value_or x (λ err. err_render_html-Reads svc r err 422)) (inl refl)
            λ comments _.
              Ends-then
                (Ends-act _
                  (inr (
                    d,
                    p,
                    known,
                    found,
                    inr (
                        ap
                          (λ (i : ℤ).
                            (svc.store.create_post (record (view_of d (shown p)) { author_id = i })
                              s).1)
                          e),
                  ))
                  (λ x. search reads))
                (λ d2. render_page-Reads svc r _ d2)

  write_json-Finds : (p : Post) (o : Option User) → Finds s (λ _. ⊥) (write_json svc p o)
  unfolding write_json
  write_json-Finds p none = Finds-fault _
  write_json-Finds p (some a) = Finds->> (search reads) (Finds-halt _)

  json_block-Finds :
      (b : Bool) (p : Post) (o : Option User)
      → Finds s (λ _. Unit {0}) (when b (write_json svc p o))
  unfolding when
  json_block-Finds true p o = Finds-weaken (write_json-Finds p o) (λ _ _. tt)
  json_block-Finds false p o = Finds-pure tt tt

module _ {S : Type 0} where
  -- However a request for the page of a post ends, the database is as it was, or it is what one
  -- call of `CreatePost` about the post that the path names made of it: with the comment of the
  -- form, and then the request is a POST whose form could be read, the comment is not blank, and
  -- the visitor's id is not 0; or with a view by the visitor. The visitor is anonymous or the user
  -- whom the session's token names.
  pub post_page-Visited :
      (svc : Service S) (r : Request) (w : World S) → Visited svc r w.db (post_page svc r w).1.db
  unfolding post_page
  post_page-Visited svc r w =
      let h : Ends w.db (Visited svc r w.db) (post_page svc r) =
        Ends->>= (begin_page-KnowsVisitor svc r w.db) (inl refl) λ d known.
          Ends->>= (find_post-Found svc r w.db) (inl refl) λ p found.
            Ends->> (json_block-Finds svc r w.db _ _ _) (inl refl) λ _ _.
              Splits->>= (comment_block-Visited svc r w.db d p known found _ refl)
                (λ d' same. show_post-Visited svc r w.db d p known found d' same) in
      h.ended w refl
