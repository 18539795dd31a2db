-- ===== src/Service/Laws.antt =====
-- Who a page takes its visitor for.
use mathlib.Core.Path.{subst}
use sgtm.Common.{arith, ◌≡◌, refl, ◌⊎◌, inl, inr, false, Option, none, some, String, str_eq}
use sgtm.Common.Int.{pos}
use sgtm.Pb.{User, Session}
use sgtm.Db.{Error, ok}
use sgtm.Service.Types.{Service, Claims, TemplateData}
use sgtm.Service.Auth.{wrap, wrap-eq-ok, parse_jwt_token}
use sgtm.Service.Templates.{
  new_template_data, load_user, signed_in, with_cookie, base_data, with_user,
}
use sgtm.Service.Errors.{begin_page}
use sgtm.Service.Reads.{err_render_html-Reads, log_user-Reads}
use sgtm.Web.{Request}
use sgtm.Web.Hoare.{reads}
use sgtm.Web.Finds.{
  Finds, Finds->>=, Finds->>, Finds-pure, Finds-fault, Finds-ask, Finds-value_or, Finds-weaken,
  Answers,
}

module _ {S : Type 0} (svc : Service S) (r : Request) (s : S) where
  -- The user whose session the request's token holds.
  pub record Identity (u : User) : Type 0 where
    pub text : String
    pub claims : Claims
    pub session : Session
    pub cookie : r.oauth_cookie ≡ some text
    pub parsed : parse_jwt_token svc text ≡ ok claims
    pub has_session : claims.session ≡ some session
    pub loaded : svc.store.get_user_recent_post session.user_id s ≡ ok u

  pub record IsAnonymous (d : TemplateData) : Type 0 where
    pub user : d.user ≡ none
    pub user_id : d.user_id ≡ pos 0
    pub is_admin : d.is_admin ≡ false

  pub record IsSignedIn (d : TemplateData) : Type 0 where
    pub who : User
    pub identity : Identity who
    pub user : d.user ≡ some who
    pub user_id : d.user_id ≡ who.id
    pub is_admin : d.is_admin ≡ str_eq who.role "admin"

  abbrev pub KnowsVisitor : TemplateData → Type 0
  KnowsVisitor d = IsAnonymous d ⊎ IsSignedIn d

  load_user-KnowsVisitor :
      (text : String) (c : Claims) (o : Option Session)
      → r.oauth_cookie ≡ some text
      → parse_jwt_token svc text ≡ ok c
      → c.session ≡ o
      → Finds s KnowsVisitor
          (load_user svc (record (base_data svc) { jwt_token = text; claims = some c }) o)
  unfolding load_user base_data
  load_user-KnowsVisitor text c none cookie parsed e = Finds-fault _
  load_user-KnowsVisitor text c (some session) cookie parsed has_session =
      Finds->>= (Finds-ask (svc.store.get_user_recent_post session.user_id))
        λ x loaded. Finds->> (log_user-Reads svc x) (Finds-pure _ (visitor x loaded))
    where
      visitor :
          (x : Error ⊎ User)
          → Answers (svc.store.get_user_recent_post session.user_id s) x
          → KnowsVisitor
              (with_user svc (record (base_data svc) { jwt_token = text; claims = some c }) x)
      visitor (inl e) h = inl (record { user = refl; user_id = refl; is_admin = refl })
      visitor (inr u) h = inr (record {
        who = u;
        identity = record {
          text = text;
          claims = c;
          session = session;
          cookie = cookie;
          parsed = parsed;
          has_session = has_session;
          loaded = h;
        };
        user = refl;
        user_id = refl;
        is_admin = refl;
      })

  -- The data of a page that could be begun.
  abbrev OrError : Error ⊎ TemplateData → Type 0
  OrError (inl e) = Unit
  OrError (inr d) = KnowsVisitor d

  signed_in-KnowsVisitor :
      (text : String) (x : Error ⊎ Claims)
      → r.oauth_cookie ≡ some text
      → Answers (wrap "parse jwt token" (parse_jwt_token svc text)) x
      → Finds s OrError (signed_in svc text x)
  unfolding signed_in
  signed_in-KnowsVisitor text (inl e) cookie h = Finds-pure _ tt
  signed_in-KnowsVisitor text (inr c) cookie h =
      Finds->>=
        (load_user-KnowsVisitor text c c.session cookie (wrap-eq-ok "parse jwt token" _ h) refl)
        (λ d known. Finds-pure _ known)

  with_cookie-KnowsVisitor :
      (o : Option String) → r.oauth_cookie ≡ o → Finds s OrError (with_cookie svc o)
  unfolding with_cookie base_data
  with_cookie-KnowsVisitor none cookie =
      Finds->> (search reads)
        (Finds-pure _ (inl (record { user = refl; user_id = refl; is_admin = refl })))
  with_cookie-KnowsVisitor (some text) cookie =
      Finds->>= (Finds-ask _) (λ x h. signed_in-KnowsVisitor text x cookie h)

  begin_with :
      (x : Error ⊎ TemplateData) (d : TemplateData) → OrError x → x ≡ inr d → KnowsVisitor d
  begin_with (inl e) d h same = absurd (ground arith)
  begin_with (inr d') d h same = let e : d' ≡ d = cc in subst KnowsVisitor e h

  -- A page that is begun leaves the database as it is, and goes on only with an anonymous visitor,
  -- with no user, the id 0 and no admin's rights, or with the user whom the session of the
  -- request's token names, that user's id, and an admin's rights exactly if the stored role is
  -- "admin".
  pub begin_page-KnowsVisitor : Finds s KnowsVisitor (begin_page svc r)
  unfolding begin_page new_template_data
  begin_page-KnowsVisitor = Finds->>= (with_cookie-KnowsVisitor r.oauth_cookie refl) λ x h.
      Finds-weaken (Finds-value_or x (λ e. err_render_html-Reads svc r e 422))
        (λ d. begin_with x d h)
