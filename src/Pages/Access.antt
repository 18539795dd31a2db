-- ===== src/Pages/Access.antt =====
-- What the shared blocks of the handlers establish.
use mathlib.Core.Path.{subst}
use sgtm.Common.{
  Bool, true, false, not, ◌&&◌, if◌then◌else◌, ◌≡◌, refl, ◌⊎◌, inl, inr, Option, none, some, arith,
  str_eq, eq_iff, ap, sym, ◌∙◌,
}
use sgtm.Common.Int.{int_eq, int_eq_iff}
use sgtm.Pb.{Post, User}
use sgtm.Db.{Error, ok}
use sgtm.Service.{Service, TemplateData}
use sgtm.Service.Reads.{error_404_page-Reads}
use sgtm.Service.Laws.{Identity, KnowsVisitor}
use sgtm.Pages.Blocks.{find_post, user_or_home, not_found}
use sgtm.Pages.PostEdit.{check_author}
use sgtm.Web.{Request, pure, fault}
use sgtm.Web.Hoare.{reads}
use sgtm.Web.Finds.{
  Finds, Finds->>=, Finds->>, Finds-pure, Finds-fault, Finds-halt, Finds-ask, Finds-value_or,
  Finds-weaken, Answers,
}

module _ {S : Type 0} (svc : Service S) (r : Request) (s : S) where
  abbrev pub Found : Post → Type 0
  Found p = svc.store.get_post_by_slug_or_id r.post_slug s ≡ ok p

  subst-Found :
      (x : Error ⊎ Post) (p : Post)
      → Answers (svc.store.get_post_by_slug_or_id r.post_slug s) x
      → x ≡ inr p
      → Found p
  subst-Found (inl e) p h same = absurd (ground arith)
  subst-Found (inr q) p h same = let e : q ≡ p = cc in subst Found e h

  pub find_post-Found : Finds s Found (find_post svc r)
  unfolding find_post
  find_post-Found = Finds->>= (Finds-ask (svc.store.get_post_by_slug_or_id r.post_slug)) λ x h.
      Finds-weaken (Finds-value_or x (λ e. error_404_page-Reads svc r)) (λ p. subst-Found x p h)

  pub user_or_home-some : (o : Option User) → Finds s (λ u. o ≡ some u) (user_or_home svc o)
  user_or_home-some none = Finds->> (search reads) (Finds-halt _)
  user_or_home-some (some u) = Finds-pure u refl

  -- The user of the session is an admin, or the post's author.
  pub record MayEdit (u : User) (p : Post) : Type 0 where
    pub identity : Identity svc r s u
    pub found : svc.store.get_post_by_slug_or_id r.post_slug s ≡ ok p
    pub rights : (u.role ≡ "admin") ⊎ ((a : User) × (p.author ≡ some a) × (u.id ≡ a.id))

  abbrev Rights : TemplateData → User → Option User → Type 0
  Rights d u author = (d.is_admin ≡ true) ⊎ ((a : User) × (author ≡ some a) × (u.id ≡ a.id))

  pub check_author-Rights :
      (d : TemplateData) (u : User) (p : Post) (author : Option User)
      → Finds s (λ _. Rights d u author) (check_author svc r d u p author)
  unfolding check_author
  check_author-Rights d u p none = by_admin d.is_admin refl
    where
      by_admin :
          (b : Bool)
          → d.is_admin ≡ b
          → Finds s (λ _. Rights d u none) (if b then pure tt else fault)
      by_admin true e = Finds-pure tt (inl e)
      by_admin false e = Finds-fault _
  check_author-Rights d u p (some a) = by_test (not d.is_admin && not (int_eq u.id a.id)) refl
    where
      by_test :
          (b : Bool)
          → (not d.is_admin && not (int_eq u.id a.id)) ≡ b
          → Finds s (λ _. Rights d u (some a)) (if b then not_found svc r else pure tt)
      by_test true e = Finds->> (error_404_page-Reads svc r) (Finds-halt _)
      by_test false e = Finds-pure tt (by_admin d.is_admin refl e)
        where
          by_admin :
              (b : Bool)
              → d.is_admin ≡ b
              → (not b && not (int_eq u.id a.id)) ≡ false
              → Rights d u (some a)
          by_admin true h k = inl h
          by_admin false h k = inr (a, refl, (int_eq_iff u.id a.id).0 (ground arith))

  -- A visitor with a user is the one whom the session's token names.
  pub KnowsVisitor-Identity :
      (d : TemplateData) (u : User) → KnowsVisitor svc r s d → d.user ≡ some u → Identity svc r s u
  KnowsVisitor-Identity d u (inl anonymous) is_u = absurd (ground (arith, anonymous.user))
  KnowsVisitor-Identity d u (inr known) is_u =
      let same : known.who ≡ u = ground (arith, known.user) in
      subst (Identity svc r s) same known.identity

  -- The checks of a handler that edits a post, together.
  pub KnowsVisitor-MayEdit :
      (d : TemplateData) (u : User) (p : Post)
      → KnowsVisitor svc r s d
      → d.user ≡ some u
      → Found p
      → Rights d u p.author
      → MayEdit u p
  KnowsVisitor-MayEdit d u p (inl anonymous) is_u found rights =
      absurd (ground (arith, anonymous.user))
  KnowsVisitor-MayEdit d u p (inr known) is_u found rights =
      let same : known.who ≡ u = ground (arith, known.user) in
      record {
        identity = KnowsVisitor-Identity d u (inr known) is_u;
        found = found;
        rights = elim rights [
          | inl admin ↦ inl (
              (eq_iff u.role "admin").0
                (sym (ap (λ (v : User). str_eq v.role "admin") same) ∙ sym known.is_admin ∙ admin))
          | inr author ↦ inr author
        ];
      }
