-- ===== src/Pages/Profile/Laws.antt =====
-- The page of a user who does not exist.
use sgtm.Common.{String, arith, ◌∙◌, ap, ◌≡◌, refl, Option, none, some}
use sgtm.Pb.{User}
use sgtm.Db.{Error, Result, ok, err, panic}
use sgtm.Service.{Service}
use sgtm.Service.Templates.{new_template_data, with_cookie}
use sgtm.Service.Errors.{begin_page, err_render_html}
use sgtm.Pages.Profile.{profile_or_fault, profile_page}
use sgtm.Web.{
  Request, World, Page, Flow, next, stop, crash, go_on, answer, ◌>>=◌, ◌>>◌, ask, fault, pure,
  respond, value_or,
}

module _ {S : Type 0} where
  -- A part that goes on, from the same database.
  abbrev GoesOn : {A : Type 0} → S → Flow A × World S → Type 0
  GoesOn s (next a, w) = w.db ≡ s
  GoesOn s (stop, w) = ⊥
  GoesOn s (crash, w) = ⊥

  GoesOn-crash :
      {A B : Type 0} {s : S} (x : Flow A × World S) (f : A → Page S B)
      → GoesOn s x
      → ((a : A) (v : World S) → v.db ≡ s → (f a v).0 ≡ crash)
      → (go_on {B = B} x f).0 ≡ crash
  GoesOn-crash (next a, v) f h k = k a v h
  GoesOn-crash (stop, v) f h k = absurd h
  GoesOn-crash (crash, v) f h k = absurd h

  begin_with_cookie :
      (svc : Service S) (r : Request) (o : Option String) (w : World S)
      → o ≡ none
      → GoesOn w.db ((with_cookie svc o >>= λ x. value_or (λ e. err_render_html svc r e 422) x) w)
  unfolding with_cookie ◌>>=◌ ◌>>◌ respond pure value_or
  begin_with_cookie svc r none w e = refl
  begin_with_cookie svc r (some text) w e = absurd (ground arith)

  no_profile :
      {B : Type 0} (svc : Service S) (x : Result (Option User)) (w : World S)
      (handle : Error → Page S (Unit {0})) (rest : User → Page S B)
      → x ≡ ok none
      → (go_on {B = B}
          (answer w x w.db)
          (λ found. value_or handle found >>= λ o. profile_or_fault svc o >>= rest)).0
        ≡ crash
  unfolding value_or profile_or_fault ◌>>=◌ fault pure
  no_profile svc (ok none) w handle rest e = refl
  no_profile svc (ok (some u)) w handle rest e = absurd (ground arith)
  no_profile svc (err d) w handle rest e = absurd (ground arith)
  no_profile svc panic w handle rest e = absurd (ground arith)

  -- For a visitor without a session cookie and a slug for which the store gives no user and no
  -- error, the profile page panics.
  pub profile_page-unknown :
      (svc : Service S) (r : Request) (w : World S)
      → r.oauth_cookie ≡ none
      → svc.store.get_user_by_slug r.user_slug w.db ≡ ok none
      → (profile_page svc r w).0 ≡ crash
  unfolding profile_page begin_page new_template_data ask ◌>>=◌
  profile_page-unknown svc r w anonymous unknown =
      GoesOn-crash (begin_page svc r w) _ (begin_with_cookie svc r r.oauth_cookie w anonymous)
        λ d v same.
          no_profile svc (svc.store.get_user_by_slug r.user_slug v.db) v _ _
            (ap (λ (s : S). svc.store.get_user_by_slug r.user_slug s) same ∙ unknown)
