-- ===== src/Pages/Settings/Laws.antt =====
-- Whose profile the settings change.
use sgtm.Common.{◌≡◌, refl, ◌⊎◌, inl, inr, Option, none, some, str_eq, eq_iff, String}
use sgtm.Pb.{User}
use sgtm.Service.{Service, TemplateData}
use sgtm.Service.Reads.{err_render_html-Reads, render_page-Reads}
use sgtm.Service.Laws.{begin_page-KnowsVisitor, Identity}
use sgtm.Pages.Access.{user_or_home-some, KnowsVisitor-Identity}
use sgtm.Pages.Settings.{settings_page, save_settings, settings_fields}
use sgtm.Web.{Request, World}
use sgtm.Web.Hoare.{reads}
use sgtm.Web.Ends.{Ends, Ends->>=, Ends-Reads, Ends-then, Ends-act, Ends-if}

module _ {S : Type 0} (svc : Service S) (r : Request) (s : S) where
  -- The form is sent by `u`, and it can be read.
  pub record IsChange (u : User) : Type 0 where
    pub method : r.method ≡ "POST"
    pub form : r.form_error ≡ none
    pub identity : Identity svc r s u

  abbrev pub Changed : S → Type 0
  Changed s' =
      (s' ≡ s)
      ⊎ ((u : User) × IsChange u × (s' ≡ (svc.store.update_user u (settings_fields r) s).1))

  save_settings-Changed :
      (d : TemplateData) (u : User) (o : Option String)
      → r.form_error ≡ o
      → r.method ≡ "POST"
      → Identity svc r s u
      → Ends s Changed (save_settings svc r d u o)
  unfolding save_settings
  save_settings-Changed d u (some text) form method identity = Ends-Reads (search reads) (inl refl)
  save_settings-Changed d u none form method identity =
      Ends-act _ (inr (u, record { method = method; form = form; identity = identity }, refl))
        (λ x. search (reads, err_render_html-Reads) depth 9)

module _ {S : Type 0} where
  -- However a request for the settings ends, the database is as it was, or it is what one call of
  -- `UpdateUser`, with exactly the fields of the form, made of it for the user whom the session's
  -- token names, and then the request is a POST whose form could be read.
  pub settings_page-Changed :
      (svc : Service S) (r : Request) (w : World S)
      → Changed svc r w.db (settings_page svc r w).1.db
  unfolding settings_page
  settings_page-Changed svc r w =
      let h : Ends w.db (Changed svc r w.db) (settings_page svc r) =
        Ends->>= (begin_page-KnowsVisitor svc r w.db) (inl refl) λ d known.
          Ends->>= (user_or_home-some svc r w.db d.user) (inl refl) λ u is_u.
            Ends-then
              (Ends-if (str_eq r.method "POST")
                (λ e.
                  save_settings-Changed svc r w.db (record d { page_kind = "settings" }) u
                    r.form_error refl ((eq_iff r.method "POST").0 e)
                    (KnowsVisitor-Identity svc r w.db d u known is_u))
                (λ _. Ends-Reads (search reads) (inl refl)))
              (λ d'. render_page-Reads svc r _ d') in
      h.ended w refl
