-- ===== src/Service/Reads.antt =====
-- Every page begins, ends and answers its errors without a change of the database.
use sgtm.Common.{Option, none, some, ◌⊎◌, inl, inr, String, ℕ}
use sgtm.Pb.{User, Session}
use sgtm.Db.{Error, failed}
use sgtm.Service.Types.{Service, Claims, TemplateData}
use sgtm.Service.Templates.{new_template_data, load_user, log_user, signed_in, with_cookie}
use sgtm.Service.Errors.{
  err_render, on_failure, execute_or, err_render_html, error_404_page, render_page, begin_page,
}
use sgtm.Web.{Request, Page}
use sgtm.Web.Hoare.{Reads, reads}

module _ {S : Type 0} (svc : Service S) where
  pub log_user-Reads : (x : Error ⊎ User) → Reads (log_user svc x)
  unfolding log_user
  log_user-Reads (inl e) = search reads
  log_user-Reads (inr u) = search reads

  load_user-Reads : (d : TemplateData) (o : Option Session) → Reads (load_user svc d o)
  unfolding load_user
  load_user-Reads d none = search reads
  load_user-Reads d (some session) = search (reads, log_user-Reads)

  signed_in-Reads : (text : String) (x : Error ⊎ Claims) → Reads (signed_in svc text x)
  unfolding signed_in
  signed_in-Reads text (inl e) = search reads
  signed_in-Reads text (inr c) = search (reads, load_user-Reads)

  with_cookie-Reads : (cookie : Option String) → Reads (with_cookie svc cookie)
  unfolding with_cookie
  with_cookie-Reads none = search reads
  with_cookie-Reads (some text) = search (reads, signed_in-Reads)

  pub new_template_data-Reads : (r : Request) → Reads (new_template_data svc r)
  unfolding new_template_data
  new_template_data-Reads r = with_cookie-Reads r.oauth_cookie

  err_render-Reads : (e : Error) (code : ℕ) → Reads (err_render svc e code)
  unfolding err_render
  err_render-Reads e code = search reads

  failure-Reads :
      (on_error : Error → Page S (Unit {0})) (o : Option String)
      → ((e : Error) → Reads (on_error e))
      → Reads (on_failure svc on_error o)
  failure-Reads on_error none h = search reads
  failure-Reads on_error (some text) h = h (failed text)

  execute_or-Reads :
      (on_error : Error → Page S (Unit {0})) (name : String) (d : TemplateData)
      → ((e : Error) → Reads (on_error e))
      → Reads (execute_or svc on_error name d)
  unfolding execute_or
  execute_or-Reads on_error name d h = search (reads, failure-Reads)

  pub err_render_html-Reads :
      (r : Request) (e : Error) (code : ℕ) → Reads (err_render_html svc r e code)
  unfolding err_render_html
  err_render_html-Reads r e code =
      search (reads, new_template_data-Reads, err_render-Reads, execute_or-Reads) depth 9

  pub error_404_page-Reads : (r : Request) → Reads (error_404_page svc r)
  unfolding error_404_page
  error_404_page-Reads r =
      search (reads, new_template_data-Reads, err_render_html-Reads, execute_or-Reads) depth 9

  pub render_page-Reads :
      (r : Request) (name : String) (d : TemplateData) → Reads (render_page svc r name d)
  unfolding render_page
  render_page-Reads r name d = search (execute_or-Reads, err_render_html-Reads)

  pub begin_page-Reads : (r : Request) → Reads (begin_page svc r)
  unfolding begin_page
  begin_page-Reads r = search (reads, new_template_data-Reads, err_render_html-Reads)
