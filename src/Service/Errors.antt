-- ===== src/Service/Errors.antt =====
-- pkg/sgtm/errors.go and pkg/sgtm/page_errors.go: the answers to errors.
use sgtm.Common.{ℕ, ◌==◌, String, Option, none, some, if◌then◌else◌}
use sgtm.Db.{Error, error_text, failed}
use sgtm.Service.Types.{Service, TemplateData}
use sgtm.Service.Templates.{new_template_data}
use sgtm.Web.{Request, Page, ◌>>=◌, ◌>>◌, pure, respond, value_or, write, write_header}

pub record ErrResponse : Type 0 where
  pub kind : String
  pub title : String
  pub status : ℕ
  pub detail : String
  pub instance_uri : String

module _ {S : Type 0} (svc : Service S) where
  unfoldable pub err_to_response : Error → ℕ → ErrResponse
  err_to_response e code =
      let status = if code == 0 then 422 else code in
      record {
        kind = "about:blank";
        title = svc.platform.status_text status;
        status = status;
        detail = error_text e;
        instance_uri = "";
      }

  -- `errRender`: the response as JSON
  unfoldable pub err_render : Error → ℕ → Page S (Unit {0})
  unfolding err_to_response
  err_render e code =
      let response = err_to_response e code in
      respond (write_header response.status)
      >> respond (write (svc.platform.error_json response.title response.status response.detail))

  abbrev pub on_failure : (Error → Page S (Unit {0})) → Option String → Page S (Unit {0})
  on_failure on_error none = pure tt
  on_failure on_error (some text) = on_error (failed text)

  -- `tmpl.Execute(w, &data)`, with the answer to its error
  unfoldable pub execute_or :
      (Error → Page S (Unit {0})) → String → TemplateData → Page S (Unit {0})
  execute_or on_error name d =
      let rendered = svc.platform.render name d in
      respond (write rendered.output) >> on_failure on_error rendered.failure

  -- `errorPage`, which the service keeps as `errRenderHTML`
  unfoldable pub err_render_html : Request → Error → ℕ → Page S (Unit {0})
  unfolding err_render execute_or
  err_render_html r user_error code = do
    started ← new_template_data svc r
    d ← value_or (λ e. err_render e 422) started
    respond (write_header code)
    execute_or (λ e. err_render e 422) "error.tmpl.html"
        (record d { error = error_text user_error })

  -- `error404Page`
  unfoldable pub error_404_page : Request → Page S (Unit {0})
  unfolding err_render_html execute_or
  error_404_page r = do
    respond (write_header 404)
    started ← new_template_data svc r
    d ← value_or (λ e. err_render_html r e 422) started
    execute_or (λ e. err_render_html r e 422) "error404.tmpl.html" d

  -- The last lines of every page: render, or answer the error.
  unfoldable pub render_page : Request → String → TemplateData → Page S (Unit {0})
  unfolding execute_or err_render_html
  render_page r name d = execute_or (λ e. err_render_html r e 422) name d

  -- The first lines of every page.
  unfoldable pub begin_page : Request → Page S TemplateData
  unfolding err_render_html
  begin_page r = do
    started ← new_template_data svc r
    value_or (λ e. err_render_html r e 422) started
