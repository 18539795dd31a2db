-- ===== src/Server/Static.antt =====
-- The handler of "/*": the static files, without the templates.
use sgtm.Common.{Bool, not, ◌&&◌, String, str_eq, if◌then◌else◌, has_suffix}
use sgtm.Service.{Service}
use sgtm.Service.Errors.{error_404_page}
use sgtm.Web.{Request, Writer, Page, respond}

-- Package packr and the file server over the box of static files.
pub record Box : Type 0 where
  -- whether `FindString` of a path gives no error
  pub has : String → Bool
  pub serve_file : Request → Writer → Writer

module _ {S : Type 0} (svc : Service S) (box : Box) where
  unfoldable pub static_page : Request → Page S (Unit {0})
  static_page r =
      if has_suffix r.path ".tmpl.html"
      then error_404_page svc r
      else if not (str_eq r.path "/") && not (box.has r.path)
      then error_404_page svc r
      else respond (box.serve_file r)
