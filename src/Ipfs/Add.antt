-- ===== src/Ipfs/Add.antt =====
-- `ipfsAdd` of pkg/sgtm/ipfs.go, which pipes a file to `ipfs add` and reads the content id.
use sgtm.Common.{is_empty, Option, none, some, List, ◌&&◌, ◌==◌, ◌<>◌, if◌then◌else◌}
use sgtm.Db.{Error, Result, ok, err, failed}
use sgtm.Ipfs.{add_args}
use Prim.Native.Char.{code}
use Prim.Native.String.{String, [], ◌∷◌}

-- Package os/exec as it is used here: the command's input pipe; the copy of a file into it; and the
-- command's combined output for its arguments and its input, with its error. The goroutine runs the
-- command while the file is copied, and its result is waited for behind the copy.
pub record AddCalls : Type 0 where
  pub pipe_error : Option Error
  pub copy_error : String → Option Error
  pub combined_output : List String → String → String × Option Error

-- `strings.Trim(s, "\n")`
newlines_left : String → String
newlines_left [] = ""
newlines_left (c ∷ s) = if code c == 10 then newlines_left s else c ∷ s

newlines_right : String → String
newlines_right [] = ""
newlines_right (c ∷ s) =
    let rest = newlines_right s in if code c == 10 && is_empty rest then "" else c ∷ rest

unfoldable pub trim_newlines : String → String
unfolding newlines_left newlines_right
trim_newlines s = newlines_right (newlines_left s)

-- The error of a command that fails is made of another error, which is nil.
unfoldable pub read_cid : String × Option Error → Result String
unfolding trim_newlines
read_cid (output, none) = ok (trim_newlines output)
read_cid (output, some e) = err (failed ("<nil>: " <> output))

abbrev pub or_error : Option Error → Result String → Result String
or_error none r = r
or_error (some e) r = err e

unfoldable pub ipfs_add : AddCalls → String → String → Result String
unfolding add_args read_cid
ipfs_add calls api content =
    or_error calls.pipe_error (
      or_error (calls.copy_error content) (read_cid (calls.combined_output (add_args api) content)))
