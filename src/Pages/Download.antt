-- ===== src/Pages/Download.antt =====
-- pkg/sgtm/page_post.go: `postDownloadPage`, and `StreamPost` of pkg/sgtm/processing.go.
use sgtm.Common.{String, str_eq, if◌then◌else◌}
use sgtm.Common.Int.{ℤ}
use sgtm.Pb.{Post, Provider, unknown_provider, sound_cloud, ipfs, provider_eq}
use sgtm.Db.{Result, ok, err, failed}
use sgtm.Common.{◌<>◌}
use sgtm.Service.{Service}
use sgtm.Pages.Blocks.{or_422, find_post}
use sgtm.Web.{Request, Page, ◌>>=◌, ◌>>◌, pure, ask, respond, set_header}

abbrev provider_string : Provider → String
provider_string unknown_provider = "UnknownProvider"
provider_string sound_cloud = "SoundCloud"
provider_string ipfs = "IPFS"

-- The content id and the size that `ipfs.cat` is called with.
unfoldable pub stream_post : Post → Result (String × ℤ)
stream_post p =
    if provider_eq p.provider ipfs
    then ok (p.ipfs_cid, p.size_bytes)
    else err (failed ("provider \"" <> provider_string p.provider <> "\" not supported"))

module _ {S : Type 0} (svc : Service S) where
  unfoldable pub post_download_page : Request → Page S (Unit {0})
  unfolding find_post stream_post
  post_download_page r = do
    p ← find_post svc r
    if str_eq p.mime_type "" then pure tt else respond (set_header "Content-Type" p.mime_type)
    found ← ask (λ s. stream_post p)
    stream ← or_422 svc r found
    respond (svc.platform.serve_content stream.0 stream.1 r)
