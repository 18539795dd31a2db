-- ===== src/Server/Routes.antt =====
-- The routes that `httpServer` registers, in their order.
use sgtm.Common.{String, List, [], ◌∷◌, ◌++◌, if◌then◌else◌}
use sgtm.Opts.{Opts}

pub data Endpoint : Type 0 where
  api : Endpoint
  home settings profile open_data new post edit maintenance download rss : Endpoint
  sitemap : Endpoint
  login logout callback : Endpoint
  static : Endpoint
  -- a handler of package net/http/pprof
  pprof : Endpoint

-- A registered handler; `any` is a route for all methods.
pub data Method : Type 0 where
  get post any : Method

pub record Route : Type 0 where
  pub method : Method
  pub pattern : String
  pub endpoint : Endpoint

abbrev on : Method → String → Endpoint → Route
on method pattern endpoint = record { method = method; pattern = pattern; endpoint = endpoint }

unfoldable pub page_routes : List Route
page_routes =
    on get "/" Endpoint.home
    ∷ on get "/settings" Endpoint.settings
    ∷ on Method.post "/settings" Endpoint.settings
    ∷ on get "/@{user_slug}" Endpoint.profile
    ∷ on get "/open" Endpoint.open_data
    ∷ on get "/new" Endpoint.new
    ∷ on Method.post "/new" Endpoint.new
    ∷ on get "/post/{post_slug}" Endpoint.post
    ∷ on Method.post "/post/{post_slug}" Endpoint.post
    ∷ on get "/post/{post_slug}/edit" Endpoint.edit
    ∷ on Method.post "/post/{post_slug}/edit" Endpoint.edit
    ∷ on get "/post/{post_slug}/maintenance" Endpoint.maintenance
    ∷ on get "/post/{post_slug}/download" Endpoint.download
    ∷ on get "/rss.xml" Endpoint.rss
    ∷ []

unfoldable pub special_routes : List Route
special_routes =
    on get "/sitemap.xml" Endpoint.sitemap
    ∷ on get "/login" Endpoint.login
    ∷ on get "/logout" Endpoint.logout
    ∷ on get "/auth/callback" Endpoint.callback
    ∷ on get "/*" Endpoint.static
    ∷ []

unfoldable pub pprof_routes : Opts → List Route
pprof_routes opts =
    if opts.server_with_pprof
    then on any "/debug/pprof/*" Endpoint.pprof
      ∷ on any "/debug/pprof/cmdline" Endpoint.pprof
      ∷ on any "/debug/pprof/profile" Endpoint.pprof
      ∷ on any "/debug/pprof/symbol" Endpoint.pprof
      ∷ on any "/debug/pprof/trace" Endpoint.pprof
      ∷ []
    else []

unfoldable pub routes : Opts → List Route
unfolding page_routes special_routes pprof_routes
routes opts = on any "/api" Endpoint.api ∷ page_routes ++ special_routes ++ pprof_routes opts
