-- ===== src/Examples/Server.antt =====
-- The server, run over the database in memory.
use sgtm.Common.{
  ◌≡◌, refl, Option, none, some, inl, inr, List, [], ◌∷◌, str_eq, if◌then◌else◌, false,
}
use sgtm.Common.Int.{ℤ, pos}
use sgtm.Db.{ok, failed, Action}
use sgtm.Db.Memory.{Memory, memory, memory-IsGorm, tables}
use sgtm.Db.MemoryRows.{memory-KeepsKeys, memory-KeepsTexts}
use sgtm.Db.Texts.{TextsKept}
use sgtm.Server.Ownership.{Owned, serve-Owned}
use sgtm.Db.MemoryTracks.{memory-FindsTracks, memory-SearchesWell}
use sgtm.Db.Rows.{Grows, post_key}
use sgtm.Db.Tracks.{TracksOnce, HasId}
use sgtm.Server.Uniqueness.{run-TracksOnce}
use sgtm.Store.{new_store}
use sgtm.Server.{
  Packages, Route, Method, Endpoint, routes, page_routes, special_routes, pprof_routes, serve,
  generate_sitemap,
}
use sgtm.Server.History.{
  Event, call, update_user, create_post, request, round, run, run-Grows, over_gorm,
}
use sgtm.Server.Permits.{Served, serve-Permits}
use sgtm.Server.Anonymous.{SeenOrLoggedIn, serve-anonymous}
use sgtm.Server.Sitemap.Laws.{IsMade, generate_sitemap-IsMade}
use sgtm.Server.Lifecycle.{Call, start, close, ask_address, returns, new_driver, up_to_failure}
use sgtm.Server.Lifecycle.Laws.{returns-up_to_failure}
use sgtm.Worker.{timer, done, start_processing_worker}
use sgtm.Worker.Start.Laws.{Came, start_processing_worker-Came}
use sgtm.Pages.Tempo.{extract_bpm}
use sgtm.Pages.Tempo.Laws.{mean_tempo, extract_bpm-mean_tempo}
use sgtm.Web.{Request}
use sgtm.Examples.Sample.{
  alice, song, rows, first_world, anonymous_request, alice_form, alice_upload, sample_platform,
  sample_service, sample_tempo,
}

-- A router that knows the routes without parameters.
abbrev pick : List Route → Request → Option (Route × Request)
pick [] r = none
pick (route ∷ rest) r =
    let later = pick rest r in if str_eq route.pattern r.path then some (route, r) else later

abbrev pub packages : Packages Memory
packages = record {
  find_route = pick;
  no_route = λ r w. w;
  recovered = λ w. w;
  gateway = λ s r w. w;
  profiling = λ r w. w;
  xml_content = λ urls. "sitemap";
  box = record { has = λ path. false; serve_file = λ r w. w };
}

abbrev draw : Action Memory ℤ
draw m = (ok (pos m.next), record m { next = 200 })

abbrev visit_and_form : List Event
visit_and_form =
    request anonymous_request
    ∷ call (update_user alice [])
    ∷ call (create_post song)
    ∷ round
    ∷ request (record alice_form { path = "/new" })
    ∷ []

run-Grows_example : Grows tables rows (
    run memory
      (over_gorm memory sample_platform sample_service.opts draw)
      packages
      []
      visit_and_form
      rows)
run-Grows_example =
    run-Grows tables memory memory-IsGorm memory-KeepsKeys sample_platform sample_service.opts draw
      (λ s. record { users = refl; posts = refl; relationships = refl }) packages [] visit_and_form
      rows

serve-Permits_example :
    Served sample_service packages []
      (packages.find_route (routes sample_service.opts) anonymous_request)
      rows
      (serve sample_service packages [] anonymous_request first_world).db
serve-Permits_example = serve-Permits sample_service packages [] anonymous_request first_world

abbrev pub home_route : Route
home_route = record { method = Method.get; pattern = "/"; endpoint = Endpoint.home }

pub home_found :
    packages.find_route (routes sample_service.opts) anonymous_request
    ≡ some (home_route, anonymous_request)
unfolding routes page_routes special_routes pprof_routes
home_found = refl

serve-anonymous_example :
    SeenOrLoggedIn sample_service anonymous_request rows
      (serve sample_service packages [] anonymous_request first_world).db
serve-anonymous_example =
    serve-anonymous sample_service packages [] anonymous_request first_world home_route
      anonymous_request home_found refl

generate_sitemap-IsMade_example :
    IsMade memory rows (generate_sitemap (new_store memory (λ text. none)) rows)
generate_sitemap-IsMade_example =
    generate_sitemap-IsMade tables memory memory-IsGorm (λ text. none) rows

-- A server that runs, a start whose address is in use, and then the calls that end the program.
abbrev taken_port : List Call
taken_port =
    start (inr ":8000") none none
    ∷ ask_address
    ∷ start (inl (failed "address already in use")) none none
    ∷ close
    ∷ ask_address
    ∷ []

returns-up_to_failure_example : returns taken_port new_driver ≡ up_to_failure false taken_port
returns-up_to_failure_example = returns-up_to_failure taken_port

start_processing_worker-Came_example :
    Came memory (start_processing_worker memory (timer ∷ done ∷ []) rows) rows
start_processing_worker-Came_example = start_processing_worker-Came memory (timer ∷ done ∷ []) rows

extract_bpm-mean_tempo_example :
    extract_bpm sample_tempo "song.mp3" ≡ mean_tempo sample_tempo "song.mp3"
extract_bpm-mean_tempo_example = extract_bpm-mean_tempo sample_tempo "song.mp3"

abbrev edit_request : Request
edit_request = record alice_form { path = "/post/{post_slug}/edit" }

abbrev edit_route : Route
edit_route = record {
  method = Method.get;
  pattern = "/post/{post_slug}/edit";
  endpoint = Endpoint.edit;
}

edit_found :
    packages.find_route (routes sample_service.opts) edit_request ≡ some (edit_route, edit_request)
unfolding routes page_routes special_routes pprof_routes
edit_found = refl

serve-Owned_example :
    TextsKept tables
      (Owned (over_gorm memory sample_platform sample_service.opts draw) edit_request rows)
      rows
      (serve
        (over_gorm memory sample_platform sample_service.opts draw)
        packages
        []
        edit_request
        first_world).db
serve-Owned_example =
    serve-Owned tables memory memory-IsGorm memory-KeepsTexts sample_platform sample_service.opts
      draw (λ s. record { users = refl; posts = refl; relationships = refl }) packages []
      edit_request first_world edit_route edit_request edit_found

song_id : HasId (post_key song)
song_id e = cc

-- The same file twice, and a round of the worker between.
abbrev twice : List Event
twice =
    request (record alice_upload { path = "/new" })
    ∷ round
    ∷ request (record alice_upload { path = "/new" })
    ∷ []

run-TracksOnce_example :
    TracksOnce tables (
      run memory (over_gorm memory sample_platform sample_service.opts draw) packages [] twice rows)
run-TracksOnce_example =
    run-TracksOnce tables memory memory-IsGorm memory-KeepsKeys memory-FindsTracks sample_platform
      sample_service.opts draw (λ s. record { users = refl; posts = refl; relationships = refl })
      packages [] twice rows (memory-SearchesWell _, (tt, (memory-SearchesWell _, tt)))
      (record { ids = (song_id, tt); unique = (tt, tt) })
