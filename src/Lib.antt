-- ===== src/Lib.antt =====
-- A model of sgtm, a small community site for music tracks: its store, its pages, its login, its
-- server and API, its worker and its IPFS reader.
--
-- The parts, and the files that model them:
--   Pb        the data (pkg/sgtmpb/sgtm.pb.go: User, Post, Relationship, Session and the enums) as
--             records and data types, and the display helpers of pkg/sgtmpb/helpers.go, one function
--             each (Pb/PostHelpers, Pb/UserHelpers).
--   Db        what pkg/sgtmstore calls of gorm and slug, as a record `Gorm` over a state of the
--             database. A call that changes the database is a function from the state to a result and
--             a state. `IsGorm` names the documented behaviour that the theorems use: returned rows
--             meet the query's conditions, limits hold, a failing transaction is rolled back.
--             `FindsTracks` (Db/Tracks) names what the check for a track that is there already needs:
--             a search finds what is stored, and says that there is no such row only where there is
--             none (Server/Uniqueness asks of a run that it does not fail otherwise). Db/Rows has the columns that no update writes, and `KeepsKeys`, the
--             documented behaviour of the calls for them; Db/Texts the same for the texts of the posts
--             (`KeepsTexts`); Db/Respects the rule by which a relation of databases that every call of
--             gorm respects is one that the store respects (Store/Respects). Db/Memory is a database
--             in memory that meets all of these (Db/MemoryRows, Db/MemoryTracks, Db/MemoryWrites).
--   Store     pkg/sgtmstore/store.go: each method of `store` is a function of the same name over a
--             `Gorm`; the interface `Store` is a record, which `New` (new_store) fills and which the
--             pages are given. beforeCreate of gorm.go is in Store/Create.
--   Opts      pkg/sgtm/opts.go and pkg/sgtm/util.go.
--   Web       net/http as far as the handlers use it (Request, Writer), and handlers as programs: a
--             `Page` takes the database and the response and ends by going on, by an early return or
--             by a panic. The rules by which the theorems on handlers are put together: Web/Hoare
--             (what leaves the database alone), Web/Finds (what holds when a block goes on), Web/Ends
--             and Web/Leads (what holds of the database when a handler has ended, or goes on behind a
--             change), Web/Moves (what every call respects, a handler respects), Web/Agree (two runs
--             over databases that the queries do not tell apart; Pages/Privacy has it for the pages).
--   Service   pkg/sgtm/service.go's fields that the handlers use; the session token
--             (parseJWTToken), newTemplateData of templates.go, the error pages of errors.go and
--             page_errors.go; loadTemplates of templates.go (Service/Funcs). `Platform` is the
--             packages and programs outside the repository: jwt, oauth2, Discord, SoundCloud,
--             html/template, ipfs, youtube-dl, sonic-annotator.
--   Pages     the handlers of pkg/sgtm/page_*.go, one file each (login and callback in Pages/Login,
--             the post's page, edit, maintenance and download pages in four files), cut into the
--             blocks that the source's comments name. Pages/Access holds what the shared checks
--             establish, Pages/Views what the pages write that note a view, Pages/Moves what every
--             handler respects. Pages/Tempo is ExtractBPM of pkg/sgtm/processing.go, whose floats
--             and CSV reader are parameters (`Tempo`).
--   Server    pkg/sgtm/http_server.go: the routes and the handler behind each of them (Server/Routes,
--             Server/Serve), where `Packages` is chi with its panic handler, the gateway, pprof and the
--             box of static files; the sitemap; the static files; and, in Server/Lifecycle, the lock
--             that StartServer, CloseServer and ServerListenerAddr share, with what the run group
--             gives, if it ends, as an argument. Server/Permits is the
--             specification of what a request may do to the database, Server/Anonymous what it says
--             of a request without a session, Server/Ownership what it says of the texts of the posts
--             and Server/Uniqueness what it says of tracks that are there already, both by
--             Server/Covers: a relation that the calls behind each change respect, the request
--             respects. Server/Privacy is about what the home page and the feed tell a visitor
--             without a session. Server/History has requests, single calls of handlers that run side
--             by side, and rounds of the worker, in any order.
--   Api       pkg/sgtm/api.go, and the metadata that the gateway passes on; Api/Interceptors is what
--             grpcServer of http_server.go puts around each method (`Middleware` is grpc_recovery,
--             grpc_auth, grpc_zap and grpc_middleware).
--   Discord   pkg/sgtm/driver_discord.go: StartDiscord and CloseDiscord, which run side by side, as
--             steps in any order.
--   Worker    pkg/sgtm/processing_worker.go: the migrations, one round of processingLoop, and the loop
--             of StartProcessingWorker over the events that wake it (Worker/Start). Worker/Settles is
--             about what a round leaves to do, with `WritesRows` (Db/Writes) for what an update
--             writes: the named columns, and the time of the update.
--   Ipfs      pkg/sgtm/ipfs.go: the reader as a state with a method per function, over the calls of
--             os/exec, and ipfsAdd (Ipfs/Add). Ipfs/Stream specifies what any calls of a reader may
--             answer, as steps of a position in the file, and what `ipfs cat` is relied on to give
--             (`Cats`); Ipfs/Refinement shows that the reader's calls are such steps.
--   Command   cmd/sgtm/main.go: the flags and the exit status (Command/Flags), and runCmd up to its
--             actors, with `New` and dbInit of pkg/sgtmstore and `New` and `Close` of
--             pkg/sgtm/service.go; sentry, zap, gorm's opening and the node are parameters
--             (`StartUp`).
--   Common    text, integers and decimal numbers as Go has them (strings.TrimSpace, strconv), and
--             tests. Text is a list of characters, and an int64 an integer, wrapped around after arithmetic.
--   Examples  a service over the database in memory, and the theorems applied to it.
--
-- The handlers are given the store as the record `Store`; the theorems on handlers hold for every
-- store, and those on the store for every database that meets `IsGorm`. All recursion is structural;
-- only `digits` (Common/Decimal) takes fuel, the number and one more, which is enough because each
-- step divides the number by ten.
--
-- Not modelled: logging and timing; the templates themselves (only that rendering writes output
-- and may fail) and the template functions that are calls of other packages, with prettyURL,
-- which cuts a path by bytes; how chi matches a path, CORS, the access log, the listeners and run
-- groups of http_server.go, which are calls of other packages, and the generated code; what the
-- bot logs; the environment and the configuration file as sources of flags; the run of the
-- external programs. The theorems on one request, and Server/Uniqueness, are about handlers that
-- run alone; for handlers that run side by side Server/History takes each call of the store as
-- one step, and the database's own locking is not modelled. The enum numbers that are not named
-- in the schema have no counterpart. The mutex of the IPFS reader makes each of its methods one
-- step.
pub mod Common
pub mod Pb
pub mod Db
pub mod Store
pub mod Opts
pub mod Web
pub mod Service
pub mod Pages
pub mod Api
pub mod Server
pub mod Command
pub mod Discord
pub mod Worker
pub mod Ipfs
pub mod Examples
