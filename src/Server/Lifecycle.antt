-- ===== src/Server/Lifecycle.antt =====
-- pkg/sgtm/http_server.go, `StartServer`, `CloseServer` and `ServerListenerAddr`, and how they share
-- the lock of `serverDriver`; `Close` of pkg/sgtm/service.go.
pub mod Laws
use sgtm.Common.{
  ◌≡◌, refl, ap, Bool, true, false, not, ◌⊎◌, inl, inr, Option, none, some, String, ◌<>◌, List, [],
  ◌∷◌, if◌then◌else◌,
}
use sgtm.Db.{Error, Result, ok, err, panic, failed, error_text}

-- `serverDriver`, and whether the service's context is cancelled.
pub record ServerDriver : Type 0 where
  pub locked : Bool
  -- the address of the listener; one without an address has the empty one
  pub listener : Option String
  -- whether `CloseServer` has closed that listener
  pub is_closed : Bool
  pub is_cancelled : Bool

abbrev pub new_driver : ServerDriver
new_driver = record { locked = false; listener = none; is_closed = false; is_cancelled = false }

-- `prepareStartServer`, by what `net.Listen` gives and by whether `httpServer` gives an error; a
-- listener that could not be made is nil.
unfoldable pub prepare_start_server :
    Error ⊎ String → Option Error → ServerDriver → Result (Unit {0}) × ServerDriver
prepare_start_server (inl e) http_error s =
    (err (failed ("net listen: " <> error_text e)), record s { listener = none })
prepare_start_server (inr address) (some e) s = (
  err (failed ("http server: " <> error_text e)),
  record s { listener = some address; is_closed = false },
)
prepare_start_server (inr address) none s =
    (ok tt, record s { listener = some address; is_closed = false })

-- The end of `StartServer`: the lock is given back only where there is no error.
abbrev pub started : Result (Unit {0}) × ServerDriver → Result (Unit {0}) × ServerDriver
started (ok done, s) = (ok tt, record s { locked = false })
started (err e, s) = (err (failed ("prepare start server: " <> error_text e)), s)
started (panic, s) = (panic, s)

-- A call that needs the lock: nothing where it waits for a lock that is held.
unfoldable pub with_lock :
    {A : Type 0} → (ServerDriver → A × ServerDriver) → ServerDriver → Option (A × ServerDriver)
with_lock f s = if s.locked then none else some (f (record s { locked = true }))

-- `return gr.Run()`, which runs without the lock and never takes it: what the run group gives, or
-- nothing while it runs.
abbrev pub served :
    Option (Result (Unit {0}))
    → Result (Unit {0}) × ServerDriver
    → Option (Result (Unit {0})) × ServerDriver
served group (ok done, s) = (group, s)
served group (err e, s) = (some (err e), s)
served group (panic, s) = (some panic, s)

-- What the calls do once they have the lock.
abbrev pub start_locked :
    Error ⊎ String
    → Option Error
    → Option (Result (Unit {0}))
    → ServerDriver
    → Option (Result (Unit {0})) × ServerDriver
start_locked listen http_error group s =
    served group (started (prepare_start_server listen http_error s))

-- A listener that was never made is not closed.
abbrev pub closed_by : Option String → Bool → Bool
closed_by none before = before
closed_by (some address) before = true

abbrev pub close_locked : ServerDriver → Unit {0} × ServerDriver
close_locked s = (
  tt,
  record s { locked = false; is_closed = closed_by s.listener s.is_closed; is_cancelled = true },
)

-- `StartServer`, by what the run group gives when it ends, if it ends: what the call returns with,
-- if it returns, and the driver that it leaves to the other calls.
unfoldable pub start_server :
    Error ⊎ String
    → Option Error
    → Option (Result (Unit {0}))
    → ServerDriver
    → Option (Option (Result (Unit {0})) × ServerDriver)
unfolding with_lock prepare_start_server
start_server listen http_error group = with_lock (start_locked listen http_error group)

unfoldable pub close_server : ServerDriver → Option (Unit {0} × ServerDriver)
unfolding with_lock
close_server = with_lock close_locked

abbrev pub address_of : Option String → String
address_of none = ""
address_of (some address) = address

abbrev pub address_locked : ServerDriver → String × ServerDriver
address_locked s = (address_of s.listener, record s { locked = false })

unfoldable pub server_listener_addr : ServerDriver → Option (String × ServerDriver)
unfolding with_lock
server_listener_addr = with_lock address_locked

pub data Call : Type 0 where
  start : Error ⊎ String → Option Error → Option (Result (Unit {0})) → Call
  close ask_address : Call

-- How a call stands: it waits for the lock for ever; it runs the server, without the lock; it was a
-- start and has returned; or it was another and has returned.
pub data Standing : Type 0 where
  waiting running returned : Standing
  ended : Result (Unit {0}) → Standing

-- How far a start that had the lock has come.
abbrev pub how_far : Option (Result (Unit {0})) → Standing
how_far none = running
how_far (some result) = ended result

abbrev pub after :
    {A : Type 0} → (A → Standing) → Option (A × ServerDriver) → Option (Standing × ServerDriver)
after stands none = none
after stands (some (a, s)) = some (stands a, s)

unfoldable pub call : Call → ServerDriver → Option (Standing × ServerDriver)
unfolding start_server close_server server_listener_addr
call (start listen http_error group) s = after how_far (start_server listen http_error group s)
call close s = after (λ _. returned) (close_server s)
call ask_address s = after (λ _. returned) (server_listener_addr s)

-- One call, and the calls behind it, which go on from what it left.
abbrev pub counted :
    Option (Standing × ServerDriver) → (ServerDriver → List Standing) → ServerDriver → List Standing
counted none rest s = waiting ∷ rest s
counted (some (standing, s')) rest s = standing ∷ rest s'

-- How some calls stand, made one after the other from threads of their own, so that one that waits
-- or runs does not keep the others from being made.
unfoldable pub returns : List Call → ServerDriver → List Standing
unfolding call
returns [] s = []
returns (c ∷ cs) s = counted (call c s) (λ s'. returns cs s') s

-- The start of a server that could not be prepared.
abbrev pub fails : Call → Bool
fails (start (inl e) http_error group) = true
fails (start (inr address) (some e) group) = true
fails (start (inr address) none group) = false
fails close = false
fails ask_address = false

-- How a call stands that has the lock.
abbrev pub with_the_lock : Call → Standing
with_the_lock (start (inl e) http_error group) =
    ended (err (failed ("prepare start server: " <> ("net listen: " <> error_text e))))
with_the_lock (start (inr address) (some e) group) =
    ended (err (failed ("prepare start server: " <> ("http server: " <> error_text e))))
with_the_lock (start (inr address) none none) = running
with_the_lock (start (inr address) none (some result)) = ended result
with_the_lock close = returned
with_the_lock ask_address = returned

-- The specification: all calls have the lock, up to the first start that fails, and none behind it.
unfoldable pub up_to_failure : Bool → List Call → List Standing
up_to_failure b [] = []
up_to_failure true (c ∷ cs) = waiting ∷ up_to_failure true cs
up_to_failure false (c ∷ cs) = with_the_lock c ∷ up_to_failure (fails c) cs
