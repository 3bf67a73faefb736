-- ===== src/Runtime.antt =====
-- The life of the process: `create_runtime_bundle` and `close_runtime_bundle` of service_runtime.py,
-- `close_redis_runtime` of redis/runtime.py, and `run` of main.py. What a step may raise is an argument;
-- the state records what was opened and closed, and what the shutdown did, in order.
pub mod Closing
pub mod Wiring
pub mod Startup
use transcribe_service.Prelude.{
  ℕ, zero, suc, Bool, true, false, Option, none, some, List, [], ◌∷◌, ◌++◌, if◌then◌else◌,
}
use transcribe_service.Prelude.Exec.{
  Exn, exception, str, Result, ok, err, Exec, catch, raise, pure, with_finally, ◌>>=◌, ◌>>◌,
}

pub data Event : Type 0 where
  client_opened machine_opened guard_opened producer_opened : Event
  client_closed machine_closed guard_closed producer_closed : Event
  sockets_closed producer_flushed should_exit server_awaited : Event

-- The exceptions that the steps of the construction raise, in order, and those of the two closing calls
-- that reach another process.
pub record Troubles : Type 0 where
  pub create_client : Option Exn
  pub create_machine : Option Exn
  pub create_guard : Option Exn
  pub create_producer : Option Exn
  pub register_signal : Option Exn
  pub create_auth : Option Exn
  pub build_app : Option Exn
  pub create_server : Option Exn
  pub close_producer : Option Exn
  pub close_client : Option Exn

-- Which of the local variables are not `None`, and the events so far.
pub record Process : Type 0 where
  pub client : Bool
  pub machine : Bool
  pub guard : Bool
  pub producer : Bool
  pub events : List Event

abbrev pub fresh : Process
fresh = record { client = false; machine = false; guard = false; producer = false; events = [] }

abbrev Action : Type 0
Action = Exec Process (Unit {0})

abbrev raise_if : Option Exn → Action
raise_if none = pure tt
raise_if (some e) = raise e

abbrev log : Event → Process → Process
log event p = record p { events = p.events ++ event ∷ [] }

abbrev logged : Event → Action
logged event p = (ok tt, log event p)

open_client : Action
open_client p = (ok tt, record (log client_opened p) { client = true })

open_machine : Action
open_machine p = (ok tt, record (log machine_opened p) { machine = true })

open_guard : Action
open_guard p = (ok tt, record (log guard_opened p) { guard = true })

open_producer : Action
open_producer p = (ok tt, record (log producer_opened p) { producer = true })

abbrev when : Bool → Action → Action
when true m = m
when false m = pure tt

-- Closing a resource that stands on the shared client only drops the reference.
unfoldable pub close_redis_runtime : Troubles → Action
close_redis_runtime t p =
    (do
      when p.machine (logged machine_closed)
      when p.guard (logged guard_closed)
      when p.client (do raise_if t.close_client; logged client_closed))
      p

abbrev close_producer_then : Troubles → Action
close_producer_then t = do raise_if t.close_producer; logged producer_closed

-- The handler of `create_runtime_bundle`.
unfoldable pub release_partial : Troubles → Action
unfolding close_redis_runtime
release_partial t p = (do when p.producer (close_producer_then t); close_redis_runtime t) p

unfoldable pub build : Troubles → Action
unfolding open_client open_machine open_guard open_producer
build t = do
  raise_if t.create_client
  open_client
  raise_if t.create_machine
  open_machine
  raise_if t.create_guard
  open_guard
  raise_if t.create_producer
  open_producer
  raise_if t.register_signal
  raise_if t.create_auth
  raise_if t.build_app
  raise_if t.create_server

unfoldable pub create_runtime_bundle : Troubles → Action
unfolding build release_partial
create_runtime_bundle t = catch (build t) (λ e. release_partial t >> raise e)

unfoldable pub close_runtime_bundle : Troubles → Action
unfolding close_redis_runtime
close_runtime_bundle t = do close_producer_then t; close_redis_runtime t

-- How `_graceful_stop` ends: at its end, by an exception after so many of its steps, or by the timeout.
pub data Stopping : Type 0 where
  completes : Stopping
  raises : ℕ → Exn → Stopping
  times_out : ℕ → Stopping

abbrev pub stop_steps : List Event
stop_steps = sockets_closed ∷ producer_flushed ∷ should_exit ∷ server_awaited ∷ []

abbrev pub first_events : ℕ → List Event → List Event
first_events zero xs = []
first_events (suc n) [] = []
first_events (suc n) (x ∷ xs) = x ∷ first_events n xs

abbrev log_all : List Event → Process → Process
log_all xs p = record p { events = p.events ++ xs }

unfoldable pub graceful_stop : Stopping → Action
graceful_stop completes p = (ok tt, log_all stop_steps p)
graceful_stop (raises n e) p = (err e, log_all (first_events n stop_steps) p)
graceful_stop (times_out n) p = (ok tt, log should_exit (log_all (first_events n stop_steps) p))

-- The start-up checks, the server's own end if it comes first, and how the shutdown ends.
pub record Course : Type 0 where
  pub checks : Option Exn
  pub server_first : Option Exn
  pub stopping : Stopping

unfoldable pub serve : Course → Action
unfolding graceful_stop
serve c = do raise_if c.checks; raise_if c.server_first; graceful_stop c.stopping

-- `run`, without the settings and the logging. The bundle is released if there is one.
unfoldable pub run : Troubles → Course → Action
unfolding create_runtime_bundle serve close_runtime_bundle
run t c = do create_runtime_bundle t; with_finally (serve c) (close_runtime_bundle t)
