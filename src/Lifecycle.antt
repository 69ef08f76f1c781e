-- ===== src/Lifecycle.antt =====
-- The lifecycle service of core/application/lifecycle/service.go over the repository of
-- core/infrastructure/repository/memory_worker_repository.go. The process manager, the transport
-- and the receiver of heartbeats are outside: `Env` says how their calls end, and the calls made of
-- them are recorded. `now` is what `time.Now()` reads during the call; the details of an event are
-- given without the text of the error that some of them end in.
pub mod Workers
pub mod Stopping
pub mod Restarting
pub mod Spawning
pub mod Spawned
use vyx.Base.{
  ℕ, zero, suc, ◌+◌, ◌*◌, Bool, true, false, not, List, [], ◌∷◌, Option, none, some, if◌then◌else◌,
  ◌==◌, Text, Dict, lookup, insert, delete, map,
}
use Prim.Native.String.{String}
use vyx.Worker.{
  State, starting, running, unhealthy, restarting, stopped, Worker, Event, EventType, spawned,
  event_running, event_unhealthy, event_restarting, event_stopped, heartbeat, Error, not_found,
  spawn_failed, invalid_command, is_alive, is_running, record_heartbeat,
}
use vyx.Drainer.{Drainer, mark_draining, drain, cleanup}

-- The repository. Each method copies the worker, and its error is always nil.
abbrev pub Repo : Type 0
Repo = Dict Worker

unfoldable pub save : Worker → Repo → Repo
save w r = insert w.id w r

abbrev pub find_by_id : Text → Repo → Option Worker
find_by_id id r = lookup id r

unfoldable pub find_all : Repo → List Worker
find_all [] = []
find_all ((id, w) ∷ r) = w ∷ find_all r

abbrev pub delete_worker : Text → Repo → Repo
delete_worker id r = delete id r

unfoldable pub live_worker_ids : Repo → List Text
live_worker_ids [] = []
live_worker_ids ((id, w) ∷ r) = id ∷ live_worker_ids r

-- What the service asks of the process manager, the transport and the receiver.
pub data Command : Type 0 where
  stop_process : Text → Command
  spawn_process : Worker → Command
  deregister : Text → Command
  register : Text → Command
  restart_loop : Text → Command

pub record Env : Type 0 where
  pub stops : Text → Bool
  pub spawns : Worker → Bool
  pub registers : Text → Bool
  pub finishes : Text → Bool

pub data ServiceError : Type 0 where
  worker_error : Error → ServiceError
  stop_error : ServiceError

-- The events and the commands have the latest first.
pub record Service : Type 0 where
  pub repo : Repo
  pub drainer : Option Drainer
  pub has_transport : Bool
  pub has_receiver : Bool
  pub events : List Event
  pub commands : List Command

abbrev pub saving : Worker → Service → Service
saving w s = record s { repo = save w s.repo }

abbrev pub publish : EventType → Worker → String → ℕ → Service → Service
publish t w details now s = record s { events = event ∷ s.events }
  where
    event : Event
    event = record {
      type = t;
      worker_id = w.id;
      state = w.state;
      timestamp = now;
      details = details;
    }

abbrev pub command : Command → Service → Service
command c s = record s { commands = c ∷ s.commands }

abbrev pub with_state : State → ℕ → Worker → Worker
with_state st now w = record w { state = st; updated_at = now }

-- `SpawnWorker` for one replica, behind the provisioning of a runtime, which has made the command.
unfoldable pub spawn_single : Env → Worker → ℕ → Service → Service × Option ServiceError
spawn_single env w now s =
    let s₁ = command (spawn_process w) (saving w s) in
    if env.spawns w
    then (
      publish spawned (with_state w.state now w) "" now (saving (with_state w.state now w) s₁),
      none,
    )
    else (
      publish spawned (with_state stopped now w) "" now (saving (with_state stopped now w) s₁),
      some (worker_error spawn_failed),
    )

-- `MarkDraining`, then `Drain`; both callers go on after a timeout, which one of them reports.
abbrev pub drain_worker : Env → Text → Option Drainer → Option Drainer × Bool
drain_worker env id none = (none, true)
drain_worker env id (some d) =
    let (d', done) = drain (env.finishes id) id (mark_draining id d) in (some d', done)

abbrev pub cleaned : Text → Option Drainer → Option Drainer
cleaned id none = none
cleaned id (some d) = some (cleanup id d)

unfoldable pub stop_found : Env → Text → Worker → ℕ → Service → Service × Option ServiceError
stop_found env id w now s =
    let (d, done) = drain_worker env id s.drainer in
    let s₁ = record s { drainer = d } in
    let s₂ =
      if done then s₁ else publish event_stopped w "drain timeout, proceeding to stop" now s₁ in
    let s₃ = command (stop_process id) s₂ in
    if env.stops id
    then (
      record (publish event_stopped (with_state stopped now w) "graceful stop" now
          (saving (with_state stopped now w) s₃)) { drainer = cleaned id d },
      none,
    )
    else (s₃, some stop_error)

abbrev pub with_found :
    (Worker → Service → Service × Option ServiceError)
    → Option Worker
    → Service
    → Service × Option ServiceError
with_found f none s = (s, some (worker_error not_found))
with_found f (some w) s = f w s

unfoldable pub stop_worker : Env → Text → ℕ → Service → Service × Option ServiceError
stop_worker env id now s = with_found (λ w s'. stop_found env id w now s') (find_by_id id s.repo) s

unfoldable pub record_heartbeat_of : Text → ℕ → Service → Service × Option ServiceError
record_heartbeat_of id now s =
    with_found
      (λ w s'. (
        saving (record_heartbeat now w) (publish heartbeat (record_heartbeat now w) "" now s'),
        none,
      ))
      (find_by_id id s.repo) s

unfoldable pub mark_unhealthy : Text → ℕ → Service → Service × Option ServiceError
mark_unhealthy id now s =
    with_found
      (λ w s'. (
        saving (with_state unhealthy now w)
            (publish event_unhealthy (with_state unhealthy now w) "missed heartbeat" now s'),
        none,
      ))
      (find_by_id id s.repo) s

abbrev pub woken : ℕ → Worker → Worker
woken now w = record w { state = running; last_heartbeat = now; updated_at = now }

unfoldable pub mark_running : Text → ℕ → Service → Service × Option ServiceError
mark_running id now s =
    with_found
      (λ w s'. if is_running w.state then (s', none) else (
        saving (woken now w) (publish event_running (woken now w) "handshake complete" now s'),
        none,
      ))
      (find_by_id id s.repo) s

abbrev pub restart_begun : ℕ → Worker → Worker
restart_begun now w = record w {
  state = restarting;
  restart_count = w.restart_count + 1;
  updated_at = now;
}

abbrev pub restart_failed : String → Worker → ℕ → Service → Service × Option ServiceError
restart_failed details w now s = (
  publish event_stopped (with_state stopped now w) details now
      (saving (with_state stopped now w) s),
  some (worker_error spawn_failed),
)

abbrev pub rearmed : Text → Service → Service
rearmed id s = if s.has_receiver then command (restart_loop id) s else s

unfoldable pub respawn : Env → Text → Worker → ℕ → Service → Service × Option ServiceError
respawn env id w now s =
    let s₁ = command (spawn_process w) s in
    if env.spawns w
    then (
      rearmed id (
          publish event_running (with_state running now w) "restarted successfully" now
            (saving (with_state running now w) s₁)),
      none,
    )
    else restart_failed "restart failed: " w now s₁

unfoldable pub reconnect : Env → Text → Worker → ℕ → Service → Service × Option ServiceError
reconnect env id w now s =
    let s₁ = command (register id) (command (deregister id) s) in
    if s.has_transport
    then (if env.registers id
        then respawn env id w now s₁
        else restart_failed "restart failed: transport re-register: " w now s₁)
    else respawn env id w now s

unfoldable pub restart_found : Env → Text → Worker → ℕ → Service → Service × Option ServiceError
restart_found env id w now s =
    let w₁ = restart_begun now w in
    let s₁ = publish event_restarting w₁ "automatic restart" now (saving w₁ s) in
    let s₂ = record s₁ { drainer = (drain_worker env id s.drainer).0 } in
    let s₃ = command (stop_process id) s₂ in
    if env.stops id then reconnect env id w₁ now s₃ else (s₃, some stop_error)

unfoldable pub restart_worker : Env → Text → ℕ → Service → Service × Option ServiceError
restart_worker env id now s =
    with_found (λ w s'. restart_found env id w now s') (find_by_id id s.repo) s

abbrev pub later : Option ServiceError → Option ServiceError → Option ServiceError
later none last = last
later (some e) last = some e

abbrev pub visit :
    (Text → Service → Service × Option ServiceError)
    → Worker
    → Service
    → Service × Option ServiceError
visit f w s = if is_alive w then f w.id s else (s, none)

-- The loops of `StopAll` and `RestartAll` over the workers that were found, with the last error.
unfoldable pub each_alive :
    (Text → Service → Service × Option ServiceError)
    → List Worker
    → Option ServiceError
    → Service
    → Service × Option ServiceError
each_alive f [] last s = (s, last)
each_alive f (w ∷ ws) last s = let (s', e) = visit f w s in each_alive f ws (later e last) s'

unfoldable pub stop_all : Env → ℕ → Service → Service × Option ServiceError
stop_all env now s = each_alive (λ id. stop_worker env id now) (find_all s.repo) none s

unfoldable pub restart_all : Env → ℕ → Service → Service × Option ServiceError
restart_all env now s = each_alive (λ id. restart_worker env id now) (find_all s.repo) none s
