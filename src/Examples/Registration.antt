-- ===== src/Examples/Registration.antt =====
-- A worker that registers, and one whose process has exited.
use vyx.Base.{
  ◌≡◌, refl, arith, true, false, List, [], ◌∷◌, Option, none, some, lit, Text, lookup, str_eq,
  str_eq_iff,
}
use vyx.Worker.{Worker, starting, restarting}
use vyx.Route.{new_route_map}
use vyx.Lifecycle.{Service, Env, stop_error, restart_worker}
use vyx.Lifecycle.Workers.{Keyed}
use vyx.Transport.{Transport, Conn}
use vyx.Manager.{new_manager}
use vyx.Pool.{round_robin}
use vyx.Lifecycle.Spawning.{
  SpawnWorkerConfig, Settings, System, provision, spawn_worker_with_replicas,
}
use vyx.Lifecycle.Spawned.{Accounted, processes, spawn_worker_with_replicas-Accounted}
use vyx.Handshake.{HandshakeCapability, handle, Settled, handle-Settled}
use vyx.Process
use vyx.Process.{Os, pipe_log, stop, stop_process}
use vyx.Process.Stopping.{Exited, restart_worker_refused}

abbrev worker : Worker
worker = record {
  id = lit "w";
  command = lit "node";
  args = [];
  work_dir = [];
  runtime_version = [];
  state = starting;
  restart_count = 0;
  last_heartbeat = 0;
  created_at = 0;
  updated_at = 0;
  shutdown_timeout = 0;
}

abbrev service : Service
service = record {
  repo = (lit "w", worker) ∷ [];
  drainer = none;
  has_transport = false;
  has_receiver = false;
  events = [];
  commands = [];
}

service-Keyed : Keyed service.repo
unfolding lookup
service-Keyed id w e = ground (arith, str_eq_iff (lit "w") id)

-- A machine on which the only process has exited.
abbrev os : Os
os = record {
  getpgid = λ p. none;
  kill = λ p. true;
  signal = λ p. false;
  exits_in_time = λ p. true;
}

abbrev manager : Process.Manager
manager = record { processes = (lit "w", 7) ∷ []; wait_done = (lit "w", 7) ∷ [] }

abbrev calls : Env
calls = record {
  stops = λ id. false;
  spawns = λ w. true;
  registers = λ id. true;
  finishes = λ id. true;
}

stored : lookup (lit "w") service.repo ≡ some worker
unfolding lookup str_eq
stored = refl

listed : lookup (lit "w") manager.processes ≡ some 7
unfolding lookup str_eq
listed = refl

stop_fails : calls.stops (lit "w") ≡ Process.Stopping.succeeds (stop os (lit "w") manager)
unfolding stop stop_process lookup str_eq
stop_fails = refl

restart_worker_refused_example :
    ((restart_worker calls (lit "w") 9 service).1 ≡ some stop_error)
    × ((stop os (lit "w") manager).1 ≡ manager)
    × ((v : Worker) × (lookup (lit "w") (restart_worker calls (lit "w") 9 service).0.repo ≡ some v)
        × (v.state ≡ restarting))
restart_worker_refused_example =
    restart_worker_refused os manager calls (lit "w") 7 9 worker service service-Keyed stored listed
      (record { no_group = refl; no_signal = refl }) stop_fails

abbrev line : Conn
line = record {
  heartbeats = record { type = 5; payload = lit "{}" } ∷ [];
  responses = [];
  pump_err = none;
  written = [];
}

abbrev transport : Transport
transport = record { socket_dir = []; listeners = []; connections = (lit "w", line) ∷ [] }

abbrev capabilities : Text → Option (List HandshakeCapability)
capabilities t = some (record { path = lit "/o"; method = lit "get" } ∷ [])

handle-Settled_example :
    Settled (lit "w") service (handle capabilities (new_route_map []) (lit "w") 5 transport service)
handle-Settled_example =
    handle-Settled capabilities (new_route_map []) (lit "w") 5 transport service service-Keyed

abbrev replicated : SpawnWorkerConfig
replicated = record {
  id = lit "api";
  command = lit "./api";
  args = [];
  work_dir = [];
  shutdown_timeout = 0;
  runtime_version = [];
  vyx_dir = [];
}

abbrev settings : Settings
settings = record {
  env_dir = [];
  skips = false;
  host = record {
    exists = λ path. true;
    glob = λ pattern. [];
    go_in_path = none;
    works = λ a. true;
  };
}

abbrev core : System
core = (service, some new_manager)

spawn_worker_with_replicas-Accounted_example :
    Accounted calls replicated
      (provision settings replicated)
      (processes core.1 2)
      core
      (spawn_worker_with_replicas (λ n. "two") calls settings replicated 2 round_robin 5 core)
spawn_worker_with_replicas-Accounted_example =
    spawn_worker_with_replicas-Accounted (λ n. "two") calls settings replicated 2 round_robin 5 core
