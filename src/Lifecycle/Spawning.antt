-- ===== src/Lifecycle/Spawning.antt =====
-- Spawning a worker in core/application/lifecycle/service.go: its runtime, its process or its pool
-- of replicas. `Settings` is what the call reads from its environment; how the number of replicas
-- is put into the details of an event is an argument.
use Prim.Native.String.{String}
use vyx.Base.{
  ℕ, Bool, true, false, Option, none, some, List, [], ◌∷◌, ◌++◌, Text, lit, if◌then◌else◌, ltb,
}
use vyx.Worker.{Worker, starting, stopped, spawned, invalid_command, spawn_failed}
use vyx.Pool.{Strategy}
use vyx.Manager
use vyx.Manager.{ManagerConfig, register_pool, spawn_workers}
use vyx.Runtime.{
  Runtime, unknown, Host, RuntimeError, not_installed, Ensured, detect, default_version,
  needs_provisioning, ensure, resolve,
}
use vyx.Lifecycle.{
  Env, Service, ServiceError, worker_error, saving, publish, with_state, spawn_single,
}

pub record SpawnWorkerConfig : Type 0 where
  pub id : Text
  pub command : Text
  pub args : List Text
  pub work_dir : Text
  pub shutdown_timeout : ℕ
  pub runtime_version : Text
  pub vyx_dir : Text

-- VYX_DIR, and whether VYX_SKIP_RUNTIME is 1.
pub record Settings : Type 0 where
  pub env_dir : Text
  pub skips : Bool
  pub host : Host

abbrev pub or_text : Text → Text → Text
or_text [] other = other
or_text (b ∷ s) other = b ∷ s

unfoldable pub resolve_vyx_dir : Text → Text → Text
resolve_vyx_dir env_dir vyx_dir = or_text vyx_dir (or_text env_dir (lit ".vyx"))

-- The command to run, or how providing its runtime ends.
pub data Provision : Type 0 where
  ready : Text → Provision
  unavailable : RuntimeError → Provision
  faults : Provision

abbrev pub resolved : Text → Option Text → Provision
resolved cmd none = unavailable not_installed
resolved cmd (some path) = ready (path ++ b' ' ∷ cmd)

abbrev pub ensured : Settings → Runtime → Text → Text → Ensured → Provision
ensured e rt dir cmd (done, some err) = unavailable err
ensured e rt dir cmd (done, none) = resolved cmd (resolve e.host rt dir)

abbrev pub provided : Settings → Runtime → Text → SpawnWorkerConfig → Option Bool → Provision
provided e rt dir c none = faults
provided e rt dir c (some false) = ready c.command
provided e rt dir c (some true) =
    ensured e rt dir c.command
      (ensure e.host rt (or_text c.runtime_version (default_version rt)) dir)

abbrev pub for_runtime : Settings → SpawnWorkerConfig → Runtime → Provision
for_runtime e c unknown = ready c.command
for_runtime e c rt =
    provided e rt (resolve_vyx_dir e.env_dir c.vyx_dir) c (needs_provisioning e.skips c.command)

unfoldable pub provision : Settings → SpawnWorkerConfig → Provision
provision e c = for_runtime e c (detect c.command)

abbrev pub worker_of : SpawnWorkerConfig → Text → ℕ → Worker
worker_of c cmd now = record {
  id = c.id;
  command = cmd;
  args = c.args;
  work_dir = c.work_dir;
  runtime_version = c.runtime_version;
  state = starting;
  restart_count = 0;
  last_heartbeat = 0;
  created_at = now;
  updated_at = now;
  shutdown_timeout = c.shutdown_timeout;
}

-- How a spawn ends; `faulted` is a panic.
pub data Spawned : Type 0 where
  refused : ServiceError → Spawned
  without_runtime : RuntimeError → Spawned
  faulted : Spawned
  spawned_as : Worker → Spawned

abbrev pub System : Type 0
System = Service × Option Manager.Manager

abbrev pub ended_pool :
    (ℕ → String)
    → ℕ
    → Worker
    → ℕ
    → Service
    → Manager.Manager × Option Manager.Error
    → System × Spawned
ended_pool describe replicas w now s (m, some e) = (
  (publish spawned (with_state stopped now w) "" now (saving (with_state stopped now w) s), some m),
  refused (worker_error spawn_failed),
)
ended_pool describe replicas w now s (m, none) =
    ((publish spawned w (describe replicas) now s, some m), spawned_as w)

abbrev pub ended_single :
    Worker → Option Manager.Manager → Service × Option ServiceError → System × Spawned
ended_single w m (s, some e) = ((s, m), refused e)
ended_single w m (s, none) = ((s, m), spawned_as w)

abbrev pub in_pool :
    (ℕ → String) → Env → ℕ → Strategy → Worker → ℕ → Service → Manager.Manager → System × Spawned
in_pool describe env replicas strategy w now s m =
    let cfg : ManagerConfig = record {
      replicas = replicas;
      strategy = strategy;
      max_pool_size = 0;
    } in
    ended_pool describe replicas w now (saving w s)
      (spawn_workers env.spawns w.id w now (register_pool w.id cfg m))

abbrev pub place :
    (ℕ → String)
    → Env
    → ℕ
    → Strategy
    → Worker
    → ℕ
    → Service
    → Option Manager.Manager
    → System × Spawned
place describe env replicas strategy w now s none = ended_single w none (spawn_single env w now s)
place describe env replicas strategy w now s (some m) =
    if ltb 1 replicas
    then in_pool describe env replicas strategy w now s m
    else ended_single w (some m) (spawn_single env w now s)

abbrev pub provisioned :
    (ℕ → String)
    → Env
    → ℕ
    → Strategy
    → SpawnWorkerConfig
    → ℕ
    → System
    → Provision
    → System × Spawned
provisioned describe env replicas strategy c now s faults = (s, faulted)
provisioned describe env replicas strategy c now s (unavailable e) = (s, without_runtime e)
provisioned describe env replicas strategy c now (s, m) (ready cmd) =
    place describe env replicas strategy (worker_of c cmd now) now s m

-- The first check of a spawn.
abbrev pub with_command : Text → System → System × Spawned → System × Spawned
with_command [] s next = (s, refused (worker_error invalid_command))
with_command (b ∷ cmd) s next = next

unfoldable pub spawn_worker_with_replicas :
    (ℕ → String) → Env → Settings → SpawnWorkerConfig → ℕ → Strategy → ℕ → System → System × Spawned
spawn_worker_with_replicas describe env e c replicas strategy now s =
    with_command c.command s (provisioned describe env replicas strategy c now s (provision e c))

unfoldable pub spawn_worker :
    (ℕ → String) → Env → Settings → SpawnWorkerConfig → ℕ → System → System × Spawned
spawn_worker describe env e c now s =
    spawn_worker_with_replicas describe env e c 1 (lit "round-robin") now s
