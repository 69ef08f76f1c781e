-- ===== src/Worker.antt =====
-- The worker entity of core/domain/worker: worker.go, event.go and errors.go. Times are nanoseconds,
-- 0 is the zero `time.Time`; `now` is what `time.Now()` reads during the call.
use vyx.Base.{ℕ, Bool, true, false, List, Text, if◌then◌else◌}
use Prim.Native.String.{String}

pub data State : Type 0 where
  starting running unhealthy restarting stopped : State

pub data Error : Type 0 where
  not_found already_running spawn_failed stop_timeout invalid_command : Error

pub data EventType : Type 0 where
  spawned event_running event_unhealthy event_restarting event_stopped heartbeat : EventType

pub record Worker : Type 0 where
  pub id : Text
  pub command : Text
  pub args : List Text
  pub work_dir : Text
  pub runtime_version : Text
  pub state : State
  pub restart_count : ℕ
  pub last_heartbeat : ℕ
  pub created_at : ℕ
  pub updated_at : ℕ
  pub shutdown_timeout : ℕ

pub record Event : Type 0 where
  pub type : EventType
  pub worker_id : Text
  pub state : State
  pub timestamp : ℕ
  pub details : String

abbrev pub is_running : State → Bool
is_running running = true
is_running _ = false

abbrev pub is_unhealthy : State → Bool
is_unhealthy unhealthy = true
is_unhealthy _ = false

abbrev pub is_alive : Worker → Bool
is_alive w = is_running w.state

unfoldable pub set_health : Bool → ℕ → Worker → Worker
set_health healthy now w = record w {
  state = if healthy then running else unhealthy;
  last_heartbeat = now;
  updated_at = now;
}

unfoldable pub record_heartbeat : ℕ → Worker → Worker
record_heartbeat now w = record w {
  last_heartbeat = now;
  updated_at = now;
  state = if is_unhealthy w.state then running else w.state;
}
