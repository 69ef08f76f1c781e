-- ===== src/Config.antt =====
-- The manifest vyx.yaml and its validation, core/domain/config/config.go. An error is a constructor
-- where the source formats a text; durations are nanoseconds. `Validate` joins the errors that it
-- collects, which is here their list, empty for nil.
pub mod Validity
use vyx.Base.{
  ℕ, zero, suc, ◌+◌, ◌*◌, Bool, true, false, not, ◌||◌, List, [], ◌∷◌, ◌++◌, if◌then◌else◌, Text,
  lit, str_eq, ℤ, pos, is_neg,
}

pub record ProjectConfig : Type 0 where
  pub name : Text
  pub version : Text

pub record WorkerConfig : Type 0 where
  pub id : Text
  pub command : Text
  pub working_dir : Text
  pub runtime_version : Text
  pub replicas : ℤ
  pub strategy : Text
  pub pool_size : ℤ
  pub startup_timeout : ℤ
  pub shutdown_timeout : ℤ

pub record RateLimitConfig : Type 0 where
  pub per_ip : ℤ
  pub per_token : ℤ

pub record CircuitBreakerConfig : Type 0 where
  pub failures : ℤ
  pub cooldown : ℤ
  pub half_open_max : ℤ

pub record SecurityConfig : Type 0 where
  pub jwt_secret_env : Text
  pub rate_limit : RateLimitConfig
  pub circuit_breaker : CircuitBreakerConfig
  pub payload_max_size : Text
  pub global_timeout : ℤ

pub record IpcConfig : Type 0 where
  pub socket_dir : Text
  pub arrow_threshold : Text

pub record BuildConfig : Type 0 where
  pub schemas_dir : Text
  pub route_map_output : Text

pub record Config : Type 0 where
  pub project : ProjectConfig
  pub workers : List WorkerConfig
  pub security : SecurityConfig
  pub ipc : IpcConfig
  pub build : BuildConfig

abbrev pub second : ℕ
second = 1000000000

unfoldable pub defaults : Config
defaults = record {
  project = record { name = []; version = lit "0.2.0" };
  workers = [];
  security = record {
    jwt_secret_env = lit "JWT_SECRET";
    rate_limit = record { per_ip = pos 100; per_token = pos 500 };
    circuit_breaker = record {
      failures = pos 5;
      cooldown = pos (30 * second);
      half_open_max = pos 3;
    };
    payload_max_size = lit "1mb";
    global_timeout = pos (30 * second);
  };
  ipc = record { socket_dir = lit "/tmp/vyx"; arrow_threshold = lit "512kb" };
  build = record { schemas_dir = lit "./schemas"; route_map_output = lit "./route_map.json" };
}

-- The number is the index of the worker.
pub data Problem : Type 0 where
  name_required : Problem
  id_required command_required replicas_negative pool_size_negative : ℕ → Problem
  strategy_invalid shutdown_negative : ℕ → Problem
  failures_negative cooldown_negative half_open_max_negative : Problem

abbrev pub when : Bool → Problem → List Problem → List Problem
when true p ps = p ∷ ps
when false p ps = ps

abbrev pub is_strategy : Text → Bool
is_strategy s = str_eq s (lit "round-robin") || (str_eq s (lit "least-loaded") || str_eq s [])

unfoldable pub validate_project : ProjectConfig → List Problem
validate_project p = when (str_eq p.name []) name_required []

unfoldable pub validate_worker : WorkerConfig → ℕ → List Problem
validate_worker w idx = when (str_eq w.id []) (id_required idx) (
    when (str_eq w.command []) (command_required idx) (
      when (is_neg w.replicas) (replicas_negative idx) (
        when (is_neg w.pool_size) (pool_size_negative idx) (
          when (not (is_strategy w.strategy)) (strategy_invalid idx)
            (when (is_neg w.shutdown_timeout) (shutdown_negative idx) [])))))

unfoldable pub validate_workers : List WorkerConfig → ℕ → List Problem
validate_workers [] idx = []
validate_workers (w ∷ ws) idx = validate_worker w idx ++ validate_workers ws (suc idx)

unfoldable pub validate_security : SecurityConfig → List Problem
validate_security s = when (is_neg s.circuit_breaker.failures) failures_negative (
    when (is_neg s.circuit_breaker.cooldown) cooldown_negative
      (when (is_neg s.circuit_breaker.half_open_max) half_open_max_negative []))

unfoldable pub validate : Config → List Problem
validate c =
    validate_project c.project ++ (validate_workers c.workers 0 ++ validate_security c.security)
