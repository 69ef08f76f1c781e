-- ===== src/Monitor.antt =====
-- The monitor of core/application/monitor/monitor.go: health checks and the backoff of restarts.
-- A restart runs in a goroutine of its own; here it is one operation, at the time when it ends.
pub mod Backoff
use vyx.Base.{
  ℕ, zero, suc, ◌+◌, ◌-◌, ◌*◌, ◌^◌, Bool, true, false, ◌&&◌, not, List, [], ◌∷◌, ◌++◌, Option, none,
  some, if◌then◌else◌, leb, ltb, ◌==◌, Text, str_eq, Dict, lookup, insert, delete, is_some, length,
  ℤ, pos, negsuc, ltb_ℤ,
}
use vyx.Worker.{Worker, is_running}
use vyx.Pool.{remove_first}
use vyx.Lifecycle.{Service, ServiceError, Env, find_all, mark_unhealthy, restart_worker}

abbrev pub second : ℕ
second = 1000000000

abbrev pub backoff_base : ℕ
backoff_base = second

abbrev pub backoff_max : ℕ
backoff_max = 30 * second

abbrev pub backoff_map_max_size : ℕ
backoff_map_max_size = 1000

pub record Monitor : Type 0 where
  pub interval : ℕ
  pub backoffs : Dict ℕ
  pub backoff_order : List Text

unfoldable pub new_monitor : Monitor
new_monitor = record { interval = 5 * second; backoffs = []; backoff_order = [] }

-- A worker that runs, has sent a heartbeat, and sent the last one more than two intervals ago.
unfoldable pub is_overdue : ℕ → ℕ → Worker → Bool
is_overdue interval now w =
    is_running w.state && (not (w.last_heartbeat == 0) && ltb (w.last_heartbeat + interval * 2) now)

-- The loop of `checkAll`, with the restarts that it schedules, the latest first.
unfoldable pub check_each : ℕ → ℕ → List Worker → Service → List Text → Service × List Text
check_each interval now [] s scheduled = (s, scheduled)
check_each interval now (w ∷ ws) s scheduled =
    check_each interval now ws
      (if is_overdue interval now w then (mark_unhealthy w.id now s).0 else s)
      (if is_overdue interval now w then w.id ∷ scheduled else scheduled)

unfoldable pub check_all : ℕ → Monitor → Service → Service × List Text
check_all now m s = check_each m.interval now (find_all s.repo) s []

abbrev pub or_zero : Option ℕ → ℕ
or_zero none = 0
or_zero (some n) = n

-- `time.Duration(float64(backoffBase) * math.Pow(backoffFactor, float64(attempt)))`. The product
-- is exact; past the largest int64 the conversion gives what the platform makes of it.
abbrev pub to_duration : ℤ → ℕ → ℤ
to_duration overflowed x = if ltb x (2 ^ 63) then pos x else overflowed

unfoldable pub backoff_after : ℤ → ℕ → ℤ
backoff_after overflowed attempt =
    let d = to_duration overflowed (backoff_base * 2 ^ attempt) in
    if ltb_ℤ (pos backoff_max) d then pos backoff_max else d

unfoldable pub next_backoff : ℤ → Text → Monitor → ℤ
next_backoff overflowed id m = backoff_after overflowed (or_zero (lookup id m.backoffs))

-- The oldest entry leaves a full map.
unfoldable pub evict : ℕ → Monitor → List Text → Monitor
evict limit m [] = m
evict limit m (oldest ∷ order) =
    if leb limit (length m.backoffs)
    then record m { backoff_order = order; backoffs = delete oldest m.backoffs }
    else m

abbrev pub counted : Text → Monitor → Monitor
counted id m = record m { backoffs = insert id (or_zero (lookup id m.backoffs) + 1) m.backoffs }

abbrev pub ordered : Text → Monitor → Monitor
ordered id m = record m { backoff_order = m.backoff_order ++ id ∷ [] }

-- `limit` is `backoffMapMaxSize`, a variable of the package.
unfoldable pub add_backoff_entry : ℕ → Text → Monitor → Monitor
add_backoff_entry limit id m =
    if is_some (lookup id m.backoffs)
    then counted id m
    else counted id (ordered id (evict limit m m.backoff_order))

unfoldable pub remove_backoff_entry : Text → Monitor → Monitor
remove_backoff_entry id m = record m {
  backoffs = delete id m.backoffs;
  backoff_order = remove_first id m.backoff_order;
}

-- `scheduleRestart` behind its wait.
unfoldable pub restart_scheduled : Env → Text → ℕ → Monitor → Service → Monitor × Service
restart_scheduled env id now m s =
    let (s', e) = restart_worker env id now s in
    (
      if is_some e then add_backoff_entry backoff_map_max_size id m else remove_backoff_entry id m,
      s',
    )
