-- ===== src/Manager.antt =====
-- The pool manager of core/domain/pool/manager.go. `worker.Manager`, which starts and stops
-- processes, is a parameter: `spawns` says which spawns fail, and the calls of `Stop` are recorded.
-- The sizes are Go `int`s that the configuration keeps at 0 or more; where the source subtracts
-- below 0 the result only bounds a loop, which then does nothing, as at 0.
pub mod Names
pub mod Prefix
pub mod Sizes
use vyx.Base.{
  ℕ, zero, suc, ◌+◌, ◌-◌, ◌/◌, ◌%◌, Bool, true, false, ◌&&◌, not, List, [], ◌∷◌, ◌++◌, Option, none,
  some, if◌then◌else◌, leb, ltb, ◌==◌, Text, lit, str_eq, Dict, lookup, insert, length, take, drop,
  get_elem?,
}
use vyx.Worker.{Worker, is_alive}
use vyx.Pool.{
  Pool, Strategy, or_round_robin, new_pool, add_worker, remove_worker, get_workers, size,
  healthy_size, get_worker_state,
}

pub data Error : Type 0 where
  pool_not_found worker_not_found spawn_error : Error

pub record ManagerConfig : Type 0 where
  pub replicas : ℕ
  pub strategy : Strategy
  pub max_pool_size : ℕ

pub record Manager : Type 0 where
  pub pools : Dict Pool
  pub configs : Dict ManagerConfig
  pub worker_cfgs : Dict Worker
  pub stops : List Text

unfoldable pub new_manager : Manager
new_manager = record { pools = []; configs = []; worker_cfgs = []; stops = [] }

abbrev pub normalised : ManagerConfig → ManagerConfig
normalised c = record c {
  replicas = if c.replicas == 0 then 1 else c.replicas;
  strategy = or_round_robin c.strategy;
}

unfoldable pub register_pool : Text → ManagerConfig → Manager → Manager
register_pool prefix c m = record m {
  configs = insert prefix (normalised c) m.configs;
  pools = insert prefix (new_pool (normalised c).strategy) m.pools;
}

unfoldable pub register_worker_config : Text → Worker → Manager → Manager
register_worker_config prefix w m = record m { worker_cfgs = insert prefix w m.worker_cfgs }

abbrev pub get_pool : Text → Manager → Option Pool
get_pool prefix m = lookup prefix m.pools

-- `itoa`: the loop divides at most as often as the fuel says, and `n + 1` rounds are enough.
unfoldable pub itoa_loop : ℕ → ℕ → Text → Text
itoa_loop zero n result = result
itoa_loop (suc f) n result =
    let rest = itoa_loop f (n / 10) ((48 + n % 10) ∷ result) in if n == 0 then result else rest

unfoldable pub itoa : ℕ → Text
itoa n = if n == 0 then lit "0" else itoa_loop (n + 1) n []

unfoldable pub instance_id : Text → ℕ → Text
instance_id prefix i = if i == 0 then prefix else prefix ++ b'-' ∷ itoa i

-- `generateWorkerID`; `stamp` is `time.Now().Format("20060102-150405.000")`.
unfoldable pub generate_worker_id : Text → Text → Text
generate_worker_id prefix stamp = prefix ++ b'-' ∷ stamp

abbrev pub is_digit : ℕ → Bool
is_digit c = leb b'0' c && leb c b'9'

unfoldable pub all_digits : Text → Bool
all_digits [] = true
all_digits (c ∷ s) = is_digit c && all_digits s

abbrev pub is_dash : Option ℕ → Bool
is_dash none = false
is_dash (some c) = c == b'-'

-- The outer loop of `extractPrefix`, with `i` positions left to look at.
unfoldable pub extract_loop : Text → ℕ → Text
extract_loop s zero = s
extract_loop s (suc i) =
    let rest = extract_loop s i in
    if is_dash (get_elem? s i) && (all_digits (drop (suc i) s) && ltb 0 i) then take i s else rest

unfoldable pub extract_prefix : Text → Text
extract_prefix s = extract_loop s (length s)

-- How many workers `SpawnWorkers` starts.
abbrev pub spawn_count : ManagerConfig → ℕ → ℕ
spawn_count c current =
    if c.max_pool_size == 0
    then c.replicas
    else if leb c.max_pool_size current
    then 0
    else if ltb (c.max_pool_size - current) c.replicas
    then c.max_pool_size - current
    else c.replicas

abbrev pub named : Worker → Text → Worker
named w id = record w { id = id }

-- The loop of `SpawnWorkers`, from index `i`, with `k` rounds left: the first failure ends it, and
-- the workers that were added stay.
unfoldable pub spawn_loop : (Worker → Bool) → Text → Worker → ℕ → ℕ → ℕ → Pool → Pool × Option Error
spawn_loop spawns prefix w now i zero p = (p, none)
spawn_loop spawns prefix w now i (suc k) p =
    let v = named w (instance_id prefix i) in
    let rest = spawn_loop spawns prefix w now (suc i) k (add_worker v now p) in
    if spawns v then rest else (p, some spawn_error)

abbrev pub set_pool : Text → Pool → Manager → Manager
set_pool prefix p m = record m { pools = insert prefix p m.pools }

unfoldable pub spawn_in :
    (Worker → Bool)
    → Text
    → Worker
    → ℕ
    → Manager
    → Option ManagerConfig
    → Option Pool
    → Manager × Option Error
spawn_in spawns prefix w now m (some c) (some p) =
    let (p', e) = spawn_loop spawns prefix w now 0 (spawn_count c (size p)) p in
    (set_pool prefix p' m, e)
spawn_in spawns prefix w now m (some c) none = (m, some pool_not_found)
spawn_in spawns prefix w now m none q = (m, some pool_not_found)

unfoldable pub spawn_workers :
    (Worker → Bool) → Text → Worker → ℕ → Manager → Manager × Option Error
spawn_workers spawns prefix w now m =
    spawn_in spawns prefix w now m (lookup prefix m.configs) (lookup prefix m.pools)

-- `ReplaceWorker` behind its lookups.
unfoldable pub replace_in :
    (Worker → Bool) → Text → Text → Text → ℕ → Manager → Pool → Worker → Manager × Option Error
replace_in spawns prefix id stamp now m p old =
    let removed = remove_worker id now p in
    let fresh = named old (generate_worker_id prefix stamp) in
    let stopped = record m { stops = id ∷ m.stops } in
    if spawns fresh
    then (set_pool prefix (add_worker fresh now removed) stopped, none)
    else (set_pool prefix removed stopped, some spawn_error)

unfoldable pub replace_worker : (Worker → Bool) → Text → Text → ℕ → Manager → Manager × Option Error
replace_worker spawns id stamp now m = elim (lookup (extract_prefix id) m.pools) [
  | none ↦ (m, some pool_not_found)
  | some p ↦ elim (get_worker_state id p) [
    | none ↦ (m, some worker_not_found)
    | some (old, reqs) ↦ replace_in spawns (extract_prefix id) id stamp now m p old
  ]
]

-- How many workers `ensureReplicas` starts, at the healthy and the current size.
abbrev pub missing_count : ManagerConfig → ℕ → ℕ → ℕ
missing_count c healthy current =
    if c.max_pool_size == 0
    then c.replicas - healthy
    else if ltb (c.max_pool_size - current) (c.replicas - healthy)
    then c.max_pool_size - current
    else c.replicas - healthy

-- The loop of `ensureReplicas` over the readings of the clock, one for each round; a failed spawn
-- is passed over.
unfoldable pub ensure_loop : (Worker → Bool) → Text → Worker → List Text → ℕ → Pool → Pool
ensure_loop spawns prefix w [] now p = p
ensure_loop spawns prefix w (stamp ∷ stamps) now p =
    let v = named w (generate_worker_id prefix stamp) in
    ensure_loop spawns prefix w stamps now (if spawns v then add_worker v now p else p)

-- `stamps` are the readings of the clock that the loop would take if it ran on.
unfoldable pub ensure_replicas :
    (Worker → Bool) → Text → Option ManagerConfig → Option Worker → List Text → ℕ → Pool → Pool
ensure_replicas spawns prefix (some c) (some w) stamps now p =
    ensure_loop spawns prefix w (take (missing_count c (healthy_size p) (size p)) stamps) now p
ensure_replicas spawns prefix (some c) none stamps now p = p
ensure_replicas spawns prefix none w stamps now p = p

-- The inner loop of `MonitorHealth`: the workers that are not running leave the pool and are
-- stopped.
unfoldable pub drop_dead : List Worker → ℕ → Pool → List Text → Pool × List Text
drop_dead [] now p stops = (p, stops)
drop_dead (w ∷ ws) now p stops =
    drop_dead ws now (if is_alive w then p else remove_worker w.id now p)
      (if is_alive w then stops else w.id ∷ stops)

-- One round of the outer loop of `MonitorHealth`.
unfoldable pub monitor_pool : (Worker → Bool) → List Text → ℕ → Text × Pool → Manager → Manager
monitor_pool spawns stamps now (prefix, p) m =
    let (p', stops) = drop_dead (get_workers p) now p m.stops in
    set_pool prefix
      (ensure_replicas spawns prefix (lookup prefix m.configs) (lookup prefix m.worker_cfgs) stamps
        now p')
      (record m { stops = stops })

unfoldable pub monitor_loop : (Worker → Bool) → List Text → ℕ → Dict Pool → Manager → Manager
monitor_loop spawns stamps now [] m = m
monitor_loop spawns stamps now (e ∷ es) m =
    monitor_loop spawns stamps now es (monitor_pool spawns stamps now e m)

unfoldable pub monitor_health : (Worker → Bool) → List Text → ℕ → Manager → Manager
monitor_health spawns stamps now m = monitor_loop spawns stamps now m.pools m

unfoldable pub stop_workers : List Worker → List Text → List Text
stop_workers [] stops = stops
stop_workers (w ∷ ws) stops = stop_workers ws (w.id ∷ stops)

unfoldable pub stop_pools : Dict Pool → List Text → List Text
stop_pools [] stops = stops
stop_pools ((prefix, p) ∷ ps) stops = stop_pools ps (stop_workers (get_workers p) stops)

unfoldable pub stop_all : Manager → Manager
stop_all m = record m { stops = stop_pools m.pools m.stops }
