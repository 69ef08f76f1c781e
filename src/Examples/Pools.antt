-- ===== src/Examples/Pools.antt =====
-- Pools of core/domain/pool with two workers, and what their manager makes of the IDs.
use vyx.Base.{ℕ, ◌<◌, ◌≡◌, refl, arith, [], ◌∷◌, lit, lookup, str_eq, pos, All, Any}
use vyx.Worker.{Worker, running}
use vyx.Pool.{Pool, round_robin, least_loaded, select_round_robin, select_least_loaded, selected}
use vyx.Pool.Selection.{
  after_rounds, round_robin_fair, select_least_loaded_minimal, HasLoad, AtLeast,
}
use vyx.Manager.{Manager, ManagerConfig, new_manager}

abbrev first : Worker
first = record {
  id = lit "api";
  command = lit "./api";
  args = [];
  work_dir = [];
  runtime_version = [];
  state = running;
  restart_count = 0;
  last_heartbeat = 90;
  created_at = 10;
  updated_at = 90;
  shutdown_timeout = 0;
}

abbrev second : Worker
second = record first { id = lit "api-1" }

abbrev loads : Pool
loads = record {
  workers =
      (lit "api", record { worker = first; active_reqs = pos 3; last_health_check = 0 })
      ∷ (lit "api-1", record { worker = second; active_reqs = pos 1; last_health_check = 0 })
      ∷ [];
  worker_ids = lit "api" ∷ lit "api-1" ∷ [];
  strategy = least_loaded;
  counter = 7;
  last_updated = 0;
}

round_robin_fair_example :
    (k : ℕ) × (k < 2)
    × ((select_round_robin (first ∷ second ∷ []) (after_rounds k (first ∷ second ∷ []) loads)).1
        ≡ selected first)
round_robin_fair_example =
    round_robin_fair loads first first (second ∷ []) 0 (omega arith) refl (omega arith)

first_load : HasLoad loads.workers 3 first
unfolding lookup str_eq
first_load = (_, refl, refl)

second_load : HasLoad loads.workers 1 second
unfolding lookup str_eq
second_load = (_, refl, refl)

select_least_loaded_minimal_example :
    (b : Worker) × (n : ℕ) × (select_least_loaded (first ∷ second ∷ []) loads ≡ selected b)
    × Any (λ v. (b ≡ v) × HasLoad loads.workers n v) (first ∷ second ∷ [])
    × All (AtLeast loads.workers n) (first ∷ second ∷ [])
select_least_loaded_minimal_example =
    select_least_loaded_minimal loads first (second ∷ []) ((3, first_load), ((1, second_load), tt))

abbrev capped : ManagerConfig
capped = record { replicas = 4; strategy = round_robin; max_pool_size = 3 }

abbrev manager : Manager
manager = record new_manager { configs = (lit "api", capped) ∷ []; pools = (lit "api", loads) ∷ [] }
