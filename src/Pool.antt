-- ===== src/Pool.antt =====
-- The worker pool of core/domain/pool/pool.go. A method on `*Pool` returns the new record; `now` is
-- what `time.Now()` reads. The counter of the round robin is an int64, kept as its bit pattern;
-- the counts of active requests are integers, since they may fall below 0.
pub mod Selection
pub mod Members
use vyx.Base.{
  ℕ, zero, suc, ◌+◌, ◌-◌, ◌*◌, ◌/◌, ◌%◌, ◌^◌, Bool, true, false, List, [], ◌∷◌, ◌++◌, Option, none,
  some, if◌then◌else◌, leb, ltb, ◌==◌, Text, lit, str_eq, Dict, lookup, insert, delete, length,
  get_elem?, ℤ, pos, negsuc, suc_ℤ, pred_ℤ, ltb_ℤ, is_minus_one,
}
use vyx.Worker.{Worker, is_alive}

abbrev pub Strategy : Type 0
Strategy = Text

abbrev pub round_robin : Strategy
round_robin = lit "round-robin"

abbrev pub least_loaded : Strategy
least_loaded = lit "least-loaded"

pub record WorkerState : Type 0 where
  pub worker : Worker
  pub active_reqs : ℤ
  pub last_health_check : ℕ

pub record Pool : Type 0 where
  pub workers : Dict WorkerState
  pub worker_ids : List Text
  pub strategy : Strategy
  pub counter : ℕ  -- int64
  pub last_updated : ℕ

abbrev pub or_round_robin : Strategy → Strategy
or_round_robin s = if str_eq s [] then round_robin else s

unfoldable pub new_pool : Strategy → Pool
new_pool s = record {
  workers = [];
  worker_ids = [];
  strategy = or_round_robin s;
  counter = 0;
  last_updated = 0;
}

unfoldable pub add_worker : Worker → ℕ → Pool → Pool
add_worker w now p = record p {
  workers =
      insert w.id (record { worker = w; active_reqs = pos 0; last_health_check = now }) p.workers;
  worker_ids = p.worker_ids ++ w.id ∷ [];
  last_updated = now;
}

-- The loop of `RemoveWorker`: the first entry that is the ID goes.
unfoldable pub remove_first : Text → List Text → List Text
remove_first id [] = []
remove_first id (x ∷ xs) = if str_eq x id then xs else x ∷ remove_first id xs

unfoldable pub remove_worker : Text → ℕ → Pool → Pool
remove_worker id now p = record p {
  workers = delete id p.workers;
  worker_ids = remove_first id p.worker_ids;
  last_updated = now;
}

unfoldable pub update_worker : Worker → ℕ → Pool → Pool
update_worker w now p = elim (lookup w.id p.workers) [
  | some ws ↦ record p {
    workers = insert w.id (record ws { worker = w; last_health_check = now }) p.workers;
    last_updated = now;
  }
  | none ↦ record p { last_updated = now }
]

abbrev pub prepend_some {ℓ} : {A : Type ℓ} → Option A → List A → List A
prepend_some none xs = xs
prepend_some (some x) xs = x ∷ xs

abbrev pub worker_of : Option WorkerState → Option Worker
worker_of none = none
worker_of (some ws) = some ws.worker

abbrev pub alive_of : Option WorkerState → Option Worker
alive_of none = none
alive_of (some ws) = if is_alive ws.worker then some ws.worker else none

unfoldable pub workers_of : List Text → Dict WorkerState → List Worker
workers_of [] m = []
workers_of (id ∷ ids) m = prepend_some (worker_of (lookup id m)) (workers_of ids m)

unfoldable pub healthy_of : List Text → Dict WorkerState → List Worker
healthy_of [] m = []
healthy_of (id ∷ ids) m = prepend_some (alive_of (lookup id m)) (healthy_of ids m)

abbrev pub get_workers : Pool → List Worker
get_workers p = workers_of p.worker_ids p.workers

abbrev pub healthy_workers : Pool → List Worker
healthy_workers p = healthy_of p.worker_ids p.workers

unfoldable pub get_worker_state : Text → Pool → Option (Worker × ℤ)
get_worker_state id p = elim (lookup id p.workers) [
  | some ws ↦ some (ws.worker, ws.active_reqs)
  | none ↦ none
]

-- `ws.activeReqs.Add(±1)` through the shared pointer.
unfoldable pub add_active : (ℤ → ℤ) → Text → Pool → Pool
add_active f id p = elim (lookup id p.workers) [
  | some ws ↦ record p {
    workers = insert id (record ws { active_reqs = f ws.active_reqs }) p.workers;
  }
  | none ↦ p
]

abbrev pub increment_active_reqs : Text → Pool → Pool
increment_active_reqs = add_active suc_ℤ

abbrev pub decrement_active_reqs : Text → Pool → Pool
decrement_active_reqs = add_active pred_ℤ

-- What `workers[idx % n]` does at an int64 index with the given bits: it faults at a negative one,
-- unless `n` divides it.
pub data Selected : Type 0 where
  selected : Worker → Selected
  no_worker : Selected
  index_panic : Selected

abbrev pub selected_or_panic : Option Worker → Selected
selected_or_panic (some w) = selected w
selected_or_panic none = index_panic

unfoldable pub at_index : ℕ → List Worker → Selected
at_index bits ws =
    if ltb bits (2 ^ 63)
    then selected_or_panic (get_elem? ws (bits % length ws))
    else (if (2 ^ 64 - bits) % length ws == 0
        then selected_or_panic (get_elem? ws 0)
        else index_panic)

unfoldable pub select_round_robin : List Worker → Pool → Pool × Selected
select_round_robin [] p = (p, no_worker)
select_round_robin (w ∷ ws) p =
    (record p { counter = (p.counter + 1) % 2 ^ 64 }, at_index p.counter (w ∷ ws))

-- One round of the loop over the candidates: the best so far and its count, -1 at first.
abbrev pub better : Worker → ℤ → Option Worker × ℤ → Option Worker × ℤ
better w reqs (best, min_reqs) =
    if is_minus_one min_reqs
    then (some w, reqs)
    else if ltb_ℤ reqs min_reqs
    then (some w, reqs)
    else (best, min_reqs)

abbrev pub consider : Worker → Option WorkerState → Option Worker × ℤ → Option Worker × ℤ
consider w none acc = acc
consider w (some ws) acc = better w ws.active_reqs acc

unfoldable pub least_from : Option Worker × ℤ → List Worker → Dict WorkerState → Option Worker × ℤ
least_from acc [] m = acc
least_from acc (w ∷ ws) m = least_from (consider w (lookup w.id m) acc) ws m

abbrev pub or_first : Option Worker → Worker → Selected
or_first (some w) first = selected w
or_first none first = selected first

unfoldable pub select_least_loaded : List Worker → Pool → Selected
select_least_loaded [] p = no_worker
select_least_loaded (w ∷ ws) p = or_first (least_from (none, negsuc 0) (w ∷ ws) p.workers).0 w

unfoldable pub select_worker : Pool → Pool × Selected
select_worker p =
    let healthy = healthy_workers p in
    if str_eq p.strategy least_loaded
    then (p, select_least_loaded healthy p)
    else select_round_robin healthy p

abbrev pub size : Pool → ℕ
size p = length p.worker_ids

abbrev pub count_some {ℓ} : {A : Type ℓ} → Option A → ℕ → ℕ
count_some none n = n
count_some (some x) n = suc n

unfoldable pub count_alive : List Text → Dict WorkerState → ℕ
count_alive [] m = 0
count_alive (id ∷ ids) m = count_some (alive_of (lookup id m)) (count_alive ids m)

abbrev pub healthy_size : Pool → ℕ
healthy_size p = count_alive p.worker_ids p.workers
