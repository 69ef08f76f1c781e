-- ===== src/Manager/Sizes.antt =====
-- How many workers a pool gets, and whether they can be selected.
use vyx.Base.{
  ℕ, zero, suc, ◌+◌, ◌≤◌, ◌<◌, ◌≡◌, refl, ap, ◌⊎◌, inl, inr, Bool, true, false, List, [], ◌∷◌,
  Option, none, some, arith, if◌then◌else◌, Text, length, length-append, take, Dict, lookup,
  lookup-insert, str_eq_refl, Bool-cases, pos,
}
use vyx.Worker.{Worker, is_alive}
use vyx.Pool.{
  Pool, WorkerState, add_worker, size, healthy_size, healthy_of, healthy_workers, alive_of,
  select_worker, no_worker, select_least_loaded, select_round_robin,
}
use vyx.Manager.{
  Error, ManagerConfig, Manager, spawn_in, spawn_workers, named, instance_id, spawn_count,
  spawn_loop, spawn_error, ensure_loop, ensure_replicas, missing_count, generate_worker_id,
}

size-add_worker : (w : Worker) (now : ℕ) (p : Pool) → size (add_worker w now p) ≡ size p + 1
unfolding add_worker
size-add_worker w now p = omega (arith, length-append p.worker_ids (w.id ∷ []))

-- The loop adds all its workers and reports nothing, or it stops at a failed spawn and reports it.
spawn_loop-size :
    (spawns : Worker → Bool) (prefix : Text) (w : Worker) (now i k : ℕ) (p : Pool)
    → let (q, e) = spawn_loop spawns prefix w now i k p in
      ((e ≡ none) × (size q ≡ size p + k)) ⊎ ((e ≡ some spawn_error) × (size q < size p + k))
unfolding spawn_loop
spawn_loop-size spawns prefix w now i zero p = inl (refl, omega arith)
spawn_loop-size spawns prefix w now i (suc k) p =
    let v = named w (instance_id prefix i) in
    elim (Bool-cases (spawns v)) [
      | inl e ↦ rw e (
          ground (
            arith,
            size-add_worker v now p,
            spawn_loop-size spawns prefix w now (suc i) k (add_worker v now p),
          ))
      | inr e ↦ rw e (inr (refl, omega arith))
    ]

-- What the size `n` of a pool becomes, with or without an error: without one the replicas that are
-- asked for have joined, or the pool is full.
abbrev pub Filled : Option Error → ManagerConfig → ℕ → ℕ → Type 0
Filled none c before n = (n ≡ before + c.replicas) ⊎ (n ≡ c.max_pool_size)
Filled (some e) c before n = Unit

spawn_loop-Filled :
    (spawns : Worker → Bool) (prefix : Text) (w : Worker) (now : ℕ) (c : ManagerConfig) (p : Pool)
    → (c.max_pool_size ≡ 0) ⊎ (size p ≤ c.max_pool_size)
    → let (q, e) = spawn_loop spawns prefix w now 0 (spawn_count c (size p)) p in
      ((c.max_pool_size ≡ 0) ⊎ (size q ≤ c.max_pool_size))
      × (size q ≤ size p + c.replicas)
      × Filled e c (size p) (size q)
spawn_loop-Filled spawns prefix w now c p h =
    ground (arith, spawn_loop-size spawns prefix w now 0 (spawn_count c (size p)) p)

-- `SpawnWorkers` never lets a registered pool pass its maximum; with no failure it adds the replicas
-- that are asked for, or fills the pool, and never more than the replicas.
pub spawn_workers-le_max :
    (spawns : Worker → Bool) (prefix : Text) (w : Worker) (now : ℕ) (m : Manager)
    (c : ManagerConfig) (p : Pool)
    → lookup prefix m.configs ≡ some c
    → lookup prefix m.pools ≡ some p
    → (c.max_pool_size ≡ 0) ⊎ (size p ≤ c.max_pool_size)
    → let (m', e) = spawn_workers spawns prefix w now m in
      (q : Pool) × (lookup prefix m'.pools ≡ some q)
      × ((c.max_pool_size ≡ 0) ⊎ (size q ≤ c.max_pool_size))
      × (size q ≤ size p + c.replicas)
      × Filled e c (size p) (size q)
unfolding spawn_workers spawn_in
spawn_workers-le_max spawns prefix w now m c p known there h =
    let q = (spawn_loop spawns prefix w now 0 (spawn_count c (size p)) p).0 in
    let (room, few, full) = spawn_loop-Filled spawns prefix w now c p h in
    rw (known, there)
      (q, rw (lookup-insert prefix prefix q m.pools, str_eq_refl prefix) refl, room, few, full)

size_round :
    (b : Bool) (v : Worker) (now : ℕ) (p : Pool)
    → (size p ≤ size (if b then add_worker v now p else p))
      × (size (if b then add_worker v now p else p) ≤ size p + 1)
size_round true v now p = omega (arith, size-add_worker v now p)
size_round false v now p = omega arith

ensure_loop-size :
    (spawns : Worker → Bool) (prefix : Text) (w : Worker) (stamps : List Text) (now : ℕ) (p : Pool)
    → (size p ≤ size (ensure_loop spawns prefix w stamps now p))
      × (size (ensure_loop spawns prefix w stamps now p) ≤ size p + length stamps)
unfolding ensure_loop
ensure_loop-size spawns prefix w [] now p = omega arith
ensure_loop-size spawns prefix w (stamp ∷ stamps) now p =
    let v = named w (generate_worker_id prefix stamp) in
    let p' = if spawns v then add_worker v now p else p in
    omega (arith, size_round (spawns v) v now p, ensure_loop-size spawns prefix w stamps now p')

length-take-le : (n : ℕ) (xs : List Text) → length (take n xs) ≤ n
length-take-le zero xs = omega arith
length-take-le (suc n) [] = omega arith
length-take-le (suc n) (x ∷ xs) = omega (arith, length-take-le n xs)

-- `ensureReplicas` takes no worker away and never lets a pool grow past its maximum.
pub ensure_replicas-le_max :
    (spawns : Worker → Bool) (prefix : Text) (c : ManagerConfig) (w : Option Worker)
    (stamps : List Text) (now : ℕ) (p : Pool)
    → (c.max_pool_size ≡ 0) ⊎ (size p ≤ c.max_pool_size)
    → let q = ensure_replicas spawns prefix (some c) w stamps now p in
      (size p ≤ size q) × ((c.max_pool_size ≡ 0) ⊎ (size q ≤ c.max_pool_size))
unfolding ensure_replicas
ensure_replicas-le_max spawns prefix c none stamps now p h = (omega arith, h)
ensure_replicas-le_max spawns prefix c (some w) stamps now p h =
    let n = missing_count c (healthy_size p) (size p) in
    let grown = ensure_loop-size spawns prefix w (take n stamps) now p in
    ground (arith, length-take-le n stamps)

-- No worker that the map holds is running.
abbrev pub NoneAlive : Dict WorkerState → Type 0
NoneAlive m = (id : Text) → alive_of (lookup id m) ≡ none

add_worker-NoneAlive :
    (w : Worker) (now : ℕ) (p : Pool)
    → is_alive w ≡ false
    → NoneAlive p.workers
    → NoneAlive (add_worker w now p).workers
unfolding add_worker
add_worker-NoneAlive w now p d h id = ground (
  arith,
  h id,
  lookup-insert w.id id (record { worker = w; active_reqs = pos 0; last_health_check = now })
      p.workers,
)

spawn_loop-NoneAlive :
    (spawns : Worker → Bool) (prefix : Text) (w : Worker) (now i k : ℕ) (p : Pool)
    → is_alive w ≡ false
    → NoneAlive p.workers
    → NoneAlive (spawn_loop spawns prefix w now i k p).0.workers
unfolding spawn_loop
spawn_loop-NoneAlive spawns prefix w now i zero p d h = h
spawn_loop-NoneAlive spawns prefix w now i (suc k) p d h =
    let v = named w (instance_id prefix i) in
    elim (Bool-cases (spawns v)) [
      | inl e ↦ rw e (
          spawn_loop-NoneAlive spawns prefix w now (suc i) k (add_worker v now p) d
            (add_worker-NoneAlive v now p d h))
      | inr e ↦ rw e h
    ]

healthy_of-NoneAlive :
    (ids : List Text) (m : Dict WorkerState) → NoneAlive m → healthy_of ids m ≡ []
unfolding healthy_of
healthy_of-NoneAlive [] m h = refl
healthy_of-NoneAlive (id ∷ ids) m h = rw (h id) (healthy_of-NoneAlive ids m h)

select_worker_none : (p : Pool) → healthy_workers p ≡ [] → select_worker p ≡ (p, no_worker)
unfolding select_worker select_least_loaded select_round_robin
select_worker_none p h = ground arith

-- `SpawnWorkers` puts copies of the base worker in the pool. While that one is not running, as when
-- the service has just created it, none of them can be selected, however many were started.
pub spawn_loop-select_worker :
    (spawns : Worker → Bool) (prefix : Text) (w : Worker) (now i k : ℕ) (p : Pool)
    → is_alive w ≡ false
    → NoneAlive p.workers
    → (select_worker (spawn_loop spawns prefix w now i k p).0).1 ≡ no_worker
spawn_loop-select_worker spawns prefix w now i k p d h =
    let q = (spawn_loop spawns prefix w now i k p).0 in
    let dead =
      healthy_of-NoneAlive q.worker_ids q.workers
        (spawn_loop-NoneAlive spawns prefix w now i k p d h) in
    ap (λ r. r.1) (select_worker_none q dead)
