-- ===== src/Pool/Members.antt =====
-- The two halves of a pool, the list of IDs and the map of workers, and how they stay in step.
use vyx.Base.{
  ℕ, ◌+◌, ◌≡◌, refl, Bool, true, false, ◌||◌, List, [], ◌∷◌, ◌++◌, none, arith, if◌then◌else◌, Text,
  Dict, lookup, insert, lookup-insert, lookup-delete, length, length-append, is_some, str_eq,
  str_eq_iff, str_eq_refl, inl, inr, Option-cases, pos, ℤ,
}
use vyx.Worker.{Worker, is_alive}
use vyx.Pool.{
  WorkerState, Pool, Strategy, new_pool, add_worker, remove_first, remove_worker, update_worker,
  add_active, workers_of, healthy_of, get_workers, count_alive, size, worker_of, prepend_some,
}

unfoldable pub contains : Text → List Text → Bool
contains id [] = false
contains id (x ∷ xs) = str_eq x id || contains id xs

abbrev pub Distinct : List Text → Type 0
Distinct [] = Unit
Distinct (x ∷ xs) = (contains x xs ≡ false) × Distinct xs

-- The IDs are listed once each, and they are those of the map.
pub record Consistent (p : Pool) : Type 0 where
  pub distinct : Distinct p.worker_ids
  pub listed : (id : Text) → is_some (lookup id p.workers) ≡ contains id p.worker_ids

pub new_pool-Consistent : (s : Strategy) → Consistent (new_pool s)
unfolding new_pool contains lookup
new_pool-Consistent s = record { distinct = tt; listed = λ id. refl }

pub contains-append :
    (id x : Text) (xs : List Text) → contains id (xs ++ x ∷ []) ≡ contains id xs || str_eq x id
unfolding contains
contains-append id x [] = ground arith
contains-append id x (y ∷ ys) = ground (arith, contains-append id x ys)

pub Distinct-append :
    (x : Text) (xs : List Text) → Distinct xs → contains x xs ≡ false → Distinct (xs ++ x ∷ [])
unfolding contains
Distinct-append x [] d n = (refl, tt)
Distinct-append x (y ∷ ys) d n = (
  ground (arith, contains-append y x ys, str_eq_iff x y, str_eq_iff y x),
  Distinct-append x ys d.1 (ground arith),
)

-- A worker with a new ID joins a pool and keeps it consistent.
pub add_worker-Consistent :
    (w : Worker) (now : ℕ) (p : Pool)
    → Consistent p
    → contains w.id p.worker_ids ≡ false
    → Consistent (add_worker w now p)
unfolding add_worker
add_worker-Consistent w now p c n = record {
  distinct = Distinct-append w.id p.worker_ids c.distinct n;
  listed = λ id. ground (
    arith,
    c.listed id,
    contains-append id w.id p.worker_ids,
    lookup-insert w.id id (record { worker = w; active_reqs = pos 0; last_health_check = now })
        p.workers,
  );
}

pub contains-remove_first :
    (id j : Text) (xs : List Text)
    → Distinct xs
    → contains j (remove_first id xs) ≡ (if str_eq id j then false else contains j xs)
unfolding contains remove_first
contains-remove_first id j [] d = ground arith
contains-remove_first id j (x ∷ xs) d =
    ground (arith, contains-remove_first id j xs, str_eq_iff id j, str_eq_iff x id, str_eq_iff x j)

pub remove_first-Distinct :
    (id : Text) (xs : List Text) → Distinct xs → Distinct (remove_first id xs)
unfolding remove_first
remove_first-Distinct id [] d = tt
remove_first-Distinct id (x ∷ xs) d = ground (
  arith,
  remove_first-Distinct id xs,
  contains-remove_first id x xs,
  str_eq_iff x id,
  str_eq_iff id x,
)

-- The removal of an ID, known or not, keeps a consistent pool consistent: its IDs are distinct, and
-- they are those of the workers it holds.
pub remove_worker-Consistent :
    (id : Text) (now : ℕ) (p : Pool) → Consistent p → Consistent (remove_worker id now p)
unfolding remove_worker
remove_worker-Consistent id now p c = record {
  distinct = remove_first-Distinct id p.worker_ids c.distinct;
  listed = λ j. ground (
    arith,
    c.listed j,
    lookup-delete id j p.workers,
    contains-remove_first id j p.worker_ids c.distinct,
  );
}

-- A write to a known worker, which both updates make, does not touch the IDs.
rewrite-Consistent :
    (id : Text) (ws : WorkerState) (p : Pool) (now : ℕ)
    → Consistent p
    → is_some (lookup id p.workers) ≡ true
    → Consistent (record p { workers = insert id ws p.workers; last_updated = now })
rewrite-Consistent id ws p now c known = record {
  distinct = c.distinct;
  listed = λ j. ground (arith, c.listed j, lookup-insert id j ws p.workers, str_eq_iff id j);
}

pub update_worker-Consistent :
    (w : Worker) (now : ℕ) (p : Pool) → Consistent p → Consistent (update_worker w now p)
unfolding update_worker
update_worker-Consistent w now p c = elim (Option-cases (lookup w.id p.workers)) [
  | inl e ↦ rw (e, update_worker) (record { distinct = c.distinct; listed = c.listed })
  | inr (ws, e) ↦ rw (e, update_worker) (rewrite-Consistent w.id _ p now c (ground arith))
]

pub add_active-Consistent :
    (f : ℤ → ℤ) (id : Text) (p : Pool) → Consistent p → Consistent (add_active f id p)
unfolding add_active
add_active-Consistent f id p c = elim (Option-cases (lookup id p.workers)) [
  | inl e ↦ rw (e, add_active) c
  | inr (ws, e) ↦ rw (e, add_active) (rewrite-Consistent id _ p p.last_updated c (ground arith))
]

workers_of-insert_new :
    (id : Text) (ws : WorkerState) (ids : List Text) (m : Dict WorkerState)
    → contains id ids ≡ false
    → workers_of ids (insert id ws m) ≡ workers_of ids m
unfolding contains workers_of
workers_of-insert_new id ws [] m n = refl
workers_of-insert_new id ws (x ∷ xs) m n = ground (
  arith,
  workers_of-insert_new id ws xs m,
  lookup-insert id x ws m,
  str_eq_iff id x,
  str_eq_iff x id,
)

workers_of-append :
    (x : Text) (ids : List Text) (m : Dict WorkerState)
    → workers_of (ids ++ x ∷ []) m ≡ workers_of ids m ++ prepend_some (worker_of (lookup x m)) []
unfolding workers_of
workers_of-append x [] m = refl
workers_of-append x (y ∷ ys) m = ground (arith, workers_of-append x ys m)

-- A worker with a new ID is listed last, behind the workers that were there, and is counted.
pub get_workers-add_worker :
    (w : Worker) (now : ℕ) (p : Pool)
    → contains w.id p.worker_ids ≡ false
    → (get_workers (add_worker w now p) ≡ get_workers p ++ w ∷ [])
      × (size (add_worker w now p) ≡ size p + 1)
unfolding add_worker
get_workers-add_worker w now p n =
    let ws : WorkerState = record { worker = w; active_reqs = pos 0; last_health_check = now } in
    (
      ground (
        arith,
        workers_of-append w.id p.worker_ids (insert w.id ws p.workers),
        workers_of-insert_new w.id ws p.worker_ids p.workers n,
        lookup-insert w.id w.id ws p.workers,
        str_eq_refl w.id,
      ),
      omega (arith, length-append p.worker_ids (w.id ∷ [])),
    )

remove_first-append :
    (id : Text) (xs : List Text)
    → contains id xs ≡ true
    → remove_first id (xs ++ id ∷ []) ≡ remove_first id xs ++ id ∷ []
unfolding contains remove_first
remove_first-append id [] k = cc
remove_first-append id (x ∷ xs) k = ground (arith, remove_first-append id xs)

length-remove_first :
    (id : Text) (xs : List Text)
    → contains id xs ≡ true
    → length (remove_first id xs) + 1 ≡ length xs
unfolding contains remove_first
length-remove_first id [] k = cc
length-remove_first id (x ∷ xs) k = ground (arith, length-remove_first id xs)

-- Two calls of `AddWorker` with one ID list it twice, for one worker; a later `RemoveWorker` takes
-- the worker away and leaves the ID, which `Size` still counts.
pub remove_worker-add_worker_twice :
    (w : Worker) (now : ℕ) (p : Pool)
    → contains w.id p.worker_ids ≡ true
    → (contains w.id (remove_worker w.id now (add_worker w now p)).worker_ids ≡ true)
      × (lookup w.id (remove_worker w.id now (add_worker w now p)).workers ≡ none)
      × (size (remove_worker w.id now (add_worker w now p)) ≡ size p)
unfolding add_worker remove_worker
remove_worker-add_worker_twice w now p known =
    let ws : WorkerState = record { worker = w; active_reqs = pos 0; last_health_check = now } in
    let moved = remove_first-append w.id p.worker_ids known in
    (
      rw moved (
          ground
            (arith, contains-append w.id w.id (remove_first w.id p.worker_ids), str_eq_refl w.id)),
      rw (lookup-delete w.id w.id (insert w.id ws p.workers), str_eq_refl w.id),
      rw moved (
          omega (
            arith,
            length-append (remove_first w.id p.worker_ids) (w.id ∷ []),
            length-remove_first w.id p.worker_ids known,
          )),
    )

-- `HealthyWorkers` and `HealthySize` are the running ones of `GetWorkers`, in its order.
abbrev pub running_of : List Worker → List Worker
running_of [] = []
running_of (w ∷ ws) = if is_alive w then w ∷ running_of ws else running_of ws

pub healthy_of-running_of :
    (ids : List Text) (m : Dict WorkerState)
    → (healthy_of ids m ≡ running_of (workers_of ids m))
      × (count_alive ids m ≡ length (healthy_of ids m))
unfolding healthy_of workers_of count_alive
healthy_of-running_of [] m = (refl, refl)
healthy_of-running_of (id ∷ ids) m = ground (arith, healthy_of-running_of ids m)
