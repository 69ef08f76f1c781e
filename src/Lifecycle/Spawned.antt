-- ===== src/Lifecycle/Spawned.antt =====
-- What the repository has after a worker was spawned.
use Prim.Native.String.{String}
use vyx.Base.{
  ℕ, zero, suc, ◌+◌, ◌≤◌, ◌<◌, ◌==◌, leb, ◌∙◌, subst, Bool, true, false, insert, lookup-insert,
  str_eq_refl, ◌≡◌, refl, arith, ◌⊎◌, inl, inr, Option, none, some, [], ◌∷◌, Text, lookup,
  if◌then◌else◌, ltb, str_eq, Bool-cases,
}
use vyx.Worker.{Worker, State, starting, stopped, invalid_command, spawn_failed}
use vyx.Pool.{Strategy, Pool, new_pool, add_worker}
use vyx.Manager
use vyx.Manager.{
  normalised, named, instance_id, spawn_in, spawn_workers, spawn_loop, register_pool, ManagerConfig,
}
use vyx.Lifecycle.{Env, Service, worker_error, saving, with_state, spawn_single, save, Repo}
use vyx.Lifecycle.Workers.{lookup-save}
use vyx.Lifecycle.Spawning.{
  SpawnWorkerConfig, Settings, provision, Provision, ready, unavailable, faults, worker_of, Spawned,
  refused, without_runtime, faulted, spawned_as, System, ended_pool, ended_single, place,
  provisioned, with_command, spawn_worker_with_replicas,
}

-- The repository has one worker in this state under an ID, and is otherwise as it was.
abbrev pub Stored : Text → State → Repo → Repo → Type 0
Stored id st before after =
    (v : Worker) × (v.id ≡ id)
    × (v.state ≡ st)
    × ((k : Text) → lookup k after ≡ (if str_eq id k then some v else lookup k before))

-- How many processes a spawn asks for: one, or through the pool manager as many as replicas.
abbrev pub processes : Option Manager.Manager → ℕ → ℕ
processes none replicas = 1
processes (some m) replicas = if ltb 1 replicas then replicas else 1

-- The worker that is started has the ID, with a number for a replica behind the first.
abbrev pub starts : Env → Worker → ℕ → Bool
starts env w i = env.spawns (named w (instance_id w.id i))

-- A new worker of this configuration, as the processes are started from it.
abbrev pub IsNew : SpawnWorkerConfig → Text → Worker → Type 0
IsNew c cmd w = (w.id ≡ c.id) × (w.command ≡ cmd) × (w.state ≡ starting)

-- All processes start.
abbrev pub AllStart : Env → Worker → ℕ → Type 0
AllStart env w n = (i : ℕ) → i < n → starts env w i ≡ true

-- One of the processes does not start.
abbrev pub OneFails : Env → Worker → ℕ → Type 0
OneFails env w n = (i : ℕ) × (i < n) × (starts env w i ≡ false)

-- What each way to end says of the command, of the processes and of the repository, where `p` is how
-- the runtime is provided, and `n` the number of the processes.
abbrev pub Accounted : Env → SpawnWorkerConfig → Provision → ℕ → System → System × Spawned → Type 0
Accounted env c p n before (after, spawned_as w) =
    (cmd : Text) × (p ≡ ready cmd)
    × IsNew c cmd w
    × AllStart env w n
    × Stored c.id starting before.0.repo after.0.repo
Accounted env c p n before (after, refused e) =
    ((e ≡ worker_error invalid_command) × (c.command ≡ []) × (after ≡ before))
    ⊎ ((e ≡ worker_error spawn_failed)
        × (cmd : Text) × (p ≡ ready cmd)
        × (w : Worker) × IsNew c cmd w
        × OneFails env w n
        × Stored c.id stopped before.0.repo after.0.repo)
Accounted env c p n before (after, without_runtime e) = (p ≡ unavailable e) × (after ≡ before)
Accounted env c p n before (after, faulted) = (p ≡ faults) × (after ≡ before)

save-Stored : (w : Worker) (r : Repo) → Stored w.id w.state r (save w r)
save-Stored w r = (w, refl, refl, λ k. lookup-save k w r)

save_again-Stored :
    (v w : Worker) (r : Repo) → v.id ≡ w.id → Stored w.id v.state r (save v (save w r))
save_again-Stored v w r e =
    (v, e, refl, λ k. ground (arith, lookup-save k v (save w r), lookup-save k w r, e))

-- How the loop of the pool manager ends, from index `i`.
abbrev Started : (Worker → Bool) → Text → Worker → ℕ → ℕ → Option Manager.Error → Type 0
Started spawns prefix w i k none =
    (j : ℕ) → i ≤ j → j < i + k → spawns (named w (instance_id prefix j)) ≡ true
Started spawns prefix w i k (some e) =
    (j : ℕ) × (j < i + k) × (spawns (named w (instance_id prefix j)) ≡ false)

first-Started :
    (spawns : Worker → Bool) (prefix : Text) (w : Worker) (i k : ℕ) (o : Option Manager.Error)
    → spawns (named w (instance_id prefix i)) ≡ true
    → Started spawns prefix w (suc i) k o
    → Started spawns prefix w i (suc k) o
first-Started spawns prefix w i k none yes' h = λ j l u. elim (Bool-cases (leb (suc i) j)) [
  | inl past ↦ h j (ground arith) (omega arith)
  | inr here ↦
      let same : i ≡ j = ground arith in
      subst (λ x. spawns (named w (instance_id prefix x)) ≡ true) same yes'
]
first-Started spawns prefix w i k (some e) yes' (j, u, no') = (j, omega arith, no')

spawn_loop-Started :
    (spawns : Worker → Bool) (prefix : Text) (w : Worker) (now i k : ℕ) (q : Pool)
    → Started spawns prefix w i k (spawn_loop spawns prefix w now i k q).1
unfolding spawn_loop
spawn_loop-Started spawns prefix w now i zero q = λ j l u. absurd (omega arith)
spawn_loop-Started spawns prefix w now i (suc k) q =
    let v = named w (instance_id prefix i) in
    elim (Bool-cases (spawns v)) [
      | inl e ↦ rw e (
          first-Started spawns prefix w i k
            (spawn_loop spawns prefix w now (suc i) k (add_worker v now q)).1 e
            (spawn_loop-Started spawns prefix w now (suc i) k (add_worker v now q)))
      | inr e ↦ rw e (i, omega arith, e)
    ]

abbrev config_for : ℕ → Strategy → ManagerConfig
config_for replicas strategy = record {
  replicas = replicas;
  strategy = strategy;
  max_pool_size = 0;
}

-- A pool is registered afresh, so that all its replicas are started.
spawn_workers-Started :
    (spawns : Worker → Bool) (prefix : Text) (w : Worker) (now replicas : ℕ) (strategy : Strategy)
    (m : Manager.Manager)
    → 1 < replicas
    → Started spawns prefix w 0 replicas
        (spawn_workers spawns prefix w now
          (register_pool prefix (config_for replicas strategy) m)).1
unfolding spawn_workers spawn_in register_pool
spawn_workers-Started spawns prefix w now replicas strategy m more =
    let c = normalised (config_for replicas strategy) in
    let q = new_pool c.strategy in
    let known : lookup prefix (insert prefix c m.configs) ≡ some c =
      lookup-insert prefix prefix c m.configs ∙ rw (str_eq_refl prefix) refl in
    let there : lookup prefix (insert prefix q m.pools) ≡ some q =
      lookup-insert prefix prefix q m.pools ∙ rw (str_eq_refl prefix) refl in
    let many : (replicas == 0) ≡ false = ground arith in
    rw (known, there, many) (spawn_loop-Started spawns prefix w now 0 replicas q)

ended_pool-Accounted :
    (describe : ℕ → String) (env : Env) (replicas : ℕ) (c : SpawnWorkerConfig) (cmd : Text)
    (now : ℕ) (before : System) (r : Manager.Manager × Option Manager.Error)
    → Started env.spawns c.id (worker_of c cmd now) 0 replicas r.1
    → Accounted env c (ready cmd) replicas before (
        ended_pool describe replicas
          (worker_of c cmd now)
          now
          (saving (worker_of c cmd now) before.0)
          r)
ended_pool-Accounted describe env replicas c cmd now (s, o) (m, none) h =
    let w = worker_of c cmd now in
    (cmd, refl, (refl, refl, refl), λ i l. h i (omega arith) (omega arith), save-Stored w s.repo)
ended_pool-Accounted describe env replicas c cmd now (s, o) (m, some e) (i, l, no') =
    let w = worker_of c cmd now in
    inr (
      refl,
      cmd,
      refl,
      w,
      (refl, refl, refl),
      (i, omega arith, no'),
      save_again-Stored (with_state stopped now w) w s.repo refl,
    )

one_process : (env : Env) (w : Worker) (b : Bool) → env.spawns w ≡ b → starts env w 0 ≡ b
unfolding instance_id
one_process env w b e = e

ended_single-Accounted :
    (env : Env) (c : SpawnWorkerConfig) (cmd : Text) (now : ℕ) (s : Service)
    (m n : Option Manager.Manager)
    → Accounted env c
        (ready cmd)
        1
        (s, n)
        (ended_single (worker_of c cmd now) m (spawn_single env (worker_of c cmd now) now s))
unfolding spawn_single
ended_single-Accounted env c cmd now s m n =
    let w = worker_of c cmd now in
    elim (Bool-cases (env.spawns w)) [
      | inl e ↦ rw e (
        cmd,
        refl,
        (refl, refl, refl),
        λ i l.
            let zero' : 0 ≡ i = omega arith in
            subst (λ x. starts env w x ≡ true) zero' (one_process env w true e),
        save_again-Stored (with_state starting now w) w s.repo refl,
      )
      | inr e ↦ rw e (
          inr (
            refl,
            cmd,
            refl,
            w,
            (refl, refl, refl),
            (0, omega arith, one_process env w false e),
            save_again-Stored (with_state stopped now w) w s.repo refl,
          ))
    ]

place-Accounted :
    (describe : ℕ → String) (env : Env) (replicas : ℕ) (strategy : Strategy) (c : SpawnWorkerConfig)
    (cmd : Text) (now : ℕ) (s : Service) (m : Option Manager.Manager)
    → Accounted env c
        (ready cmd)
        (processes m replicas)
        (s, m)
        (place describe env replicas strategy (worker_of c cmd now) now s m)
place-Accounted describe env replicas strategy c cmd now s none =
    ended_single-Accounted env c cmd now s none none
place-Accounted describe env replicas strategy c cmd now s (some m) =
    elim (Bool-cases (ltb 1 replicas)) [
      | inl e ↦ rw e (
          ended_pool-Accounted describe env replicas c cmd now (s, some m) _
            (spawn_workers-Started env.spawns c.id (worker_of c cmd now) now replicas strategy m
              (ground arith)))
      | inr e ↦ rw e (ended_single-Accounted env c cmd now s (some m) (some m))
    ]

provisioned-Accounted :
    (describe : ℕ → String) (env : Env) (replicas : ℕ) (strategy : Strategy) (c : SpawnWorkerConfig)
    (now : ℕ) (s : System) (p : Provision)
    → Accounted env c p
        (processes s.1 replicas)
        s
        (provisioned describe env replicas strategy c now s p)
provisioned-Accounted describe env replicas strategy c now s faults = (refl, refl)
provisioned-Accounted describe env replicas strategy c now s (unavailable e) = (refl, refl)
provisioned-Accounted describe env replicas strategy c now (s, m) (ready cmd) =
    place-Accounted describe env replicas strategy c cmd now s m

with_command-Accounted :
    (cmd : Text) (env : Env) (c : SpawnWorkerConfig) (p : Provision) (n : ℕ) (s : System)
    (next : System × Spawned)
    → c.command ≡ cmd
    → Accounted env c p n s next
    → Accounted env c p n s (with_command cmd s next)
with_command-Accounted [] env c p n s next e a = inl (refl, e, refl)
with_command-Accounted (b ∷ cmd) env c p n s next e a = a

-- A worker is spawned only if its runtime is provided and each of its processes starts, one alone or
-- one for each replica; it is then in the repository once, under the ID of the configuration, as
-- starting. ErrSpawnFailed means that one of them did not start, and the worker is there as stopped.
-- Without a command or a runtime nothing changes. No other ID in the repository is touched.
pub spawn_worker_with_replicas-Accounted :
    (describe : ℕ → String) (env : Env) (e : Settings) (c : SpawnWorkerConfig) (replicas : ℕ)
    (strategy : Strategy) (now : ℕ) (s : System)
    → Accounted env c
        (provision e c)
        (processes s.1 replicas)
        s
        (spawn_worker_with_replicas describe env e c replicas strategy now s)
unfolding spawn_worker_with_replicas
spawn_worker_with_replicas-Accounted describe env e c replicas strategy now s =
    with_command-Accounted c.command env c (provision e c) (processes s.1 replicas) s _ refl
      (provisioned-Accounted describe env replicas strategy c now s (provision e c))
