-- ===== src/Lifecycle/Restarting.antt =====
-- Restarting a worker.
use vyx.Base.{
  ℕ, ◌≡◌, refl, ap, ◌∙◌, inl, inr, Bool, true, ◌&&◌, not, Option, none, some, arith, if◌then◌else◌,
  Text, lookup, lookup-insert, str_eq_refl, Bool-cases,
}
use vyx.Worker.{State, running, restarting, stopped, Worker, spawn_failed}
use vyx.Drainer.{Drainer, drain, mark_draining, is_draining}
use vyx.Lifecycle.{
  Repo, save, Env, Service, ServiceError, worker_error, stop_error, with_found, with_state,
  restart_begun, drain_worker, respawn, reconnect, restart_found, restart_worker,
}
use vyx.Lifecycle.Workers.{Keyed, lookup-save, Rewrites, save-Rewrites}

-- How a restart ends: what the calls outside say, in their order.
abbrev pub Verdict : Type 0
Verdict = State × Option ServiceError

abbrev pub verdict : Bool → Bool → Bool → Bool → Verdict
verdict stops transport registers spawns =
    if not stops
    then (restarting, some stop_error)
    else if transport && not registers
    then (stopped, some (worker_error spawn_failed))
    else if spawns
    then (running, none)
    else (stopped, some (worker_error spawn_failed))

abbrev pub verdict_of : Env → Text → ℕ → Worker → Service → Verdict
verdict_of env id now w s =
    verdict (env.stops id) s.has_transport (env.registers id) (env.spawns (restart_begun now w))

rewritten :
    (id : Text) (u v : Worker) (r : Repo)
    → u.id ≡ id
    → v.id ≡ id
    → Rewrites id v r (save v (save u r))
rewritten id u v r p q j = ground (arith, p, q, lookup-save j v (save u r), lookup-save j u r)

abbrev pub Restarted : Env → Text → ℕ → Worker → Service → Service × Option ServiceError → Type 0
Restarted env id now w s r =
    Rewrites id (with_state (verdict_of env id now w s).0 now (restart_begun now w)) s.repo r.0.repo
    × (r.1 ≡ (verdict_of env id now w s).1)

restart_found_lem :
    (env : Env) (id : Text) (now : ℕ) (w : Worker) (s : Service)
    → w.id ≡ id
    → Restarted env id now w s (restart_found env id w now s)
unfolding restart_found reconnect respawn
restart_found_lem env id now w s p =
    let u = restart_begun now w in
    let one = save-Rewrites id u s.repo p in
    let down = rewritten id u (with_state stopped now u) s.repo p p in
    let up = rewritten id u (with_state running now u) s.repo p p in
    elim (Bool-cases (env.stops id)) [
      | inr a ↦ rw a (one, refl)
      | inl a ↦ elim (Bool-cases s.has_transport) [
        | inl b ↦ elim (Bool-cases (env.registers id)) [
          | inr c ↦ rw (a, b, c) (down, refl)
          | inl c ↦ elim (Bool-cases (env.spawns u)) [
            | inr d ↦ rw (a, b, c, d) (down, refl)
            | inl d ↦ elim (Bool-cases s.has_receiver) [
              | inl e ↦ rw (a, b, c, d, e) (up, refl)
              | inr e ↦ rw (a, b, c, d, e) (up, refl)
            ]
          ]
        ]
        | inr b ↦ elim (Bool-cases (env.spawns u)) [
          | inr d ↦ rw (a, b, d) (down, refl)
          | inl d ↦ elim (Bool-cases s.has_receiver) [
            | inl e ↦ rw (a, b, d, e) (up, refl)
            | inr e ↦ rw (a, b, d, e) (up, refl)
          ]
        ]
      ]
    ]

pub restart_worker_lem :
    (env : Env) (id : Text) (now : ℕ) (w : Worker) (s : Service)
    → Keyed s.repo
    → lookup id s.repo ≡ some w
    → Restarted env id now w s (restart_worker env id now s)
unfolding restart_worker
restart_worker_lem env id now w s k e = rw e (restart_found_lem env id now w s (k id w e))

reconnect-drainer :
    (env : Env) (id : Text) (w : Worker) (now : ℕ) (s : Service)
    → (reconnect env id w now s).0.drainer ≡ s.drainer
unfolding reconnect respawn
reconnect-drainer env id w now s = ground arith

drain-draining : (b : Bool) (id : Text) (d : Drainer) → (drain b id d).0.draining ≡ d.draining
unfolding drain
drain-draining b id d = ground arith

restart_found-drainer :
    (env : Env) (id : Text) (w : Worker) (now : ℕ) (s : Service)
    → (restart_found env id w now s).0.drainer ≡ (drain_worker env id s.drainer).0
unfolding restart_found
restart_found-drainer env id w now s = elim (Bool-cases (env.stops id)) [
  | inr a ↦ rw a
  | inl a ↦ rw a (reconnect-drainer env id _ now _)
]

-- Where there is a drainer, a known worker is marked as draining behind its restart, a successful
-- one included.
pub restart_worker-is_draining :
    (env : Env) (id : Text) (now : ℕ) (w : Worker) (s : Service) (d : Drainer)
    → lookup id s.repo ≡ some w
    → s.drainer ≡ some d
    → (d' : Drainer) × ((restart_worker env id now s).0.drainer ≡ some d')
      × (is_draining id d' ≡ true)
unfolding restart_worker is_draining
restart_worker-is_draining env id now w s d e h =
    let m = mark_draining id d in
    (
      (drain (env.finishes id) id m).0,
      ap (λ o. (with_found (λ v s'. restart_found env id v now s') o s).0.drainer) e
          ∙ restart_found-drainer env id w now s
          ∙ ap (λ o. (drain_worker env id o).0) h,
      rw (drain-draining (env.finishes id) id m)
          (unfold mark_draining in rw (lookup-insert id id true d.draining, str_eq_refl id)),
    )
