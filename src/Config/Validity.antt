-- ===== src/Config/Validity.antt =====
-- Which manifests pass the validation.
use vyx.Base.{
  ℕ, suc, ◌≡◌, ◌≢◌, ◌↔◌, ◌⊎◌, refl, false, List, [], ◌∷◌, ◌++◌, arith, lit, str_eq_iff, is_neg, All,
}
use vyx.Config.{
  WorkerConfig, Config, Problem, validate_project, validate_worker, validate_workers,
  validate_security, validate,
}

-- What the checks ask of one worker.
pub record IsValidWorker (w : WorkerConfig) : Type 0 where
  pub has_id : w.id ≢ []
  pub has_command : w.command ≢ []
  pub replicas_ok : is_neg w.replicas ≡ false
  pub pool_size_ok : is_neg w.pool_size ≡ false
  pub strategy_ok :
      (w.strategy ≡ lit "round-robin") ⊎ ((w.strategy ≡ lit "least-loaded") ⊎ (w.strategy ≡ []))
  pub shutdown_ok : is_neg w.shutdown_timeout ≡ false

pub record IsValidConfig (c : Config) : Type 0 where
  pub named : c.project.name ≢ []
  pub workers_ok : All IsValidWorker c.workers
  pub failures_ok : is_neg c.security.circuit_breaker.failures ≡ false
  pub cooldown_ok : is_neg c.security.circuit_breaker.cooldown ≡ false
  pub half_open_ok : is_neg c.security.circuit_breaker.half_open_max ≡ false

append_nil_left : (ps qs : List Problem) → ps ++ qs ≡ [] → (ps ≡ []) × (qs ≡ [])
append_nil_left [] qs e = (refl, e)
append_nil_left (p ∷ ps) qs e = cc

validate_worker_iff : (w : WorkerConfig) (i : ℕ) → (validate_worker w i ≡ []) ↔ IsValidWorker w
unfolding validate_worker
validate_worker_iff w i =
    let a = str_eq_iff w.id [] in
    let b = str_eq_iff w.command [] in
    let r = str_eq_iff w.strategy (lit "round-robin") in
    let l = str_eq_iff w.strategy (lit "least-loaded") in
    let n = str_eq_iff w.strategy [] in (λ e. ground arith, λ v. ground arith)

validate_workers_iff :
    (ws : List WorkerConfig) (i : ℕ) → (validate_workers ws i ≡ []) ↔ All IsValidWorker ws
unfolding validate_workers
validate_workers_iff [] i = (λ e. tt, λ v. refl)
validate_workers_iff (w ∷ ws) i = (
  λ e.
      let (here, later) = append_nil_left (validate_worker w i) (validate_workers ws (suc i)) e in
      ((validate_worker_iff w i).0 here, (validate_workers_iff ws (suc i)).0 later),
  λ v. rw ((validate_worker_iff w i).1 v.0) ((validate_workers_iff ws (suc i)).1 v.1),
)

-- The validation finds nothing exactly in the manifests with a project name, whose workers have an
-- ID, a command, one of the known strategies or none, and replicas, a pool size and a shutdown
-- timeout that are not negative, and whose three numbers for the circuit breaker are not negative.
pub validate_iff : (c : Config) → (validate c ≡ []) ↔ IsValidConfig c
unfolding validate validate_project validate_security
validate_iff c =
    let p = str_eq_iff c.project.name [] in
    let ws = validate_workers_iff c.workers 0 in
    (
      λ e.
          let (one, rest) =
            append_nil_left (validate_project c.project)
              (validate_workers c.workers 0 ++ validate_security c.security) e in
          let (two, three) =
            append_nil_left (validate_workers c.workers 0) (validate_security c.security) rest in
          record {
            named = ground arith;
            workers_ok = ws.0 two;
            failures_ok = ground arith;
            cooldown_ok = ground arith;
            half_open_ok = ground arith;
          },
      λ v. let w = ws.1 v.workers_ok in ground arith,
    )
