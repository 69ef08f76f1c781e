-- ===== src/Process/Stopping.antt =====
-- Stopping and restarting a worker whose process has exited by itself.
use vyx.Base.{
  ℕ, ◌≡◌, refl, ap, ◌∙◌, arith, Bool, false, Option, none, some, Text, lookup, str_eq_refl, is_some,
  not,
}
use vyx.Worker.{Worker, restarting}
use vyx.Process
use vyx.Process.{
  Os, ManagerError, of_worker, signal_failed, stop, stop_found, stop_process, waited, forgotten,
}
use vyx.Lifecycle.{Env, Service, stop_error, restart_worker, with_state, restart_begun}
use vyx.Lifecycle.Workers.{Keyed}
use vyx.Lifecycle.Restarting.{restart_worker_lem, verdict_of}

-- The process is gone: it has no group, and a signal to it fails.
pub record Exited (os : Os) (pid : ℕ) : Type 0 where
  pub no_group : os.getpgid pid ≡ none
  pub no_signal : os.signal pid ≡ false

pub stop_refused :
    (os : Os) (id : Text) (pid : ℕ) (m : Process.Manager)
    → lookup id m.processes ≡ some pid
    → Exited os pid
    → stop os id m ≡ (some signal_failed, m)
unfolding stop stop_process
stop_refused os id pid m e x = rw (stop, e, stop_process, x.no_group, x.no_signal) refl

abbrev pub succeeds : Option ManagerError × Process.Manager → Bool
succeeds (e, m) = not (is_some e)

-- Where the lifecycle service stops workers by this manager, the restart of a worker whose process
-- has exited ends with the error of the stop: the worker is left restarting, the process is still
-- known, and so the next restart ends alike.
pub restart_worker_refused :
    (os : Os) (m : Process.Manager) (env : Env) (id : Text) (pid now : ℕ) (w : Worker) (s : Service)
    → Keyed s.repo
    → lookup id s.repo ≡ some w
    → lookup id m.processes ≡ some pid
    → Exited os pid
    → env.stops id ≡ succeeds (stop os id m)
    → ((restart_worker env id now s).1 ≡ some stop_error)
      × ((stop os id m).1 ≡ m)
      × ((v : Worker) × (lookup id (restart_worker env id now s).0.repo ≡ some v)
          × (v.state ≡ restarting))
restart_worker_refused os m env id pid now w s k e p x by =
    let same = stop_refused os id pid m p x in
    let fails : env.stops id ≡ false = by ∙ ap succeeds same in
    let (kept, ends) = restart_worker_lem env id now w s k e in
    let v = with_state (verdict_of env id now w s).0 now (restart_begun now w) in
    let is_restarting : (verdict_of env id now w s).0 ≡ restarting = rw fails refl in
    (
      ends ∙ rw fails refl,
      ap (λ r. r.1) same,
      (v, ground (arith, kept id, str_eq_refl id), is_restarting),
    )
