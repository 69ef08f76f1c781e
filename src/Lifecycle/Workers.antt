-- ===== src/Lifecycle/Workers.antt =====
-- What the repository holds after the service's reports on a worker.
use vyx.Base.{
  ℕ, ◌≡◌, refl, sym, ◌⊎◌, inl, inr, Option, none, some, arith, if◌then◌else◌, Text, lookup,
  lookup-insert, str_eq, str_eq_iff, Option-cases, Bool-cases,
}
use vyx.Worker.{State, running, unhealthy, Worker, is_running, not_found, record_heartbeat}
use vyx.Lifecycle.{
  Repo, save, Service, ServiceError, worker_error, record_heartbeat_of, mark_unhealthy,
  mark_running, with_state, woken,
}

-- Every worker is stored under its own ID.
abbrev pub Keyed : Repo → Type 0
Keyed r = (id : Text) (w : Worker) → lookup id r ≡ some w → w.id ≡ id

pub lookup-save :
    (j : Text) (w : Worker) (r : Repo)
    → lookup j (save w r) ≡ (if str_eq w.id j then some w else lookup j r)
unfolding save
lookup-save j w r = lookup-insert w.id j w r

pub save-Keyed : (w : Worker) (r : Repo) → Keyed r → Keyed (save w r)
save-Keyed w r k j v e = ground (arith, lookup-save j w r, str_eq_iff w.id j, k j v)

-- The repository after a worker that it held has been written back with other contents.
abbrev pub Rewrites : Text → Worker → Repo → Repo → Type 0
Rewrites id v r r' = (j : Text) → lookup j r' ≡ (if str_eq id j then some v else lookup j r)

pub save-Rewrites : (id : Text) (v : Worker) (r : Repo) → v.id ≡ id → Rewrites id v r (save v r)
save-Rewrites id v r e j = rw (sym e) (lookup-save j v r)

same-Rewrites : (id : Text) (v : Worker) (r : Repo) → lookup id r ≡ some v → Rewrites id v r r
same-Rewrites id v r e j = ground (arith, str_eq_iff id j)

-- The three reports are the moves of one state machine; each move reaches the repository and its
-- own worker only.
pub data Report : Type 0 where
  heartbeats missed shakes_hands : Report

abbrev pub report : Report → Text → ℕ → Service → Service × Option ServiceError
report heartbeats id now s = record_heartbeat_of id now s
report missed id now s = mark_unhealthy id now s
report shakes_hands id now s = mark_running id now s

-- A heartbeat wakes an unhealthy worker and no other; a missed one makes any worker unhealthy; a
-- handshake makes any worker run.
abbrev pub next_state : Report → State → State
next_state heartbeats unhealthy = running
next_state heartbeats s = s
next_state missed s = unhealthy
next_state shakes_hands s = running

abbrev pub Reported : Report → Worker → Text → Service → Service × Option ServiceError → Type 0
Reported c w id s r =
    (v : Worker) × Rewrites id v s.repo r.0.repo
    × (v.state ≡ next_state c w.state)
    × (v.restart_count ≡ w.restart_count)
    × (r.1 ≡ none)

report_found :
    (c : Report) (id : Text) (now : ℕ) (s : Service) (w : Worker)
    → w.id ≡ id
    → lookup id s.repo ≡ some w
    → Reported c w id s (report c id now s)
unfolding record_heartbeat_of mark_unhealthy mark_running record_heartbeat
report_found heartbeats id now s w i e = rw e (
  record_heartbeat now w,
  save-Rewrites id (record_heartbeat now w) s.repo i,
  ground arith,
  refl,
  refl,
)
report_found missed id now s w i e = rw e (
  with_state unhealthy now w,
  save-Rewrites id (with_state unhealthy now w) s.repo i,
  refl,
  refl,
  refl,
)
report_found shakes_hands id now s w i e = elim (Bool-cases (is_running w.state)) [
  | inl up ↦ rw (e, up) (w, same-Rewrites id w s.repo e, ground arith, refl, refl)
  | inr down ↦ rw (e, down) (woken now w, save-Rewrites id (woken now w) s.repo i, refl, refl, refl)
]

report_missing :
    (c : Report) (id : Text) (now : ℕ) (s : Service)
    → lookup id s.repo ≡ none
    → report c id now s ≡ (s, some (worker_error not_found))
unfolding record_heartbeat_of mark_unhealthy mark_running
report_missing heartbeats id now s e = rw e
report_missing missed id now s e = rw e
report_missing shakes_hands id now s e = rw e

-- A report on a known worker succeeds and moves its state as the machine says; the count of its
-- restarts and all other workers stay. A report on an unknown one fails and changes nothing.
pub report_lem :
    (c : Report) (id : Text) (now : ℕ) (s : Service)
    → Keyed s.repo
    → ((lookup id s.repo ≡ none) × (report c id now s ≡ (s, some (worker_error not_found))))
      ⊎ ((w : Worker) × (lookup id s.repo ≡ some w) × Reported c w id s (report c id now s))
report_lem c id now s k = elim (Option-cases (lookup id s.repo)) [
  | inl e ↦ inl (e, report_missing c id now s e)
  | inr (w, e) ↦ inr (w, e, report_found c id now s w (k id w e) e)
]
