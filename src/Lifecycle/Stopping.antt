-- ===== src/Lifecycle/Stopping.antt =====
-- Stopping a worker, and all of them.
use vyx.Base.{
  ℕ, ◌≡◌, refl, ap, ◌∙◌, sym, ◌⊎◌, inl, inr, true, false, Option, none, some, arith, if◌then◌else◌,
  Text, lookup, lookup-delete, str_eq, str_eq_iff, str_eq_refl, Option-cases, Bool-cases, List, [],
  ◌∷◌, Any,
}
use vyx.Worker.{stopped, Worker, not_found, is_alive}
use vyx.Drainer.{Drainer, is_draining, in_flight, cleanup}
use vyx.Lifecycle.{
  Repo, save, find_all, Env, Service, ServiceError, worker_error, stop_error, with_state,
  drain_worker, cleaned, stop_found, stop_worker, stop_all, each_alive, visit, later,
}
use vyx.Lifecycle.Workers.{Keyed, lookup-save, save-Keyed}

-- A stop ends in one of two ways.
abbrev pub Stopped : Env → Text → ℕ → Worker → Service → Service × Option ServiceError → Type 0
Stopped env id now w s r =
    ((env.stops id ≡ true)
      × (r.1 ≡ none)
      × (r.0.repo ≡ save (with_state stopped now w) s.repo)
      × (r.0.drainer ≡ cleaned id (drain_worker env id s.drainer).0))
    ⊎ ((env.stops id ≡ false) × (r.1 ≡ some stop_error) × (r.0.repo ≡ s.repo))

stop_found_lem :
    (env : Env) (id : Text) (now : ℕ) (w : Worker) (s : Service)
    → Stopped env id now w s (stop_found env id w now s)
unfolding stop_found
stop_found_lem env id now w s = elim (Bool-cases (drain_worker env id s.drainer).1) [
  | inl a ↦ elim (Bool-cases (env.stops id)) [
    | inl b ↦ rw (b, a) (inl (refl, refl, refl, refl))
    | inr b ↦ rw (b, a) (inr (refl, refl, refl))
  ]
  | inr a ↦ elim (Bool-cases (env.stops id)) [
    | inl b ↦ rw (b, a) (inl (refl, refl, refl, refl))
    | inr b ↦ rw (b, a) (inr (refl, refl, refl))
  ]
]

-- A stop of a known worker stores it as stopped, and forgets its requests and its mark, if its
-- process stops; otherwise it returns an error and stores nothing.
pub stop_worker_lem :
    (env : Env) (id : Text) (now : ℕ) (w : Worker) (s : Service)
    → lookup id s.repo ≡ some w
    → Stopped env id now w s (stop_worker env id now s)
unfolding stop_worker
stop_worker_lem env id now w s e = rw e (stop_found_lem env id now w s)

pub cleanup_lem :
    (id : Text) (d : Drainer)
    → (is_draining id (cleanup id d) ≡ false) × (in_flight id (cleanup id d) ≡ 0)
unfolding cleanup is_draining
cleanup_lem id d = (
  rw (lookup-delete id id d.draining, str_eq_refl id),
  rw (lookup-delete id id d.inflight, str_eq_refl id),
)

stop_missing :
    (env : Env) (id : Text) (now : ℕ) (s : Service)
    → lookup id s.repo ≡ none
    → stop_worker env id now s ≡ (s, some (worker_error not_found))
unfolding stop_worker
stop_missing env id now s e = rw e

abbrev pub AllStop : Env → Type 0
AllStop env = (id : Text) → env.stops id ≡ true

-- Who is alive behind a stop was alive before, and is another worker.
abbrev Survives : Text → Repo → Repo → Type 0
Survives id r r' =
    (j : Text) (w : Worker)
    → lookup j r' ≡ some w
    → is_alive w ≡ true
    → (lookup j r ≡ some w) × (str_eq id j ≡ false)

Survives-save :
    (id : Text) (w : Worker) (now : ℕ) (r : Repo)
    → w.id ≡ id
    → Survives id r (save (with_state stopped now w) r)
Survives-save id w now r i j v e alive =
    let u = with_state stopped now w in
    elim (Bool-cases (str_eq id j)) [
      | inl same ↦
          cc (ap (λ o. o) (sym e ∙ lookup-save j u r ∙ here j same), stopped_dead now w, alive)
      | inr other ↦ (ground (arith, lookup-save j u r), other)
    ]
  where
    here :
        (k : Text)
        → str_eq id k ≡ true
        → (if str_eq w.id k then some (with_state stopped now w) else lookup k r)
          ≡ some (with_state stopped now w)
    here k same = ground arith

    stopped_dead : (n : ℕ) (x : Worker) → is_alive (with_state stopped n x) ≡ false
    stopped_dead n x = refl

stop_step :
    (env : Env) (id : Text) (now : ℕ) (s : Service)
    → AllStop env
    → Keyed s.repo
    → Survives id s.repo (stop_worker env id now s).0.repo × Keyed (stop_worker env id now s).0.repo
stop_step env id now s all k = elim (Option-cases (lookup id s.repo)) [
  | inl e ↦
      rw (stop_missing env id now s e) ((λ j w f alive. (f, ground (arith, str_eq_iff id j))), k)
  | inr (w, e) ↦ elim (stop_worker_lem env id now w s e) [
    | inr (no_stop, err, same) ↦ cc (all id, no_stop)
    | inl (stops, fine, repo, d) ↦
        rw repo
          (Survives-save id w now s.repo (k id w e), save-Keyed (with_state stopped now w) s.repo k)
  ]
]

-- Every worker that is alive is still to come in the loop.
abbrev Covers : List Worker → Repo → Type 0
Covers ws r =
    (j : Text) (w : Worker)
    → lookup j r ≡ some w
    → is_alive w ≡ true
    → Any (λ v. (v.id ≡ j) × (is_alive v ≡ true)) ws

abbrev NoneLives : Repo → Type 0
NoneLives r = (j : Text) (w : Worker) → lookup j r ≡ some w → is_alive w ≡ false

Covers-step :
    (v : Worker) (vs : List Worker) (r r' : Repo)
    → Covers (v ∷ vs) r
    → Survives v.id r r'
    → Covers vs r'
Covers-step v vs r r' c s j w e alive =
    let (before, other) = s j w e alive in
    elim (c j w before alive) [
      | inl (same, a) ↦ cc (other, (str_eq_iff v.id j).1 same)
      | inr rest ↦ rest
    ]

Covers-dead :
    (v : Worker) (vs : List Worker) (r : Repo)
    → is_alive v ≡ false
    → Covers (v ∷ vs) r
    → Covers vs r
Covers-dead v vs r d c j w e alive = elim (c j w e alive) [
  | inl (same, a) ↦ cc (d, a)
  | inr rest ↦ rest
]

visit-Covers :
    (env : Env) (now : ℕ) (v : Worker) (vs : List Worker) (s : Service)
    → AllStop env
    → Keyed s.repo
    → Covers (v ∷ vs) s.repo
    → Keyed (visit (λ id. stop_worker env id now) v s).0.repo
      × Covers vs (visit (λ id. stop_worker env id now) v s).0.repo
visit-Covers env now v vs s all k c = elim (Bool-cases (is_alive v)) [
  | inl a ↦
      let (gone, keyed) = stop_step env v.id now s all k in
      rw a (keyed, Covers-step v vs s.repo (stop_worker env v.id now s).0.repo c gone)
  | inr d ↦ rw d (k, Covers-dead v vs s.repo d c)
]

each_alive-NoneLives :
    (env : Env) (now : ℕ) (ws : List Worker) (last : Option ServiceError) (s : Service)
    → AllStop env
    → Keyed s.repo
    → Covers ws s.repo
    → NoneLives (each_alive (λ id. stop_worker env id now) ws last s).0.repo
unfolding each_alive
each_alive-NoneLives env now [] last s all k c =
    λ j w e. elim (Bool-cases (is_alive w)) [ inr dead ↦ dead | inl alive ↦ absurd (c j w e alive) ]
each_alive-NoneLives env now (v ∷ vs) last s all k c =
    let r = visit (λ id. stop_worker env id now) v s in
    let (keyed, covers) = visit-Covers env now v vs s all k c in
    each_alive-NoneLives env now vs (later r.1 last) r.0 all keyed covers

find_all_member :
    (r : Repo) (j : Text) (w : Worker)
    → w.id ≡ j
    → is_alive w ≡ true
    → lookup j r ≡ some w
    → Any (λ v. (v.id ≡ j) × (is_alive v ≡ true)) (find_all r)
unfolding find_all lookup
find_all_member [] j w i alive e = cc
find_all_member ((id, v) ∷ r) j w i alive e = elim (Bool-cases (str_eq id j)) [
  | inl here ↦
      let hit : some v ≡ some w = rw here at e in
      let same : v ≡ w = cc in inl (rw same i, rw same alive)
  | inr there ↦ inr (find_all_member r j w i alive (rw there at e))
]

find_all-Covers : (r : Repo) → Keyed r → Covers (find_all r) r
find_all-Covers r k j w e alive = find_all_member r j w (k j w e) alive e

-- When every process stops, no worker that the repository holds after `StopAll` is alive.
pub stop_all-is_alive :
    (env : Env) (now : ℕ) (s : Service) (j : Text) (w : Worker)
    → AllStop env
    → Keyed s.repo
    → lookup j (stop_all env now s).0.repo ≡ some w
    → is_alive w ≡ false
unfolding stop_all
stop_all-is_alive env now s j w all k e =
    each_alive-NoneLives env now (find_all s.repo) none s all k (find_all-Covers s.repo k) j w e
