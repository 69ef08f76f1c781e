-- ===== src/Examples/Workers.antt =====
-- A service of core/application/lifecycle/service.go with two workers, and the loops that watch
-- them.
use vyx.Base.{
  ℕ, ◌+◌, ◌≡◌, ◌⊎◌, inl, inr, refl, arith, true, false, none, some, List, [], ◌∷◌, ◌++◌, Text, lit,
  lookup, insert, delete, str_eq, str_eq_iff, length, if◌then◌else◌, leb,
}
use vyx.Worker.{Worker, running, unhealthy, stopped, is_alive, not_found}
use vyx.Drainer.{Drainer, drain, mark_draining, cleanup}
use vyx.Lifecycle.{
  save, find_all, Env, Service, worker_error, stop_worker, stop_found, each_alive, stop_all,
}
use vyx.Lifecycle.Workers.{heartbeats, missed, report, Reported, report_lem}
use vyx.Lifecycle.Stopping.{stop_all-is_alive}
use vyx.Heartbeat.{frame, Config, Poll, Received, failure, not_connected, run_loop}
use vyx.Receiver.{Receiver}
use vyx.Heartbeat.Misses.{threshold_ends}

abbrev go_api : Worker
go_api = record {
  id = lit "go:api";
  command = lit "./api";
  args = [];
  work_dir = [];
  runtime_version = [];
  state = running;
  restart_count = 0;
  last_heartbeat = 90;
  created_at = 10;
  updated_at = 90;
  shutdown_timeout = 0;
}

abbrev node_ssr : Worker
node_ssr = record go_api { id = lit "node:ssr"; state = unhealthy }

abbrev drainer : Drainer
drainer = record { inflight = (lit "go:api", 2) ∷ []; draining = [] }

abbrev service : Service
service = record {
  repo = (lit "go:api", go_api) ∷ (lit "node:ssr", node_ssr) ∷ [];
  drainer = some drainer;
  has_transport = true;
  has_receiver = true;
  events = [];
  commands = [];
}

abbrev all_well : Env
all_well = record {
  stops = λ id. true;
  spawns = λ w. true;
  registers = λ id. true;
  finishes = λ id. true;
}

found_keyed : (id : Text) (w : Worker) → lookup id service.repo ≡ some w → w.id ≡ id
unfolding lookup
found_keyed id w e = ground (arith, str_eq_iff (lit "go:api") id, str_eq_iff (lit "node:ssr") id)

report_lem_example :
    ((lookup (lit "node:ssr") service.repo ≡ none)
      × (report heartbeats (lit "node:ssr") 100 service ≡ (service, some (worker_error not_found))))
    ⊎ ((w : Worker) × (lookup (lit "node:ssr") service.repo ≡ some w)
        × Reported heartbeats w
            (lit "node:ssr")
            service
            (report heartbeats (lit "node:ssr") 100 service))
report_lem_example = report_lem heartbeats (lit "node:ssr") 100 service found_keyed

abbrev gone : Worker
gone = record go_api { state = stopped; updated_at = 100 }

found_gone : lookup (lit "go:api") (stop_all all_well 100 service).0.repo ≡ some gone
unfolding stop_all each_alive stop_worker stop_found find_all save insert delete drain mark_draining
    cleanup lookup str_eq
found_gone = refl

stop_all-is_alive_example : is_alive gone ≡ false
stop_all-is_alive_example =
    stop_all-is_alive all_well 100 service (lit "go:api") gone (λ id. refl) found_keyed found_gone

abbrev patience : Config
patience = record {
  interval = 5;
  read_timeout = 0;
  missed_threshold = 2;
  connect_grace = 30;
  retry_interval = 1;
}

abbrev poll : Received → ℕ → Poll
poll r t = record {
  done_before = false;
  done_after = false;
  done_in_pause = false;
  received = r;
  elapsed = t;
}

abbrev silence : List Poll
silence = poll failure 40 ∷ poll not_connected 50 ∷ poll failure 60 ∷ []

threshold_ends_example : run_loop patience (some 0) (silence ++ poll (frame 3) 70 ∷ []) ≡ (
    if leb 2 (0 + length silence)
    then (none, missed ∷ [])
    else run_loop patience (some (0 + length silence)) (poll (frame 3) 70 ∷ []))
threshold_ends_example =
    threshold_ends patience 0 silence (poll (frame 3) 70 ∷ [])
      (
        (refl, refl, inl refl),
        ((refl, refl, inr (refl, omega arith)), ((refl, refl, inl refl), tt)),
      )
      (omega arith)

abbrev reading : Receiver
reading = record {
  running = (lit "go:api", 4) ∷ [];
  loops = (4, lit "go:api") ∷ [];
  cancelled = [];
  next = 7;
}
