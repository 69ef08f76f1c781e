-- ===== src/Examples/Circuits.antt =====
-- A breaker of core/domain/circuit/breaker.go that opens at its third failure.
use vyx.Base.{ℕ, true, List, [], ◌∷◌, lit}
use vyx.Circuit.{closed, open_, Config, Breaker, new, Call, allows, succeeds, fails, step, run}
use vyx.Circuit.Invariant.{Inv, run-new-Inv, Follows, step-Follows}

abbrev limits : Config
limits = record { failures = 3; cooldown = 100; half_open_max = 2 }

abbrev traffic : List (ℕ × Call)
traffic = (1, allows) ∷ (2, fails) ∷ (3, fails) ∷ (4, fails) ∷ (200, allows) ∷ (201, succeeds) ∷ []

run-new-Inv_example : Inv (run (new limits true) traffic)
run-new-Inv_example = run-new-Inv limits true traffic

abbrev failing : Breaker
failing = record {
  failures = 1;
  state = closed;
  last_failure = 7;
  opened_at = 0;
  half_open_probes = 0;
  route_id = lit "GET /users";
  config = limits;
  observed = true;
  changes = [];
}

abbrev opened : Breaker
opened = record failing { failures = 3; state = open_; opened_at = 10 }

step-Follows_example : Follows 200 opened (step opened (200, allows))
step-Follows_example = step-Follows opened 200 allows
