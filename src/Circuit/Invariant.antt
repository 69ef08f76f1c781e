-- ===== src/Circuit/Invariant.antt =====
-- What holds of a breaker between two calls, and which changes of state a call makes.
use Prim.Native.String.{String}
use vyx.Base.{ℕ, ◌≤◌, ◌<◌, ◌≡◌, refl, Bool, List, [], ◌∷◌, Option, none, some, arith, if◌then◌else◌}
use vyx.Circuit.{
  State, closed, open_, half_open, StateChange, Config, Breaker, new, Call, allows, succeeds, fails,
  step, run,
}

-- A closed breaker has counted fewer failures than its threshold.
abbrev pub Below : State → ℕ → ℕ → Type 0
Below closed n threshold = n < threshold
Below open_ n threshold = Unit
Below half_open n threshold = Unit

pub record Inv (b : Breaker) : Type 0 where
  pub threshold_set : 0 < b.config.failures
  pub cooldown_set : 0 < b.config.cooldown
  pub probes_set : 0 < b.config.half_open_max
  pub closed_below : Below b.state b.failures b.config.failures
  pub probes_capped : b.half_open_probes ≤ b.config.half_open_max

pub new-Inv : (c : Config) (o : Bool) → Inv (new c o)
unfolding new
new-Inv c o = ground arith

pub step-Inv : (b : Breaker) (c : ℕ × Call) → Inv b → Inv (step b c)
unfolding step
step-Inv b (now, allows) v = ground arith
step-Inv b (now, succeeds) v = ground arith
step-Inv b (now, fails) v = ground arith

run-Inv : (b : Breaker) (cs : List (ℕ × Call)) → Inv b → Inv (run b cs)
unfolding run
run-Inv b [] v = v
run-Inv b (c ∷ cs) v = run-Inv (step b c) cs (step-Inv b c v)

-- After any calls at any times on a new breaker: the three limits are positive, a closed breaker
-- has counted fewer failures than its threshold, and no more probes are counted than the limit.
pub run-new-Inv : (c : Config) (o : Bool) (cs : List (ℕ × Call)) → Inv (run (new c o) cs)
run-new-Inv c o cs = run-Inv (new c o) cs (new-Inv c o)

-- The transition diagram, with the reason that goes with each edge.
abbrev pub edge : State → State → Option String
edge closed open_ = some "consecutive failures"
edge open_ half_open = some "cooldown expired"
edge half_open closed = some "probe succeeded"
edge half_open open_ = some "half-open probe failed"
edge _ _ = none

abbrev pub reported : ℕ → Breaker → State → String → List StateChange
reported now b to reason =
    if b.observed
    then record { from = b.state; to = to; reason = reason; route_id = b.route_id; time = now }
      ∷ b.changes
    else b.changes

-- The states are those of an edge, which is reported with its reason, this time and this route; or
-- they are the same, and nothing is reported.
abbrev pub Follows : ℕ → Breaker → Breaker → Type 0
Follows now b c = elim (edge b.state c.state) [
  | some reason ↦ c.changes ≡ reported now b c.state reason
  | none ↦ (c.state ≡ b.state) × (c.changes ≡ b.changes)
]

by_state :
    (b : Breaker) (now : ℕ) (c : Call) (s : State) → b.state ≡ s → Follows now b (step b (now, c))
unfolding step
by_state b now allows s h = ground arith
by_state b now succeeds s h = ground arith
by_state b now fails s h = ground arith

-- Every call leaves state and reports alone, or follows one edge of the diagram and reports that
-- edge once, if an observer is set.
pub step-Follows : (b : Breaker) (now : ℕ) (c : Call) → Follows now b (step b (now, c))
unfolding step
step-Follows b now c = by_state b now c b.state refl
