-- ===== src/Circuit.antt =====
-- The circuit breaker of core/domain/circuit/breaker.go. A method on `*Breaker` returns the new
-- record. `now` is what `time.Now()` reads during the call, in nanoseconds; `failures` counts up by
-- one at a time and is left without the wrap-around of Go's 64-bit `int`. The limits of a `Config` are
-- not negative, as the validation of the manifest asks.
pub mod Registry
pub mod Invariant
pub mod Cooldown
pub mod Probes
use vyx.Base.{
  ℕ, suc, ◌+◌, ◌-◌, ◌*◌, Bool, true, false, List, [], ◌∷◌, if◌then◌else◌, leb, ltb, ◌==◌, Text,
}
use Prim.Native.String.{String}

pub data State : Type 0 where
  closed open_ half_open : State

-- `State.String`; a Go `State` has other values, which no code of the package makes.
unfoldable pub state_string : State → String
state_string closed = "closed"
state_string open_ = "open"
state_string half_open = "half-open"

pub record StateChange : Type 0 where
  pub from : State
  pub to : State
  pub reason : String
  pub route_id : Text
  pub time : ℕ

pub record Config : Type 0 where
  pub failures : ℕ
  pub cooldown : ℕ
  pub half_open_max : ℕ

-- `observed` says whether `onStateChange` is set, and `changes` holds its calls, the latest first.
pub record Breaker : Type 0 where
  pub failures : ℕ
  pub state : State
  pub last_failure : ℕ
  pub opened_at : ℕ
  pub half_open_probes : ℕ
  pub route_id : Text
  pub config : Config
  pub observed : Bool
  pub changes : List StateChange

abbrev pub second : ℕ
second = 1000000000

abbrev pub with_defaults : Config → Config
with_defaults c = record {
  failures = if c.failures == 0 then 5 else c.failures;
  cooldown = if c.cooldown == 0 then 30 * second else c.cooldown;
  half_open_max = if c.half_open_max == 0 then 1 else c.half_open_max;
}

unfoldable pub new : Config → Bool → Breaker
new c observed = record {
  failures = 0;
  state = closed;
  last_failure = 0;
  opened_at = 0;
  half_open_probes = 0;
  route_id = [];
  config = with_defaults c;
  observed = observed;
  changes = [];
}

unfoldable pub set_route_id : Text → Breaker → Breaker
set_route_id r b = record b { route_id = r }

emit : State → State → String → ℕ → Breaker → Breaker
emit from to reason now b = if b.observed then record b { changes = change ∷ b.changes } else b
  where
    change : StateChange
    change = record { from = from; to = to; reason = reason; route_id = b.route_id; time = now }

success_in : State → ℕ → Breaker → Breaker
unfolding emit
success_in half_open now b =
    emit half_open closed "probe succeeded" now
      (record b { state = closed; failures = 0; half_open_probes = 0 })
success_in closed now b = record b { failures = 0 }
success_in open_ now b = b

unfoldable pub record_success : ℕ → Breaker → Breaker
unfolding success_in
record_success now b = success_in b.state now b

failure_in : State → ℕ → Breaker → Breaker
unfolding emit
failure_in closed now b =
    if leb b.config.failures b.failures
    then emit closed open_ "consecutive failures" now (record b { state = open_; opened_at = now })
    else b
failure_in half_open now b =
    emit half_open open_ "half-open probe failed" now
      (record b { state = open_; half_open_probes = 0 })
failure_in open_ now b = b

unfoldable pub record_failure : ℕ → Breaker → Breaker
unfolding failure_in
record_failure now b =
    failure_in b.state now (record b { failures = b.failures + 1; last_failure = now })

-- `time.Since(b.openedAt) >= b.config.Cooldown`. A clock behind `openedAt` gives a negative
-- duration in Go and 0 here; neither reaches a cooldown, which `New` never leaves at 0.
abbrev pub cooled : ℕ → Breaker → Bool
cooled now b = leb b.config.cooldown (now - b.opened_at)

allow_in : State → ℕ → Breaker → Breaker × Bool
unfolding emit
allow_in closed now b = (b, true)
allow_in open_ now b =
    if cooled now b
    then (
      emit open_ half_open "cooldown expired" now
          (record b { state = half_open; half_open_probes = 0 }),
      true,
    )
    else (b, false)
allow_in half_open now b =
    if ltb b.half_open_probes b.config.half_open_max
    then (record b { half_open_probes = b.half_open_probes + 1 }, true)
    else (b, false)

unfoldable pub allow : ℕ → Breaker → Breaker × Bool
unfolding allow_in
allow now b = allow_in b.state now b

unfoldable pub stats : Breaker → State × ℕ × ℕ
stats b = (b.state, b.failures, b.last_failure)

-- What the users of a breaker call, in the order in which its mutex admits them.
pub data Call : Type 0 where
  allows succeeds fails : Call

unfoldable pub step : Breaker → ℕ × Call → Breaker
unfolding allow record_success record_failure
step b (now, allows) = (allow now b).0
step b (now, succeeds) = record_success now b
step b (now, fails) = record_failure now b

unfoldable pub run : Breaker → List (ℕ × Call) → Breaker
run b [] = b
run b (c ∷ cs) = run (step b c) cs
