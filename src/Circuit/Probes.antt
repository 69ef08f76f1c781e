-- ===== src/Circuit/Probes.antt =====
-- How many requests a half-open breaker lets through before it learns of a result.
use Prim.Native.Nat.{min}
use vyx.Base.{ℕ, ◌⊎◌, ◌+◌, ◌-◌, ◌≤◌, ◌≡◌, true, false, List, [], ◌∷◌, arith, length}
use vyx.Circuit.{open_, half_open, Breaker, Call, allows, allow, cooled, step, run}
use vyx.Circuit.Cooldown.{count_true, admitted}

-- Calls of `Allow` at the given times.
abbrev pub allows_at : List ℕ → List (ℕ × Call)
allows_at [] = []
allows_at (t ∷ ts) = (t, allows) ∷ allows_at ts

allow_half :
    (b : Breaker) (now : ℕ)
    → b.state ≡ half_open
    → let c = step b (now, allows) in
      let answer = (allow now b).1 in
      (c.state ≡ half_open)
      × (c.config ≡ b.config)
      × (count_true answer 0 + (b.config.half_open_max - c.half_open_probes)
          ≡ b.config.half_open_max - b.half_open_probes)
      × (answer ≡ false → b.config.half_open_max ≤ b.half_open_probes)
unfolding step
allow_half b now h = ground arith

admitted_half :
    (b : Breaker) (ts : List ℕ)
    → b.state ≡ half_open
    → (admitted b (allows_at ts) ≡ min (length ts) (b.config.half_open_max - b.half_open_probes))
      × ((run b (allows_at ts)).state ≡ half_open)
unfolding admitted run
admitted_half b [] h = (omega arith, h)
admitted_half b (t ∷ ts) h =
    let one = allow_half b t h in
    let rest = admitted_half (step b (t, allows)) ts one.0 in (ground arith, rest.1)

allow-cooled :
    (b : Breaker) (now : ℕ)
    → b.state ≡ open_
    → cooled now b ≡ true
    → let c = step b (now, allows) in
      let answer = (allow now b).1 in
      (c.state ≡ half_open) × (c.config ≡ b.config) × (c.half_open_probes ≡ 0) × (answer ≡ true)
unfolding step
allow-cooled b now o h = ground arith

-- An open breaker whose cooldown has passed admits the call that finds this out and
-- `HalfOpenMax` more, one more than its limit of probes, until a result is recorded; it is
-- half-open throughout.
pub half_open_admits :
    (b : Breaker) (now : ℕ) (ts : List ℕ)
    → b.state ≡ open_
    → cooled now b ≡ true
    → (admitted b (allows_at (now ∷ ts)) ≡ 1 + min (length ts) b.config.half_open_max)
      × ((run b (allows_at (now ∷ ts))).state ≡ half_open)
unfolding admitted run
half_open_admits b now ts o h =
    let first = allow-cooled b now o h in
    let rest = admitted_half (step b (now, allows)) ts first.0 in (ground arith, rest.1)

-- A half-open breaker that has given out its probes answers no at every later time, and does not
-- leave the state, as long as no result is recorded.
pub half_open_stuck :
    (b : Breaker) (ts : List ℕ)
    → b.state ≡ half_open
    → b.config.half_open_max ≤ b.half_open_probes
    → (admitted b (allows_at ts) ≡ 0) × ((run b (allows_at ts)).state ≡ half_open)
half_open_stuck b ts o h = let all = admitted_half b ts o in (omega arith, all.1)

step_half :
    (b : Breaker) (now : ℕ)
    → b.state ≡ half_open
    → let c = step b (now, allows) in
      (c.state ≡ half_open)
      × (c.config ≡ b.config)
      × ((b.half_open_probes + 1 ≤ c.half_open_probes)
          ⊎ ((c.half_open_probes ≡ b.half_open_probes)
              × (b.config.half_open_max ≤ b.half_open_probes)))
unfolding step
step_half b now h = ground arith

-- Calls of `Allow` alone use up the probes of a half-open breaker, which stays half-open.
pub run-Spent :
    (b : Breaker) (ts : List ℕ)
    → b.state ≡ half_open
    → b.config.half_open_max ≤ b.half_open_probes + length ts
    → let c = run b (allows_at ts) in
      (c.state ≡ half_open) × (c.config.half_open_max ≤ c.half_open_probes)
unfolding run
run-Spent b [] h enough = (h, omega arith)
run-Spent b (t ∷ ts) h enough =
    let (half, same, used) = step_half b t h in
    run-Spent (step b (t, allows)) ts half (ground arith)

pub allow-Spent :
    (b : Breaker) (now : ℕ)
    → b.state ≡ half_open
    → b.config.half_open_max ≤ b.half_open_probes
    → (allow now b).1 ≡ false
unfolding allow
allow-Spent b now h spent = ground arith
