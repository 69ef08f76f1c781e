-- ===== src/Circuit/Cooldown.antt =====
-- When a breaker opens, and what it answers until its cooldown has passed.
use vyx.Base.{ℕ, suc, ◌+◌, ◌≤◌, ◌<◌, ◌≡◌, refl, Bool, true, false, List, [], ◌∷◌, ◌++◌, arith, All}
use vyx.Circuit.{closed, open_, Breaker, Call, allows, succeeds, fails, allow, step, run}

abbrev pub count_true : Bool → ℕ → ℕ
count_true true n = suc n
count_true false n = n

-- How many calls of `Allow` among `cs` are answered with true.
unfoldable pub admitted : Breaker → List (ℕ × Call) → ℕ
admitted b [] = 0
admitted b ((now, allows) ∷ cs) = count_true (allow now b).1 (admitted (step b (now, allows)) cs)
admitted b ((now, succeeds) ∷ cs) = admitted (step b (now, succeeds)) cs
admitted b ((now, fails) ∷ cs) = admitted (step b (now, fails)) cs

abbrev pub Early : ℕ → ℕ × Call → Type 0
Early deadline c = c.0 < deadline

-- A step inside the cooldown keeps the breaker open since the same time.
step_early :
    (b : Breaker) (now : ℕ) (c : Call)
    → b.state ≡ open_
    → 0 < b.config.cooldown
    → now < b.opened_at + b.config.cooldown
    → ((step b (now, c)).state ≡ open_)
      × ((step b (now, c)).opened_at ≡ b.opened_at)
      × ((step b (now, c)).config ≡ b.config)
unfolding step
step_early b now allows o p h = ground arith
step_early b now succeeds o p h = ground arith
step_early b now fails o p h = ground arith

allow_early :
    (b : Breaker) (now : ℕ)
    → b.state ≡ open_
    → 0 < b.config.cooldown
    → now < b.opened_at + b.config.cooldown
    → (allow now b).1 ≡ false
unfolding allow
allow_early b now o p h = ground arith

Early-at :
    (d : ℕ) (b : Breaker) (cs : List (ℕ × Call))
    → b.state ≡ open_
    → 0 < b.config.cooldown
    → b.opened_at + b.config.cooldown ≡ d
    → All (Early d) cs
    → (admitted b cs ≡ 0) × ((run b cs).state ≡ open_)
unfolding run admitted
Early-at d b [] o p e h = (refl, o)
Early-at d b ((now, allows) ∷ cs) o p e (h, hs) =
    let kept = step_early b now allows o p (omega arith) in
    let rest = Early-at d (step b (now, allows)) cs kept.0 (ground arith) (ground arith) hs in
    ground (arith, allow_early b now o p)
Early-at d b ((now, succeeds) ∷ cs) o p e (h, hs) =
    let kept = step_early b now succeeds o p (omega arith) in
    Early-at d (step b (now, succeeds)) cs kept.0 (ground arith) (ground arith) hs
Early-at d b ((now, fails) ∷ cs) o p e (h, hs) =
    let kept = step_early b now fails o p (omega arith) in
    Early-at d (step b (now, fails)) cs kept.0 (ground arith) (ground arith) hs

-- An open breaker with a positive cooldown admits nothing and stays open under any calls, recorded
-- results included, that all come before the cooldown has passed.
pub open_rejects :
    (b : Breaker) (cs : List (ℕ × Call))
    → b.state ≡ open_
    → 0 < b.config.cooldown
    → All (Early (b.opened_at + b.config.cooldown)) cs
    → (admitted b cs ≡ 0) × ((run b cs).state ≡ open_)
open_rejects b cs o p h = Early-at _ b cs o p refl h

-- The recorded failures of a list of calls, and that it records no success.
abbrev pub failures_in : List (ℕ × Call) → ℕ
failures_in [] = 0
failures_in ((now, fails) ∷ cs) = suc (failures_in cs)
failures_in ((now, allows) ∷ cs) = failures_in cs
failures_in ((now, succeeds) ∷ cs) = failures_in cs

abbrev pub NoSuccess : List (ℕ × Call) → Type 0
NoSuccess [] = Unit
NoSuccess ((now, succeeds) ∷ cs) = ⊥
NoSuccess ((now, allows) ∷ cs) = NoSuccess cs
NoSuccess ((now, fails) ∷ cs) = NoSuccess cs

step_fails_below :
    (b : Breaker) (now : ℕ)
    → b.state ≡ closed
    → b.failures + 1 < b.config.failures
    → ((step b (now, fails)).state ≡ closed)
      × ((step b (now, fails)).failures ≡ b.failures + 1)
      × ((step b (now, fails)).config ≡ b.config)
unfolding step
step_fails_below b now c h = ground arith

step_allows_closed : (b : Breaker) (now : ℕ) → b.state ≡ closed → step b (now, allows) ≡ b
unfolding step
step_allows_closed b now c = ground arith

-- A failure that reaches the threshold opens a closed breaker.
step_fails_at :
    (b : Breaker) (now : ℕ)
    → b.state ≡ closed
    → b.config.failures ≤ b.failures + 1
    → ((step b (now, fails)).state ≡ open_) × ((step b (now, fails)).opened_at ≡ now)
unfolding step
step_fails_at b now c h = ground arith

-- A closed breaker that records `threshold - failures` failures, with no success between them and
-- any calls of `Allow`, opens at the last of them and not before.
pub trips_at_threshold :
    (b : Breaker) (cs : List (ℕ × Call)) (now : ℕ)
    → b.state ≡ closed
    → NoSuccess cs
    → b.failures + failures_in cs + 1 ≡ b.config.failures
    → ((run b cs).state ≡ closed)
      × ((run b (cs ++ (now, fails) ∷ [])).state ≡ open_)
      × ((run b (cs ++ (now, fails) ∷ [])).opened_at ≡ now)
unfolding run
trips_at_threshold b [] now c h e =
    let last = step_fails_at b now c (omega arith) in (c, last.0, last.1)
trips_at_threshold b ((t, allows) ∷ cs) now c h e =
    rw (run, step_allows_closed b t c) (trips_at_threshold b cs now c h e)
trips_at_threshold b ((t, succeeds) ∷ cs) now c h e = elim h [ ]
trips_at_threshold b ((t, fails) ∷ cs) now c h e =
    let more = step_fails_below b t c (omega arith) in
    trips_at_threshold (step b (t, fails)) cs now more.0 h (ground arith)
