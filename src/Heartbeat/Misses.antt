-- ===== src/Heartbeat/Misses.antt =====
-- When the loop reports a worker as unhealthy.
use vyx.Base.{
  ℕ, suc, ◌+◌, ◌≤◌, ◌<◌, ◌≡◌, refl, ap, ◌∙◌, ◌⊎◌, inl, inr, false, List, [], ◌∷◌, ◌++◌, Option,
  none, some, arith, if◌then◌else◌, leb, length, All, Bool-cases,
}
use vyx.Lifecycle.Workers.{Report, heartbeats, missed, shakes_hands}
use vyx.Heartbeat.{
  Config, Poll, Received, frame, not_connected, failure, handle_receive_error, round, run_loop,
}

-- The poll fails for good: the context is alive, and the error is no connection in its grace.
abbrev pub Misses : Config → Poll → Type 0
Misses c p =
    (p.done_before ≡ false)
    × (p.done_after ≡ false)
    × ((p.received ≡ failure) ⊎ ((p.received ≡ not_connected) × (c.connect_grace ≤ p.elapsed)))

by_received :
    (c : Config) (n : ℕ) (p : Poll) (r : Received)
    → p.received ≡ r
    → Misses c p
    → round c n p
      ≡ (if leb c.missed_threshold (n + 1) then (none, missed ∷ []) else (some (n + 1), []))
unfolding round handle_receive_error
by_received c n p r e m = ground arith

loop_round :
    (c : Config) (n : ℕ) (p : Poll) (ps : List Poll) (o : Option ℕ) (now : List Report)
    → round c n p ≡ (o, now)
    → run_loop c (some n) (p ∷ ps) ≡ ((run_loop c o ps).0, now ++ (run_loop c o ps).1)
unfolding run_loop
loop_round c n p ps o now e = ap (λ r. ((run_loop c r.0 ps).0, r.1 ++ (run_loop c r.0 ps).1)) e

ended : (c : Config) (ps : List Poll) → run_loop c none ps ≡ (none, [])
unfolding run_loop
ended c [] = refl
ended c (p ∷ ps) = refl

-- Consecutive misses below the threshold are counted and not reported, and the loop goes on with
-- the polls behind them; the one that reaches the threshold is reported, once, and ends the loop,
-- whatever polls come behind it.
pub threshold_ends :
    (c : Config) (n : ℕ) (ps behind : List Poll)
    → All (Misses c) ps
    → n < c.missed_threshold
    → run_loop c (some n) (ps ++ behind) ≡ (
        if leb c.missed_threshold (n + length ps)
        then (none, missed ∷ [])
        else run_loop c (some (n + length ps)) behind)
threshold_ends c n [] behind h lt = ground arith
threshold_ends c n (p ∷ ps) behind (h, hs) lt =
    let e = by_received c n p p.received refl h in
    elim (Bool-cases (leb c.missed_threshold (n + 1))) [
      | inl over ↦
          loop_round c n p (ps ++ behind) none (missed ∷ []) (rw over at e)
          ∙ rw (ended c (ps ++ behind)) (ground arith)
      | inr under ↦
          loop_round c n p (ps ++ behind) (some (n + 1)) [] (rw under at e)
          ∙ rw (threshold_ends c (n + 1) ps behind hs (ground arith)) (ground arith)
    ]

abbrev pub missed_in : List Report → ℕ
missed_in [] = 0
missed_in (heartbeats ∷ rs) = missed_in rs
missed_in (missed ∷ rs) = suc (missed_in rs)
missed_in (shakes_hands ∷ rs) = missed_in rs

missed_in-append : (rs ss : List Report) → missed_in (rs ++ ss) ≡ missed_in rs + missed_in ss
missed_in-append [] ss = omega arith
missed_in-append (heartbeats ∷ rs) ss = missed_in-append rs ss
missed_in-append (missed ∷ rs) ss = omega (arith, missed_in-append rs ss)
missed_in-append (shakes_hands ∷ rs) ss = missed_in-append rs ss

abbrev AtMostLast : Option ℕ × List Report → Type 0
AtMostLast r = (missed_in r.1 ≡ 0) ⊎ ((missed_in r.1 ≡ 1) × (r.0 ≡ none))

round-AtMostLast :
    (c : Config) (n : ℕ) (p : Poll) (r : Received) → p.received ≡ r → AtMostLast (round c n p)
unfolding round handle_receive_error
round-AtMostLast c n p (frame t) e = ground arith
round-AtMostLast c n p not_connected e = ground arith
round-AtMostLast c n p failure e = ground arith

-- A run of the loop reports its worker as unhealthy at most once, and then it has ended.
pub run_loop-AtMostLast :
    (c : Config) (s : Option ℕ) (ps : List Poll)
    → (missed_in (run_loop c s ps).1 ≡ 0)
      ⊎ ((missed_in (run_loop c s ps).1 ≡ 1) × ((run_loop c s ps).0 ≡ none))
unfolding run_loop
run_loop-AtMostLast c none ps = inl refl
run_loop-AtMostLast c (some n) [] = inl refl
run_loop-AtMostLast c (some n) (p ∷ ps) =
    let r = round c n p in
    let rest = run_loop-AtMostLast c r.0 ps in
    let sum = missed_in-append r.1 (run_loop c r.0 ps).1 in
    elim (round-AtMostLast c n p p.received refl) [
      | inl quiet ↦ ground arith
      | inr (once, stop) ↦
          let over : run_loop c r.0 ps ≡ (none, []) = ap (λ o. run_loop c o ps) stop ∙ ended c ps in
          let silent : missed_in (run_loop c r.0 ps).1 ≡ 0 = ap (λ q. missed_in q.1) over in
          inr (sum ∙ omega (arith, silent, once), ap (λ q. q.0) over)
    ]
