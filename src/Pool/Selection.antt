-- ===== src/Pool/Selection.antt =====
-- Which worker a pool selects.
use native.Mathlib.Nat.{mod-lt, mod-add-mod}
use vyx.Base.{
  ℕ, zero, suc, ◌+◌, ◌-◌, ◌%◌, ◌^◌, ◌≤◌, ◌<◌, ◌≡◌, refl, ap, ◌∙◌, ◌⊎◌, inl, inr, List, [], ◌∷◌,
  none, some, arith, if◌then◌else◌, leb, ltb, Bool-cases, ◌≢◌, Dict, lookup, length, get_elem?, pos,
  negsuc, All, Any, mod_exact,
}
use vyx.Worker.{Worker}
use vyx.Pool.{
  WorkerState, Pool, selected, index_panic, at_index, select_round_robin, consider, least_from,
  or_first, select_least_loaded,
}

-- What `k` selections in a row from the same workers leave.
abbrev pub after_rounds : ℕ → List Worker → Pool → Pool
after_rounds zero ws p = p
after_rounds (suc k) ws p = after_rounds k ws (select_round_robin ws p).0

counter-after_rounds :
    (k : ℕ) (w : Worker) (ws : List Worker) (p : Pool)
    → p.counter + k < 2 ^ 63
    → (after_rounds k (w ∷ ws) p).counter ≡ p.counter + k
unfolding select_round_robin
counter-after_rounds zero w ws p h = omega arith
counter-after_rounds (suc k) w ws p h =
    let one = (p.counter + 1) % 2 ^ 64 in
    let e : one ≡ p.counter + 1 = omega arith in
    omega
      (arith, e, counter-after_rounds k w ws (select_round_robin (w ∷ ws) p).0 (omega (arith, e)))

at_index-mod :
    (bits i : ℕ) (ws : List Worker) {w : Worker}
    → bits < 2 ^ 63
    → bits % length ws ≡ i
    → get_elem? ws i ≡ some w
    → at_index bits ws ≡ selected w
unfolding at_index
at_index-mod bits i ws h e g = ground arith

-- The round in which an index below `n` has its turn, counted from a counter `c`.
abbrev pub turn : ℕ → ℕ → ℕ → ℕ
turn c n i = if leb (c % n) i then i - c % n else i + n - c % n

turn-lt : (c n i : ℕ) → i < n → turn c n i < n
turn-lt c n i h = ground (arith, mod-lt c {m = n})

turn_lem : (c n i : ℕ) → i < n → (c + turn c n i) % n ≡ i
turn_lem c n i h =
    let r = c % n in
    let small = mod-lt c {m = n} (omega arith) in
    rw (← mod-add-mod c n (turn c n i)) (elim (Bool-cases (leb r i)) [
      | inl le ↦ rw le (mod_exact (r + (i - r)) i n h (inl (ground arith)))
      | inr gt ↦ rw gt (mod_exact (r + (i + n - r)) i n h (inr (omega arith)))
    ])

-- Within as many selections as there are healthy workers, each of them has its turn, as long as
-- they stay the same and the counter stays below 2 ^ 63.
pub round_robin_fair :
    (p : Pool) (w v : Worker) (ws : List Worker) (i : ℕ)
    → p.counter + length (w ∷ ws) < 2 ^ 63
    → get_elem? (w ∷ ws) i ≡ some v
    → i < length (w ∷ ws)
    → (k : ℕ) × (k < length (w ∷ ws))
      × ((select_round_robin (w ∷ ws) (after_rounds k (w ∷ ws) p)).1 ≡ selected v)
unfolding select_round_robin
round_robin_fair p w v ws i h g lt =
    let n = length (w ∷ ws) in
    let k = turn p.counter n i in
    let short = turn-lt p.counter n i lt in
    let here = counter-after_rounds k w ws p (omega arith) in
    (
      k,
      short,
      rw here (at_index-mod (p.counter + k) i (w ∷ ws) (omega arith) (turn_lem p.counter n i lt) g),
    )

-- The counter wraps round after 2 ^ 63 - 1: then the index is negative, and the next selection
-- faults unless the number of healthy workers divides 2 ^ 63.
pub round_robin_overflow :
    (p : Pool) (w : Worker) (ws : List Worker)
    → p.counter ≡ 2 ^ 63 - 1
    → (2 ^ 63) % length (w ∷ ws) ≢ 0
    → (select_round_robin (w ∷ ws) (select_round_robin (w ∷ ws) p).0).1 ≡ index_panic
unfolding select_round_robin at_index
round_robin_overflow p w ws e d = ground arith

-- The pool knows `n` active requests of the worker.
abbrev pub HasLoad : Dict WorkerState → ℕ → Worker → Type 0
HasLoad m n w = (ws : WorkerState) × (lookup w.id m ≡ some ws) × (ws.active_reqs ≡ pos n)

abbrev pub Loaded : Dict WorkerState → Worker → Type 0
Loaded m w = (n : ℕ) × HasLoad m n w

-- The worker `b` has `n` active requests, and `w` has at least as many.
abbrev pub AtLeast : Dict WorkerState → ℕ → Worker → Type 0
AtLeast m n w = (k : ℕ) × HasLoad m k w × (n ≤ k)

-- The loop keeps a worker with the least load that it has seen.
least_from-some :
    (m : Dict WorkerState) (b : Worker) (n : ℕ) (ws : List Worker)
    → All (Loaded m) ws
    → (b' : Worker) × (n' : ℕ) × (least_from (some b, pos n) ws m ≡ (some b', pos n'))
      × (n' ≤ n)
      × All (AtLeast m n') ws
      × (((b' ≡ b) × (n' ≡ n)) ⊎ Any (λ w. (b' ≡ w) × HasLoad m n' w) ws)
unfolding least_from
least_from-some m b n [] h = (b, n, refl, omega arith, tt, inl (refl, refl))
least_from-some m b n (w ∷ ws) ((k, (s, e, l)), hs) = elim (Bool-cases (ltb k n)) [
  | inl less ↦
      let (b', n', eq, le, all, orig) = least_from-some m w k ws hs in
      (
        b',
        n',
        rw (e, l, less) eq,
        ground arith,
        ((k, (s, e, l), le), all),
        inr (elim orig [
          | inl (same, count) ↦ inl (same, (s, e, rw count l))
          | inr later ↦ inr later
        ]),
      )
  | inr more ↦
      let (b', n', eq, le, all, orig) = least_from-some m b n ws hs in
      (
        b',
        n',
        rw (e, l, more) eq,
        le,
        ((k, (s, e, l), ground arith), all),
        elim orig [ inl same ↦ inl same | inr later ↦ inr (inr later) ],
      )
]

-- Where the pool knows a number of active requests, none below 0, for each candidate, the worker
-- that is selected is a candidate, and no candidate has fewer active requests.
pub select_least_loaded_minimal :
    (p : Pool) (w : Worker) (ws : List Worker)
    → All (Loaded p.workers) (w ∷ ws)
    → (b : Worker) × (n : ℕ) × (select_least_loaded (w ∷ ws) p ≡ selected b)
      × Any (λ v. (b ≡ v) × HasLoad p.workers n v) (w ∷ ws)
      × All (AtLeast p.workers n) (w ∷ ws)
unfolding select_least_loaded least_from
select_least_loaded_minimal p w ws ((k, (s, e, l)), hs) =
    let (b', n', eq, le, all, orig) = least_from-some p.workers w k ws hs in
    (
      b',
      n',
      ap (λ o. or_first (least_from (consider w o (none, negsuc 0)) ws p.workers).0 w) e
          ∙ ap (λ r. or_first (least_from (some w, r) ws p.workers).0 w) l
          ∙ ap (λ t. or_first t.0 w) eq,
      elim orig [ inl (same, count) ↦ inl (same, (s, e, rw count l)) | inr later ↦ inr later ],
      ((k, (s, e, l), le), all),
    )

-- One decrement too many hides a worker: at -1 active requests, the mark of an empty loop, it
-- loses to the next candidate, however many requests that one has.
pub select_least_loaded_hidden :
    (p : Pool) (w v : Worker) (n : ℕ) (s : WorkerState)
    → lookup w.id p.workers ≡ some s
    → s.active_reqs ≡ negsuc 0
    → HasLoad p.workers n v
    → select_least_loaded (w ∷ v ∷ []) p ≡ selected v
unfolding select_least_loaded least_from
select_least_loaded_hidden p w v n s e l (t, f, k) = rw (e, f) (ground arith)
