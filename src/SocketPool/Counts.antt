-- ===== src/SocketPool/Counts.antt =====
-- The counts of a pool of connections, over all that its callers do.
use vyx.Base.{
  ℕ, zero, suc, ◌+◌, ◌≤◌, ◌≡◌, refl, Bool, true, false, List, [], ◌∷◌, Option, none, some, arith,
  length, ℤ, pos, sub_ℕ-pos, Bool-cases, inl, inr,
}
use vyx.SocketPool.{
  PoolConfig, PooledConn, Pool, dial_and_add, close, new_pool, acquire_from, acquire_next, acquire,
  acquire_dialled, release, reap_idle, reap,
}
use vyx.SocketPool.Callers.{
  System, Event, acquires, retries, dials, releases, refills_one, reaps, closes, outcome, retry,
  dial_ends, give_back, refill_ends, starts, step, run, with_pool, held, Total,
}
use vyx.SocketPool.Warming.{new_pool-Warm, with_defaults-size}

-- What is counted as in use is in use; an open pool has the right total, which is above the
-- maximum by no more than the dials of the reaper have added; a closed pool has nothing idle.
pub record Counted (s : System) : Type 0 where
  pub uses : s.pool.in_use ≡ pos (held s)
  pub totals : Total s.pool.is_closed s

acquire_from-Counted :
    (alive : Bool) (cs : List PooledConn) (s : System)
    → s.pool.idle ≡ cs
    → Counted s
    → Counted (outcome (acquire_from cs alive s.pool) s)
acquire_from-Counted alive [] s e v = ground arith
acquire_from-Counted true (c ∷ cs) s e v = ground arith
acquire_from-Counted false (c ∷ cs) s e v = ground arith

reap_idle-total :
    (now most : ℕ) (cs : List PooledConn) (t : ℤ) (n : ℕ)
    → t ≡ pos (length cs + n)
    → ((reap_idle now most cs t).1 ≡ pos (length (reap_idle now most cs t).0 + n))
      × (length (reap_idle now most cs t).0 ≤ length cs)
unfolding reap_idle
reap_idle-total now most [] t n e = ground arith
reap_idle-total now most (c ∷ cs) t n e =
    let e' : t ≡ pos (length cs + suc n) = ground arith in
    ground (arith, reap_idle-total now most cs t (suc n) e')

retry-Counted : (n : ℕ) (alive : Bool) (s : System) → Counted s → Counted (retry n alive s)
unfolding acquire_next
retry-Counted zero alive s v = v
retry-Counted (suc n) alive s v =
    acquire_from-Counted alive s.pool.idle (record s { retrying = n }) refl (ground arith)

dial_ends-Counted :
    (n : ℕ) (c : Option ℕ) (now : ℕ) (s : System)
    → s.dialling ≡ n
    → Counted s
    → Counted (dial_ends n c now s)
unfolding acquire_dialled
dial_ends-Counted zero c now s e v = v
dial_ends-Counted (suc n) none now s e v = ground arith
dial_ends-Counted (suc n) (some c) now s e v = ground arith

give_back-Counted :
    (cs : List PooledConn) (now : ℕ) (s : System)
    → s.lent ≡ cs
    → Counted s
    → Counted (give_back cs now s)
unfolding release
give_back-Counted [] now s e v = v
give_back-Counted (c ∷ cs) now s e v = ground arith

refill_ends-Counted :
    (n : ℕ) (c : Option ℕ) (now : ℕ) (s : System) → Counted s → Counted (refill_ends n c now s)
unfolding dial_and_add
refill_ends-Counted zero c now s v = v
refill_ends-Counted (suc n) none now s v = ground arith
refill_ends-Counted (suc n) (some c) now s v = ground arith

reap-Counted : (now : ℕ) (s : System) → Counted s → Counted (starts (reap now s.pool) s)
unfolding reap
reap-Counted now s v = elim (Bool-cases s.pool.is_closed) [
  | inl h ↦ ground arith
  | inr h ↦
      let e : s.pool.total ≡ pos (length s.pool.idle + held s) = ground arith in
      ground
        (arith, reap_idle-total now s.pool.cfg.idle_timeout s.pool.idle s.pool.total (held s) e)
]

step-Counted : (e : Event) (s : System) → Counted s → Counted (step e s)
unfolding step acquire acquire_next acquire_dialled release dial_and_add reap close
step-Counted (acquires alive) s v = ground (arith, acquire_from-Counted alive s.pool.idle s refl v)
step-Counted (retries alive) s v = retry-Counted s.retrying alive s v
step-Counted (dials c now) s v = dial_ends-Counted s.dialling c now s refl v
step-Counted (releases now) s v = give_back-Counted s.lent now s refl v
step-Counted (refills_one c now) s v = refill_ends-Counted s.refilling c now s v
step-Counted (reaps now) s v = reap-Counted now s v
step-Counted closes s v = ground arith

run-Counted : (es : List Event) (s : System) → Counted s → Counted (run es s)
unfolding run
run-Counted [] s v = v
run-Counted (e ∷ es) s v = run-Counted es (step e s) (step-Counted e s v)

-- Whatever its callers and its reaper do, in any order, with a pool that NewPool returned: it
-- counts as in use what is lent or being dialled; while it is open its total is the number of all
-- connections, which exceeds MaxSize by no more than the dials of the reaper have added; once it is
-- closed nothing is idle.
pub run-new_pool-Counted :
    (c : PoolConfig) (given : ℕ → Option ℕ) (now : ℕ) (p : Pool) (es : List Event)
    → new_pool c given now ≡ (none, some p)
    → Counted (run es (with_pool p))
run-new_pool-Counted c given now p es h =
    let w = new_pool-Warm c given now p h in
    run-Counted es (with_pool p) (ground (arith, with_defaults-size c))

-- Closing a pool that counts rightly leaves as its total the number of the idle connections, which
-- it has just closed, although those that count as in use are still lent or being dialled.
pub close_surplus :
    (s : System)
    → Counted s
    → s.pool.is_closed ≡ false
    → ((close s.pool).total ≡ pos (length s.pool.idle))
      × ((close s.pool).in_use ≡ pos (held s))
      × ((close s.pool).idle ≡ [])
unfolding close
close_surplus s v h =
    let e : s.pool.total ≡ pos (length s.pool.idle + held s) = ground arith in
    rw (close, h, v.uses, e) (sub_ℕ-pos (length s.pool.idle) (held s), refl, refl)
