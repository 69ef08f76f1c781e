-- ===== src/SocketPool/Warming.antt =====
-- The pool that `NewPool` returns.
use vyx.Base.{
  ℕ, zero, suc, ◌+◌, ◌≤◌, ◌≡◌, refl, subst, Bool, true, false, [], str_eq, Option, none, some,
  arith, if◌then◌else◌, length, pos,
}
use vyx.SocketPool.{
  PoolConfig, Pool, PoolError, socket_path_required, dial_and_add, prewarm, empty_pool, new_pool,
  with_defaults, goes_on, warmed,
}

-- A pool that has been warmed: open, with n idle connections that are all it counts.
pub record Warm (c : PoolConfig) (n : ℕ) (p : Pool) : Type 0 where
  pub opened : p.is_closed ≡ false
  pub idle_count : length p.idle ≡ n
  pub total_count : p.total ≡ pos n
  pub unused : p.in_use ≡ pos 0
  pub same_cfg : p.cfg ≡ c

dial_and_add-Warm :
    (g : Option ℕ) (m now : ℕ) (p q : Pool) (c : PoolConfig)
    → dial_and_add g now p ≡ (none, q)
    → Warm c m p
    → Warm c (suc m) q
unfolding dial_and_add
dial_and_add-Warm none m now p q c h w = cc
dial_and_add-Warm (some k) m now p q c h w = ground arith

-- A loop of dials that did not end by an error took its next step.
goes_on-cases :
    (r : Option PoolError × Pool) (k : Pool → Option PoolError × Pool) (q : Pool)
    → goes_on r k ≡ (none, q)
    → (p : Pool) × (r ≡ (none, p)) × (k p ≡ (none, q))
goes_on-cases (none, p) k q h = (p, refl, h)
goes_on-cases (some e, p) k q h = cc

prewarm-Warm :
    (n m : ℕ) (given : ℕ → Option ℕ) (now : ℕ) (p q : Pool) (c : PoolConfig)
    → prewarm n given now p ≡ (none, q)
    → Warm c m p
    → Warm c (m + n) q
unfolding prewarm
prewarm-Warm zero m given now p q c h w = ground arith
prewarm-Warm (suc n) m given now p q c h w =
    let (p', e, k) = goes_on-cases (dial_and_add (given n) now p) (prewarm n given now) q h in
    let w' =
      prewarm-Warm n (suc m) given now p' q c k (dial_and_add-Warm (given n) m now p p' c e w) in
    subst (λ k. Warm c k q) (omega arith) w'

pub with_defaults-size : (c : PoolConfig) → (with_defaults c).min_size ≤ (with_defaults c).max_size
unfolding with_defaults
with_defaults-size c = ground arith

warmed-cases : (r : Option PoolError × Pool) (p : Pool) → warmed r ≡ (none, some p) → r ≡ (none, p)
warmed-cases (none, q) p h = ground arith
warmed-cases (some e, q) p h = cc

path_given :
    (b : Bool) (r : Option PoolError × Option Pool) (p : Pool)
    → (if b then (some socket_path_required, none) else r) ≡ (none, some p)
    → r ≡ (none, some p)
path_given false r p h = h
path_given true r p h = cc

pub new_pool-Warm :
    (c : PoolConfig) (given : ℕ → Option ℕ) (now : ℕ) (p : Pool)
    → new_pool c given now ≡ (none, some p)
    → Warm (with_defaults c) (with_defaults c).min_size p
unfolding new_pool
new_pool-Warm c given now p h =
    let least = (with_defaults c).min_size in
    let start = empty_pool (with_defaults c) in
    let made =
      warmed-cases (prewarm least given now start) p (path_given (str_eq c.socket_path []) _ p h) in
    subst (λ k. Warm (with_defaults c) k p) (omega arith)
      (prewarm-Warm least 0 given now start p (with_defaults c) made (ground arith))
