-- ===== src/SocketPool.antt =====
-- The pool of connections of core/infrastructure/ipc/uds/pool.go. Each function is one section of
-- the source under the lock. What a dial gives and whether a connection is alive are arguments: a
-- connection is a number, and `none` a dial that failed. The slice of idle connections is a list
-- whose head is the end of the slice. A size that is not positive is 0.
pub mod Callers
pub mod Warming
pub mod Counts
use vyx.Base.{
  ℕ, zero, suc, ◌+◌, ◌-◌, ◌*◌, ◌/◌, Bool, true, false, not, ◌&&◌, ◌||◌, List, [], ◌∷◌, Option, none,
  some, if◌then◌else◌, leb, ltb, ◌==◌, Text, str_eq, length, ℤ, pos, suc_ℤ, pred_ℤ, ltb_ℤ, add_ℕ,
  sub_ℤ,
}

abbrev pub default_min_size : ℕ
default_min_size = 2

abbrev pub default_max_size : ℕ
default_max_size = 16

abbrev pub default_idle_timeout : ℕ
default_idle_timeout = 30 * 1_000_000_000

abbrev pub default_dial_timeout : ℕ
default_dial_timeout = 5 * 1_000_000_000

pub data PoolError : Type 0 where
  pool_closed pool_exhausted socket_path_required dial_failed : PoolError

pub record PoolConfig : Type 0 where
  pub socket_path : Text
  pub min_size : ℕ
  pub max_size : ℕ
  pub idle_timeout : ℕ
  pub dial_timeout : ℕ

pub record PooledConn : Type 0 where
  pub conn : ℕ
  pub last_used : ℕ

pub record Pool : Type 0 where
  pub cfg : PoolConfig
  pub idle : List PooledConn
  pub total : ℤ
  pub in_use : ℤ
  pub is_closed : Bool

abbrev pub or_default : ℕ → ℕ → ℕ
or_default d n = if n == 0 then d else n

unfoldable pub with_defaults : PoolConfig → PoolConfig
with_defaults c =
    let least = or_default default_min_size c.min_size in
    let most = or_default default_max_size c.max_size in
    record c {
      min_size = least;
      max_size = if ltb most least then least else most;
      idle_timeout = or_default default_idle_timeout c.idle_timeout;
      dial_timeout = or_default default_dial_timeout c.dial_timeout;
    }

-- `dialAndAdd` from the end of its dial on.
unfoldable pub dial_and_add : Option ℕ → ℕ → Pool → Option PoolError × Pool
dial_and_add none now p = (some dial_failed, p)
dial_and_add (some c) now p = if p.is_closed then (some pool_closed, p) else (
  none,
  record p { idle = record { conn = c; last_used = now } ∷ p.idle; total = suc_ℤ p.total },
)

unfoldable pub close : Pool → Pool
close p =
    if p.is_closed
    then p
    else record p { is_closed = true; idle = []; total = sub_ℤ p.total p.in_use }

abbrev pub goes_on :
    Option PoolError × Pool → (Pool → Option PoolError × Pool) → Option PoolError × Pool
goes_on (some e, p) k = (some e, close p)
goes_on (none, p) k = k p

-- The loop that warms the pool, over what its dials give.
unfoldable pub prewarm : ℕ → (ℕ → Option ℕ) → ℕ → Pool → Option PoolError × Pool
prewarm zero dials now p = (none, p)
prewarm (suc n) dials now p = goes_on (dial_and_add (dials n) now p) (prewarm n dials now)

abbrev pub empty_pool : PoolConfig → Pool
empty_pool c = record { cfg = c; idle = []; total = pos 0; in_use = pos 0; is_closed = false }

abbrev pub warmed : Option PoolError × Pool → Option PoolError × Option Pool
warmed (some e, p) = (some e, none)
warmed (none, p) = (none, some p)

unfoldable pub new_pool : PoolConfig → (ℕ → Option ℕ) → ℕ → Option PoolError × Option Pool
new_pool c dials now =
    if str_eq c.socket_path []
    then (some socket_path_required, none)
    else warmed (prewarm (with_defaults c).min_size dials now (empty_pool (with_defaults c)))

-- What one turn of the loop of `Acquire` comes to.
pub data Acquired : Type 0 where
  handed : PooledConn → Acquired
  dead : PooledConn → Acquired
  reserved : Acquired
  refused : PoolError → Acquired

abbrev pub acquire_from : List PooledConn → Bool → Pool → Acquired × Pool
acquire_from [] alive p =
    if ltb_ℤ p.total (pos p.cfg.max_size)
    then (reserved, record p { total = suc_ℤ p.total; in_use = suc_ℤ p.in_use })
    else (refused pool_exhausted, p)
acquire_from (c ∷ rest) alive p =
    if alive
    then (handed c, record p { idle = rest; in_use = suc_ℤ p.in_use })
    else (dead c, record p { idle = rest; total = pred_ℤ p.total })

-- A turn after a dead connection, which was closed without the lock. It does not ask again whether
-- the pool is closed.
unfoldable pub acquire_next : Bool → Pool → Acquired × Pool
acquire_next alive p = acquire_from p.idle alive p

unfoldable pub acquire : Bool → Pool → Acquired × Pool
acquire alive p = if p.is_closed then (refused pool_closed, p) else acquire_from p.idle alive p

-- The end of the dial that `Acquire` reserved a place for.
unfoldable pub acquire_dialled : Option ℕ → ℕ → Pool → Option PooledConn × Pool
acquire_dialled none now p = (none, record p { total = pred_ℤ p.total; in_use = pred_ℤ p.in_use })
acquire_dialled (some c) now p = (some (record { conn = c; last_used = now }), p)

-- `Release` of a connection that the pool made; another one is only closed.
unfoldable pub release : PooledConn → ℕ → Pool → Pool
release c now p =
    if p.is_closed || leb p.cfg.max_size (length p.idle)
    then record p { total = pred_ℤ p.total; in_use = pred_ℤ p.in_use }
    else record p { idle = record c { last_used = now } ∷ p.idle; in_use = pred_ℤ p.in_use }

pub record PoolStats : Type 0 where
  pub idle : ℕ
  pub in_use : ℤ
  pub total : ℤ

unfoldable pub stats : Pool → PoolStats
stats p = record { idle = length p.idle; in_use = p.in_use; total = p.total }

abbrev pub is_stale : ℕ → ℕ → PooledConn → Bool
is_stale now limit c = ltb limit (now - c.last_used)

-- The loop of `reap`: what is kept, and the count of all connections.
unfoldable pub reap_idle : ℕ → ℕ → List PooledConn → ℤ → List PooledConn × ℤ
reap_idle now limit [] total = ([], total)
reap_idle now limit (c ∷ cs) total =
    let rest = reap_idle now limit cs total in
    if is_stale now limit c then (rest.0, pred_ℤ rest.1) else (c ∷ rest.0, rest.1)

-- How many dials `reap` starts.
abbrev pub refills : Pool → ℕ
refills p =
    let need = p.cfg.min_size - length p.idle in
    if ltb 0 need && not (ltb_ℤ (pos p.cfg.max_size) (add_ℕ p.total need)) then need else 0

abbrev pub reaped : List PooledConn × ℤ → Pool → Pool
reaped (keep, total) p = record p { idle = keep; total = total }

-- The result has the number of dials that are started; each ends in `dial_and_add`.
unfoldable pub reap : ℕ → Pool → ℕ × Pool
reap now p =
    if p.is_closed
    then (0, p)
    else let p' = reaped (reap_idle now p.cfg.idle_timeout p.idle p.total) p in (refills p', p')
