-- ===== src/SocketPool/Callers.antt =====
-- The callers of a pool of connections: those that hold a connection, those that are in a dial,
-- those whose turn found a dead connection, and the dials that the reaper started. A caller
-- releases only a connection that it holds.
use vyx.Base.{
  ℕ, zero, suc, ◌+◌, ◌≤◌, ◌≡◌, Bool, true, false, List, [], ◌∷◌, Option, none, some, length, pos,
}
use vyx.SocketPool.{
  PooledConn, Pool, PoolError, dial_and_add, close, Acquired, handed, dead, reserved, refused,
  acquire_next, acquire, acquire_dialled, release, reap,
}

pub record System : Type 0 where
  pub pool : Pool
  pub lent : List PooledConn
  pub dialling : ℕ
  pub retrying : ℕ
  pub refilling : ℕ
  pub refilled : ℕ

-- Each step is one section under the lock. The arguments are whether the newest idle connection is
-- alive, what a dial given, and the time.
pub data Event : Type 0 where
  acquires : Bool → Event
  retries : Bool → Event
  dials : Option ℕ → ℕ → Event
  releases : ℕ → Event
  refills_one : Option ℕ → ℕ → Event
  reaps : ℕ → Event
  closes : Event

abbrev pub outcome : Acquired × Pool → System → System
outcome (handed c, p) s = record s { pool = p; lent = c ∷ s.lent }
outcome (dead c, p) s = record s { pool = p; retrying = suc s.retrying }
outcome (reserved, p) s = record s { pool = p; dialling = suc s.dialling }
outcome (refused e, p) s = record s { pool = p }

abbrev pub receives : Option PooledConn × Pool → System → System
receives (none, p) s = record s { pool = p }
receives (some c, p) s = record s { pool = p; lent = c ∷ s.lent }

abbrev pub adds : Option PoolError × Pool → System → System
adds (none, p) s = record s { pool = p; refilled = suc s.refilled }
adds (some e, p) s = record s { pool = p }

abbrev pub retry : ℕ → Bool → System → System
retry zero alive s = s
retry (suc n) alive s = outcome (acquire_next alive s.pool) (record s { retrying = n })

abbrev pub dial_ends : ℕ → Option ℕ → ℕ → System → System
dial_ends zero c now s = s
dial_ends (suc n) c now s = receives (acquire_dialled c now s.pool) (record s { dialling = n })

abbrev pub give_back : List PooledConn → ℕ → System → System
give_back [] now s = s
give_back (c ∷ cs) now s = record s { pool = release c now s.pool; lent = cs }

abbrev pub refill_ends : ℕ → Option ℕ → ℕ → System → System
refill_ends zero c now s = s
refill_ends (suc n) c now s = adds (dial_and_add c now s.pool) (record s { refilling = n })

abbrev pub starts : ℕ × Pool → System → System
starts (n, p) s = record s { pool = p; refilling = s.refilling + n }

unfoldable pub step : Event → System → System
step (acquires alive) s = outcome (acquire alive s.pool) s
step (retries alive) s = retry s.retrying alive s
step (dials c now) s = dial_ends s.dialling c now s
step (releases now) s = give_back s.lent now s
step (refills_one c now) s = refill_ends s.refilling c now s
step (reaps now) s = starts (reap now s.pool) s
step closes s = record s { pool = close s.pool }

unfoldable pub run : List Event → System → System
run [] s = s
run (e ∷ es) s = run es (step e s)

abbrev pub with_pool : Pool → System
with_pool p = record {
  pool = p;
  lent = [];
  dialling = 0;
  retrying = 0;
  refilling = 0;
  refilled = 0;
}

-- The connections there are: idle ones, those in use, and the places of the dials.
abbrev pub held : System → ℕ
held s = length s.lent + s.dialling

abbrev pub present : System → ℕ
present s = length s.pool.idle + held s

abbrev pub limit : System → ℕ
limit s = s.pool.cfg.max_size + s.refilled

abbrev pub Total : Bool → System → Type 0
Total false s = (s.pool.total ≡ pos (present s)) × (present s ≤ limit s)
Total true s = s.pool.idle ≡ []
