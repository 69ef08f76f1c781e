-- ===== src/Receiver.antt =====
-- The receiver of core/application/heartbeat/receiver.go, which owns the read loops. A loop is a
-- goroutine with a number; `running` has the number whose cancel function the source's map holds,
-- and `cancelled` the loops that were told to end. That a loop returns is a step of its own, which
-- comes at some time after it was told, or when its worker is lost.
pub mod Reconcile
pub mod Cancelling
use vyx.Base.{
  ℕ, suc, ◌+◌, Bool, true, false, not, List, [], ◌∷◌, Option, none, some, if◌then◌else◌, ◌==◌, Text,
  Dict, lookup, insert, delete, is_some,
}
use vyx.Pool.Members.{contains}

pub record Receiver : Type 0 where
  pub running : Dict ℕ
  pub loops : List (ℕ × Text)
  pub cancelled : List ℕ
  pub next : ℕ

unfoldable pub new_receiver : Receiver
new_receiver = record { running = []; loops = []; cancelled = []; next = 0 }

unfoldable pub launch : Text → Receiver → Receiver
launch id r = record {
  running = insert id r.next r.running;
  loops = (r.next, id) ∷ r.loops;
  cancelled = r.cancelled;
  next = suc r.next;
}

abbrev pub cancel_loop : Text → ℕ → Receiver → Receiver
cancel_loop id n r = record r { running = delete id r.running; cancelled = n ∷ r.cancelled }

unfoldable pub start_loop : Text → Receiver → Receiver
start_loop id r = if is_some (lookup id r.running) then r else launch id r

unfoldable pub restart_loop : Text → Receiver → Receiver
restart_loop id r = elim (lookup id r.running) [
  | some n ↦ launch id (cancel_loop id n r)
  | none ↦ launch id r
]

-- The first loop of `reconcile`, over the IDs that the repository lists: those of all workers that it
-- stores.
unfoldable pub launch_missing : List Text → Receiver → Receiver
launch_missing [] r = r
launch_missing (id ∷ ids) r = launch_missing ids (start_loop id r)

-- The second one, over the entries of the map.
unfoldable pub cancel_departed : List Text → Dict ℕ → Receiver → Receiver
cancel_departed live [] r = r
cancel_departed live ((id, n) ∷ m) r =
    cancel_departed live m (if contains id live then r else cancel_loop id n r)

unfoldable pub reconcile : List Text → Receiver → Receiver
reconcile live r = let r' = launch_missing live r in cancel_departed live r'.running r'

unfoldable pub stop_all : Receiver → Receiver
stop_all r = cancel_departed [] r.running r

unfoldable pub without_loop : ℕ → List (ℕ × Text) → List (ℕ × Text)
without_loop n [] = []
without_loop n ((k, id) ∷ ls) =
    let rest = without_loop n ls in if k == n then rest else (k, id) ∷ rest

-- The end of the goroutine of `launchLocked`: whichever loop it was, the entry of its worker goes.
unfoldable pub loop_returns : ℕ → Text → Receiver → Receiver
loop_returns n id r = record r { running = delete id r.running; loops = without_loop n r.loops }
