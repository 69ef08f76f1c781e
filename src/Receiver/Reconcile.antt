-- ===== src/Receiver/Reconcile.antt =====
-- Which workers have a loop behind a reconciliation, and what a loop that returns takes with it.
use vyx.Base.{
  ℕ, suc, ◌≡◌, refl, sym, subst, arith, Bool, false, not, ◌<◌, ◌||◌, ◌&&◌, List, [], ◌∷◌, some,
  if◌then◌else◌, ◌==◌, Text, Dict, lookup, insert, delete, lookup-insert, lookup-delete, is_some,
  str_eq, str_eq_iff, str_eq_refl,
}
use vyx.Pool.Members.{contains}
use vyx.Receiver.{
  Receiver, launch, cancel_loop, start_loop, restart_loop, launch_missing, cancel_departed,
  reconcile, loop_returns, without_loop,
}

-- Whether the receiver has an entry for a worker.
abbrev pub has_loop : Text → Receiver → Bool
has_loop id r = is_some (lookup id r.running)

has_loop-start_loop :
    (j id : Text) (r : Receiver) → has_loop j (start_loop id r) ≡ (str_eq id j || has_loop j r)
unfolding start_loop launch
has_loop-start_loop j id r = ground (arith, lookup-insert id j r.next r.running, str_eq_iff id j)

has_loop-launch_missing :
    (j : Text) (ids : List Text) (r : Receiver)
    → has_loop j (launch_missing ids r) ≡ (contains j ids || has_loop j r)
unfolding launch_missing contains
has_loop-launch_missing j [] r = refl
has_loop-launch_missing j (id ∷ ids) r =
    ground (arith, has_loop-launch_missing j ids (start_loop id r), has_loop-start_loop j id r)

-- Of the entries that the loop passes, those of workers that are not alive go; others stay.
abbrev stays : Text → List Text → Dict ℕ → Receiver → Bool
stays j live m r = has_loop j r && (contains j live || not (is_some (lookup j m)))

has_loop-cancel_departed :
    (j : Text) (live : List Text) (m : Dict ℕ) (r : Receiver)
    → has_loop j (cancel_departed live m r) ≡ stays j live m r
unfolding cancel_departed lookup
has_loop-cancel_departed j live [] r = ground arith
has_loop-cancel_departed j live ((id, n) ∷ m) r = ground (
  arith,
  has_loop-cancel_departed j live m (if contains id live then r else cancel_loop id n r),
  lookup-delete id j r.running,
  str_eq_iff id j,
)

pub has_loop-reconcile_entries :
    (j : Text) (live : List Text) (r : Receiver) → has_loop j (reconcile live r) ≡ contains j live
unfolding reconcile
has_loop-reconcile_entries j live r =
    let r' = launch_missing live r in
    ground (arith, has_loop-cancel_departed j live r'.running r', has_loop-launch_missing j live r)

restart_loop-launch :
    (id : Text) (n : ℕ) (r : Receiver)
    → lookup id r.running ≡ some n
    → restart_loop id r ≡ launch id (cancel_loop id n r)
unfolding restart_loop
restart_loop-launch id n r e = rw (restart_loop, e) refl

start_loop-launch :
    (id : Text) (r : Receiver) → has_loop id r ≡ false → start_loop id r ≡ launch id r
unfolding start_loop
start_loop-launch id r e = rw (start_loop, e) refl

-- The receiver behind a restart and the return of the old loop.
abbrev orphaning : Text → ℕ → Receiver → Receiver
orphaning id n r = loop_returns n id (launch id (cancel_loop id n r))

has_loop-orphaning : (id : Text) (n : ℕ) (r : Receiver) → has_loop id (orphaning id n r) ≡ false
unfolding loop_returns launch
has_loop-orphaning id n r =
    let m = insert id r.next (delete id r.running) in
    ground (arith, lookup-delete id id m, str_eq_refl id)

-- Two loops for the worker, and one cancelled loop that is another.
abbrev pub Doubled : Text → ℕ → Receiver → Receiver → Type 0
Doubled id n r x =
    (x.loops ≡ (suc r.next, id) ∷ (r.next, id) ∷ without_loop n r.loops)
    × (x.cancelled ≡ n ∷ r.cancelled)

start_loop-Doubled :
    (id : Text) (n : ℕ) (r : Receiver)
    → n < r.next
    → Doubled id n r (start_loop id (orphaning id n r))
unfolding loop_returns launch without_loop
start_loop-Doubled id n r old =
    let other : (r.next == n) ≡ false = ground arith in
    subst (Doubled id n r)
      (sym (start_loop-launch id (orphaning id n r) (has_loop-orphaning id n r)))
      (rw other (refl, refl))

-- A restart cancels the loop of a worker and launches a new one; the old loop, when it returns,
-- takes the entry of the new one away, and the next start for the worker launches another loop: two
-- loops for one worker, neither of them cancelled.
pub restart_loop-loop_returns :
    (id : Text) (n : ℕ) (r : Receiver)
    → lookup id r.running ≡ some n
    → n < r.next
    → let behind = loop_returns n id (restart_loop id r) in
      (has_loop id behind ≡ false) × Doubled id n r (start_loop id behind)
restart_loop-loop_returns id n r e old =
    subst
      (λ y.
        (has_loop id (loop_returns n id y) ≡ false)
        × Doubled id n r (start_loop id (loop_returns n id y)))
      (sym (restart_loop-launch id n r e))
      (has_loop-orphaning id n r, start_loop-Doubled id n r old)
