-- ===== src/Drainer.antt =====
-- The in-flight requests of each worker, core/application/lifecycle/drainer.go. A `WaitGroup` is its
-- counter. What other goroutines do while `Drain` waits is an argument.
use vyx.Base.{
  ℕ, zero, suc, ◌≡◌, refl, Bool, true, false, Option, none, some, arith, if◌then◌else◌, ◌==◌, Text,
  Dict, lookup, insert, delete, lookup-insert, str_eq_refl, str_eq_iff, [],
}

pub record Drainer : Type 0 where
  pub inflight : Dict ℕ
  pub draining : Dict Bool

unfoldable pub new_drainer : Drainer
new_drainer = record { inflight = []; draining = [] }

abbrev pub or_zero : Option ℕ → ℕ
or_zero none = 0
or_zero (some n) = n

unfoldable pub acquire : Text → Drainer → Drainer
acquire id d = record d { inflight = insert id (suc (or_zero (lookup id d.inflight))) d.inflight }

-- `none` is the panic of a `WaitGroup` whose counter would fall below 0.
abbrev pub release_at : Text → Drainer → Option ℕ → Option Drainer
release_at id d none = some d
release_at id d (some zero) = none
release_at id d (some (suc n)) = some (record d { inflight = insert id n d.inflight })

unfoldable pub release : Text → Drainer → Option Drainer
release id d = release_at id d (lookup id d.inflight)

-- `finished` says whether the requests in flight are released before the timeout.
unfoldable pub drain : Bool → Text → Drainer → Drainer × Bool
drain finished id d = elim (lookup id d.inflight) [
  | none ↦ (d, true)
  | some n ↦
      if n == 0
      then (d, true)
      else if finished
      then (record d { inflight = insert id 0 d.inflight }, true)
      else (d, false)
]

unfoldable pub mark_draining : Text → Drainer → Drainer
mark_draining id d = record d { draining = insert id true d.draining }

abbrev pub or_false : Option Bool → Bool
or_false none = false
or_false (some b) = b

unfoldable pub is_draining : Text → Drainer → Bool
is_draining id d = or_false (lookup id d.draining)

unfoldable pub cleanup : Text → Drainer → Drainer
cleanup id d = record d { inflight = delete id d.inflight; draining = delete id d.draining }

-- The requests in flight at a worker.
abbrev pub in_flight : Text → Drainer → ℕ
in_flight id d = or_zero (lookup id d.inflight)

put_back :
    (id j : Text) (n k : ℕ) (m : Dict ℕ)
    → n ≡ or_zero (lookup id m)
    → or_zero (lookup j (insert id n (insert id k m))) ≡ or_zero (lookup j m)
put_back id j n k m e =
    ground (arith, lookup-insert id j n (insert id k m), lookup-insert id j k m, str_eq_iff id j)

-- `Release` undoes `Acquire`: it does not panic, and every worker has as many requests in flight as
-- before.
pub release-acquire :
    (id j : Text) (d : Drainer)
    → (d' : Drainer) × (release id (acquire id d) ≡ some d') × (in_flight j d' ≡ in_flight j d)
unfolding release acquire
release-acquire id j d =
    let n = or_zero (lookup id d.inflight) in
    (
      record d { inflight = insert id n (insert id (suc n) d.inflight) },
      rw (lookup-insert id id (suc n) d.inflight, str_eq_refl id),
      put_back id j n (suc n) d.inflight refl,
    )
