-- ===== src/Monitor/Backoff.antt =====
-- How long a restart is put off, and what the monitor remembers of failed restarts.
use Prim.Native.Nat.{min}
use native.Mathlib.Nat.{pow-le-pow_right}
use vyx.Base.{
  ℕ, ◌+◌, ◌*◌, ◌^◌, ◌≤◌, ◌<◌, ◌≡◌, refl, false, List, ◌∷◌, arith, Text, lookup, is_some, length, ℤ,
  pos, negsuc, ◌⊎◌, none, some, str_eq,
}
use vyx.Pool.Members.{contains, Distinct}
use vyx.Monitor.{Monitor, backoff_base, backoff_max, backoff_after, new_monitor}

-- The entries are listed once each, in the order in which they came, and are no more than `limit`.
pub record Tracked (limit : ℕ) (m : Monitor) : Type 0 where
  pub distinct : Distinct m.backoff_order
  pub listed : (id : Text) → is_some (lookup id m.backoffs) ≡ contains id m.backoff_order
  pub bounded : length m.backoffs ≤ limit

pub new_monitor-Tracked : (limit : ℕ) → Tracked limit new_monitor
unfolding new_monitor contains lookup
new_monitor-Tracked limit = record { distinct = tt; listed = λ id. refl; bounded = omega arith }

-- How many failures the monitor remembers of a worker.
abbrev pub failures : Text → Monitor → ℕ
failures id m = elim (lookup id m.backoffs) [ some n ↦ n | none ↦ 0 ]

-- The map is full and this is its oldest entry.
abbrev pub Oldest : ℕ → Text → Monitor → Type 0
Oldest limit j m = (limit ≤ length m.backoffs) × (order : List Text) × (m.backoff_order ≡ j ∷ order)

-- One more failure of a worker is remembered, and of the others what was known, but for an oldest
-- entry that had to make room for a new one.
pub record Noted (limit : ℕ) (id : Text) (m n : Monitor) : Type 0 where
  pub tracked : Tracked limit n
  pub counts : lookup id n.backoffs ≡ some (failures id m + 1)
  pub others :
      (j : Text)
      → str_eq id j ≡ false
      → (lookup j n.backoffs ≡ lookup j m.backoffs)
        ⊎ ((lookup j n.backoffs ≡ none) × (lookup id m.backoffs ≡ none) × Oldest limit j m)

pub record Forgotten (limit : ℕ) (id : Text) (m n : Monitor) : Type 0 where
  pub tracked : Tracked limit n
  pub gone : lookup id n.backoffs ≡ none
  pub others : (j : Text) → str_eq id j ≡ false → lookup j n.backoffs ≡ lookup j m.backoffs

fits_int64 : (a : ℕ) → a < 34 → backoff_base * 2 ^ a < 2 ^ 63
fits_int64 a h =
    let small = pow-le-pow_right {n = 2} (omega arith) {i = a} {j = 33} (omega arith) in omega arith

past_int64 : (a : ℕ) → 34 ≤ a → 2 ^ 63 ≤ backoff_base * 2 ^ a
past_int64 a h =
    let large = pow-le-pow_right {n = 2} (omega arith) {i = 34} {j = a} h in omega arith

-- Up to 33 failures the wait doubles with each, from one second to at most thirty.
pub backoff_after_small :
    (overflowed : ℤ) (a : ℕ)
    → a < 34
    → backoff_after overflowed a ≡ pos (min (backoff_base * 2 ^ a) backoff_max)
unfolding backoff_after
backoff_after_small overflowed a h = ground (arith, fits_int64 a h)

-- From 34 failures on the number of nanoseconds does not fit: where the platform's conversion
-- gives a negative number, the wait is that number, and the restart is not put off at all.
pub backoff_after_overflow : (n a : ℕ) → 34 ≤ a → backoff_after (negsuc n) a ≡ negsuc n
unfolding backoff_after
backoff_after_overflow n a h = ground (arith, past_int64 a h)
