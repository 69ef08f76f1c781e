-- ===== src/Receiver/Cancelling.antt =====
-- That the entries of the receiver stand for loops that run, and which loops a reconciliation starts
-- and cancels.
use vyx.Base.{ℕ, ◌<◌, ◌≡◌, true, false, List, some, Text, Dict, lookup, All, Any}
use vyx.Pool.Members.{contains}
use vyx.Receiver.{Receiver}
use vyx.Receiver.Reconcile.{has_loop}

-- A loop for this worker is there.
abbrev pub Loops : Receiver → ℕ → Text → Type 0
Loops r n id = Any (λ l. l ≡ (n, id)) r.loops

abbrev pub Cancelled : Receiver → ℕ → Type 0
Cancelled r n = Any (λ k. k ≡ n) r.cancelled

-- The number of an entry was given out, and no other worker has it.
abbrev pub Owned : Dict ℕ → ℕ → Text × ℕ → Type 0
Owned running next e = (e.1 < next) × ((j : Text) → lookup j running ≡ some e.1 → j ≡ e.0)

-- Every entry is for a loop of its worker that was not told to end.
pub record Backed (r : Receiver) : Type 0 where
  pub owned : All (Owned r.running r.next) r.running
  pub loops : (j : Text) (n : ℕ) → lookup j r.running ≡ some n → Loops r n j
  pub going : (j : Text) (n : ℕ) → lookup j r.running ≡ some n → Cancelled r n → ⊥
  pub past : (n : ℕ) → Cancelled r n → n < r.next

-- What a reconciliation with the listed workers makes of the loops.
pub record Reconciled (ids : List Text) (r r' : Receiver) : Type 0 where
  pub listed : (j : Text) → has_loop j r' ≡ contains j ids
  pub backed : Backed r'
  pub kept :
      (j : Text) (n : ℕ)
      → lookup j r.running ≡ some n
      → contains j ids ≡ true
      → lookup j r'.running ≡ some n
  pub stopped :
      (j : Text) (n : ℕ) → lookup j r.running ≡ some n → contains j ids ≡ false → Cancelled r' n
