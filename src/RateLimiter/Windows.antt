-- ===== src/RateLimiter/Windows.antt =====
-- How many requests a window admits, and when a client that was refused is admitted again.
use Prim.Native.Nat.{min}
use vyx.Base.{
  ℕ, suc, ◌+◌, ◌-◌, ◌*◌, ◌≤◌, ◌<◌, ◌≡◌, refl, ◌∙◌, true, false, List, [], ◌∷◌, some, arith,
  if◌then◌else◌, Text, Dict, lookup, lookup-insert, str_eq, length, All, ◌⊎◌, inl, inr, ℤ, pos,
  negsuc,
}
use vyx.RateLimiter.{Bucket, allow, or_empty, allow_key, new_with_jitter}

-- What a limit leaves over a count; nothing where it is not positive.
abbrev pub room : ℤ → ℕ → ℕ
room (pos limit) count = limit - count
room (negsuc n) count = 0

-- Calls at the given times and draws, and how many of them are admitted.
unfoldable pub admitted : ℤ → ℕ → ℕ → Bucket → List (ℕ × ℕ) → ℕ
admitted limit window jitter b [] = 0
admitted limit window jitter b ((now, draw) ∷ cs) =
    let (b', ok, retry) = allow limit window jitter draw now b in
    let rest = admitted limit window jitter b' cs in if ok then suc rest else rest

abbrev pub Before : ℕ → ℕ × ℕ → Type 0
Before e c = c.0 ≤ e

inside :
    (limit : ℤ) (window jitter draw now : ℕ) (b : Bucket)
    → now ≤ b.window_end
    → let r = allow limit window jitter draw now b in
      (r.0.window_end ≡ b.window_end)
      × (((r.1 ≡ true)
            × (0 < room limit b.count)
            × (suc (room limit r.0.count) ≡ room limit b.count))
          ⊎ ((r.1 ≡ false)
              × (room limit b.count ≡ 0)
              × (room limit r.0.count ≡ room limit b.count)))
unfolding allow
inside (pos limit) window jitter draw now b h = ground arith
inside (negsuc n) window jitter draw now b h = ground arith

admitted_until :
    (limit : ℤ) (window jitter e : ℕ) (b : Bucket) (cs : List (ℕ × ℕ))
    → b.window_end ≡ e
    → All (Before e) cs
    → admitted limit window jitter b cs ≡ min (length cs) (room limit b.count)
unfolding admitted
admitted_until limit window jitter e b [] w h = omega arith
admitted_until limit window jitter e b ((now, draw) ∷ cs) w (h, hs) =
    let r = allow limit window jitter draw now b in
    let step = inside limit window jitter draw now b (omega arith) in
    let rest = admitted_until limit window jitter e r.0 cs (step.0 ∙ w) hs in
    elim step.1 [
      | inl (yes', room, more) ↦ rw yes' (omega (arith, rest))
      | inr (no', full, same) ↦ rw no' (omega (arith, rest))
    ]

-- Until its window ends, a key is admitted as often as it asks or as its limit has left, whichever
-- is less, however the calls are spaced; a limit that is not positive admits none.
pub admitted_in_window :
    (limit : ℤ) (window jitter : ℕ) (b : Bucket) (cs : List (ℕ × ℕ))
    → All (Before b.window_end) cs
    → admitted limit window jitter b cs ≡ min (length cs) (room limit b.count)
admitted_in_window limit window jitter b cs h =
    admitted_until limit window jitter b.window_end b cs refl h

-- A refusal by a positive limit says how long to wait: a call that comes later than that finds the
-- bucket open.
pub refused_then_admitted :
    (limit window jitter draw now draw' later : ℕ) (b : Bucket)
    → 0 < limit
    → (allow (pos limit) window jitter draw now b).1 ≡ false
    → now + (allow (pos limit) window jitter draw now b).2 < later
    → (allow (pos limit) window jitter draw' later (allow (pos limit) window jitter draw now b).0).1
      ≡ true
unfolding allow
refused_then_admitted limit window jitter draw now draw' later b pos' = ground arith

-- A wait that is announced is at most the window and the jitter, if the window did not begin in the
-- future.
pub refused_wait :
    (limit : ℤ) (window jitter draw now : ℕ) (b : Bucket)
    → draw ≤ jitter
    → b.window_end ≤ now + window + jitter
    → (allow limit window jitter draw now b).2 ≤ window + jitter
unfolding allow
refused_wait (pos limit) window jitter draw now b h e = ground arith
refused_wait (negsuc n) window jitter draw now b h e = ground arith

-- A call for one key reads and writes the bucket of that key only.
pub allow_key-lookup :
    (limit : ℤ) (window jitter draw now : ℕ) (key j : Text) (m : Dict Bucket)
    → let one = allow limit window jitter draw now (or_empty (lookup key m)) in
      let all = allow_key limit window jitter draw now key m in
      (lookup j all.0 ≡ (if str_eq key j then some one.0 else lookup j m))
      × (all.1 ≡ one.1)
      × (all.2 ≡ one.2)
unfolding allow_key
allow_key-lookup limit window jitter draw now key j m = (
  lookup-insert key j (allow limit window jitter draw now (or_empty (lookup key m))).0 m,
  refl,
  refl,
)

-- The jitter is at most half the window.
pub new_with_jitter-jitter :
    (per_ip per_token : ℤ) (window max_jitter : ℕ)
    → 2 * (new_with_jitter per_ip per_token window max_jitter).jitter ≤ window
unfolding new_with_jitter
new_with_jitter-jitter per_ip per_token window max_jitter = ground arith
