-- ===== src/Base/Modulo.antt =====
-- Remainders of indexes that run at most once past the end.
use Prim.Native.Nat.{ℕ, ◌+◌, ◌%◌, ◌<◌}
use mathlib.Core.Path.{◌≡◌}
use mathlib.Core.Logic.{◌⊎◌, inl, inr}
use native.Mathlib.Nat.{mod-eq_of_lt, add-mod_right}

pub mod_exact : (x i n : ℕ) → i < n → (x ≡ i) ⊎ (x ≡ i + n) → x % n ≡ i
mod_exact x i n h (inl e) = rw e (mod-eq_of_lt h)
mod_exact x i n h (inr e) = rw (e, add-mod_right i n) (mod-eq_of_lt h)
