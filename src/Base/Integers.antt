-- ===== src/Base/Integers.antt =====
-- The integers, for the counters of the sources that may fall below zero.
use Prim.Native.Nat.{ℕ, zero, suc, ◌+◌}
use mathlib.Core.Path.{◌≡◌, refl, sym, ap, subst, ◌∙◌}
use native.Mathlib.Omega.{arith}
use mathlib.Core.Bool.{Bool, true, false}
use vyx.Base.Tests.{ltb}

-- `negsuc n` is -(n + 1).
pub data ℤ : Type 0 where
  pos : ℕ → ℤ
  negsuc : ℕ → ℤ

abbrev pub suc_ℤ : ℤ → ℤ
suc_ℤ (pos n) = pos (suc n)
suc_ℤ (negsuc zero) = pos 0
suc_ℤ (negsuc (suc n)) = negsuc n

abbrev pub pred_ℤ : ℤ → ℤ
pred_ℤ (pos zero) = negsuc 0
pred_ℤ (pos (suc n)) = pos n
pred_ℤ (negsuc n) = negsuc (suc n)

-- a < b
abbrev pub ltb_ℤ : ℤ → ℤ → Bool
ltb_ℤ (pos a) (pos b) = ltb a b
ltb_ℤ (pos a) (negsuc b) = false
ltb_ℤ (negsuc a) (pos b) = true
ltb_ℤ (negsuc a) (negsuc b) = ltb b a

abbrev pub is_minus_one : ℤ → Bool
is_minus_one (negsuc zero) = true
is_minus_one _ = false

abbrev pub is_neg : ℤ → Bool
is_neg (pos n) = false
is_neg (negsuc n) = true

abbrev pub add_ℕ : ℤ → ℕ → ℤ
add_ℕ i zero = i
add_ℕ i (suc n) = suc_ℤ (add_ℕ i n)

abbrev pub sub_ℕ : ℤ → ℕ → ℤ
sub_ℕ i zero = i
sub_ℕ i (suc n) = pred_ℤ (sub_ℕ i n)

abbrev pub sub_ℤ : ℤ → ℤ → ℤ
sub_ℤ i (pos n) = sub_ℕ i n
sub_ℤ i (negsuc n) = add_ℕ i (suc n)

pub pred_ℤ-pos : (n : ℕ) → pred_ℤ (pos (suc n)) ≡ pos n
pred_ℤ-pos n = refl

pub add_ℕ-pos : (a n : ℕ) → add_ℕ (pos a) n ≡ pos (a + n)
add_ℕ-pos a zero = ap pos (omega arith)
add_ℕ-pos a (suc n) = rw (add_ℕ-pos a n) (ap pos (omega arith))

pred_ℤ-sub_ℕ : (i : ℤ) (n : ℕ) → pred_ℤ (sub_ℕ i n) ≡ sub_ℕ (pred_ℤ i) n
pred_ℤ-sub_ℕ i zero = refl
pred_ℤ-sub_ℕ i (suc n) = ap pred_ℤ (pred_ℤ-sub_ℕ i n)

pub sub_ℕ-pos : (a n : ℕ) → sub_ℕ (pos (a + n)) n ≡ pos a
sub_ℕ-pos a zero = ap pos (omega arith)
sub_ℕ-pos a (suc n) =
    let e : a + suc n ≡ suc (a + n) = omega arith in
    pred_ℤ-sub_ℕ (pos (a + suc n)) n
    ∙ subst (λ m. sub_ℕ (pred_ℤ (pos m)) n ≡ pos a) (sym e) (sub_ℕ-pos a n)
