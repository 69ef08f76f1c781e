-- ===== src/Manager/Names.antt =====
-- The numbers in the IDs of workers.
use vyx.Base.{
  ℕ, zero, suc, ◌+◌, ◌-◌, ◌*◌, ◌/◌, ◌%◌, ◌<◌, ◌≡◌, ◌≢◌, refl, ap, ◌∙◌, sym, inl, inr, true, [], ◌∷◌,
  ◌++◌, arith, ◌==◌, Text, length, length-append, Bool-cases,
}
use vyx.Manager.{itoa_loop, itoa, instance_id, all_digits}

-- The number that decimal digits stand for, behind a number `acc` that has been read.
unfoldable pub value : ℕ → Text → ℕ
value acc [] = acc
value acc (c ∷ s) = value (10 * acc + (c - 48)) s

value-itoa_loop : (f n : ℕ) (r : Text) → n < f → value 0 (itoa_loop f n r) ≡ value n r
unfolding itoa_loop value
value-itoa_loop zero n r h = elim h [ ]
value-itoa_loop (suc f) n r h = elim (Bool-cases (n == 0)) [
  | inl e ↦ rw e (ap (λ k. value k r) (ground arith))
  | inr e ↦ rw e (
      value-itoa_loop f (n / 10) ((48 + n % 10) ∷ r) (ground arith)
      ∙ ap (λ k. value k r) (omega arith))
]

-- `itoa` writes a number that reads as the number it was given.
pub value-itoa : (n : ℕ) → value 0 (itoa n) ≡ n
unfolding itoa value
value-itoa n = elim (Bool-cases (n == 0)) [
  | inl e ↦ rw e (ground arith)
  | inr e ↦ rw e (value-itoa_loop (n + 1) n [] (omega arith))
]

all_digits-itoa_loop :
    (f n : ℕ) (r : Text) → all_digits r ≡ true → all_digits (itoa_loop f n r) ≡ true
unfolding itoa_loop
all_digits-itoa_loop zero n r h = h
all_digits-itoa_loop (suc f) n r h = elim (Bool-cases (n == 0)) [
  | inl e ↦ rw e h
  | inr e ↦
      rw e (all_digits-itoa_loop f (n / 10) ((48 + n % 10) ∷ r) (unfold all_digits in ground arith))
]

pub all_digits-itoa : (n : ℕ) → all_digits (itoa n) ≡ true
unfolding itoa all_digits
all_digits-itoa n = elim (Bool-cases (n == 0)) [
  | inl e ↦ rw e
  | inr e ↦ rw e (all_digits-itoa_loop (n + 1) n [] refl)
]

itoa-injective : (i j : ℕ) → itoa i ≡ itoa j → i ≡ j
itoa-injective i j e = sym (value-itoa i) ∙ ap (value 0) e ∙ value-itoa j

append-cancel : (p s t : Text) → p ++ s ≡ p ++ t → s ≡ t
append-cancel [] s t e = e
append-cancel (c ∷ p) s t e = append-cancel p s t (cc)

append_longer : (p s : Text) (c : ℕ) → p ++ c ∷ s ≢ p
append_longer p s c e = omega (arith, ap length e, length-append p (c ∷ s))

pub instance_id-suc :
    (prefix : Text) (i : ℕ) → instance_id prefix (suc i) ≡ prefix ++ b'-' ∷ itoa (suc i)
unfolding instance_id
instance_id-suc prefix i = ground arith

pub instance_id-zero : (prefix : Text) → instance_id prefix zero ≡ prefix
unfolding instance_id
instance_id-zero prefix = refl

-- The replicas of one pool have different IDs.
pub instance_id-injective :
    (prefix : Text) (i j : ℕ) → instance_id prefix i ≡ instance_id prefix j → i ≡ j
instance_id-injective prefix zero zero e = refl
instance_id-injective prefix zero (suc j) e = absurd (
    append_longer prefix (itoa (suc j)) b'-'
      (sym (instance_id-suc prefix j) ∙ sym e ∙ instance_id-zero prefix))
instance_id-injective prefix (suc i) zero e = absurd (
    append_longer prefix (itoa (suc i)) b'-'
      (sym (instance_id-suc prefix i) ∙ e ∙ instance_id-zero prefix))
instance_id-injective prefix (suc i) (suc j) e =
    let tails =
      append-cancel prefix (b'-' ∷ itoa (suc i)) (b'-' ∷ itoa (suc j))
        (sym (instance_id-suc prefix i) ∙ e ∙ instance_id-suc prefix j) in
    itoa-injective (suc i) (suc j) (cc)
