-- ===== src/Redact/Masks.antt =====
-- Texts of which some bytes are masked.
use vyx.Base.{
  ℕ, zero, suc, ◌+◌, ◌≤◌, ◌≡◌, ◌⊎◌, inl, inr, refl, ap, arith, [], ◌∷◌, ◌++◌, Text, length, drop,
  replicate,
}
use vyx.Redact.{mask}

-- The second text is the first with some bytes replaced by asterisks.
abbrev pub Masks : Text → Text → Type 0
Masks [] [] = Unit
Masks [] (b ∷ t) = ⊥
Masks (a ∷ s) [] = ⊥
Masks (a ∷ s) (b ∷ t) = ((b ≡ a) ⊎ (b ≡ 42)) × Masks s t

pub Masks-refl : (s : Text) → Masks s s
Masks-refl [] = tt
Masks-refl (a ∷ s) = (inl refl, Masks-refl s)

pub Masks-trans : (s t u : Text) → Masks s t → Masks t u → Masks s u
Masks-trans [] [] [] h k = tt
Masks-trans (a ∷ s) (b ∷ t) (c ∷ u) h k = (ground arith, Masks-trans s t u h.1 k.1)
Masks-trans [] [] (c ∷ u) h k = k
Masks-trans [] (b ∷ t) u h k = elim h [ ]
Masks-trans (a ∷ s) [] u h k = elim h [ ]
Masks-trans (a ∷ s) (b ∷ t) [] h k = k

pub length-Masks : (s t : Text) → Masks s t → length t ≡ length s
length-Masks [] [] h = refl
length-Masks [] (b ∷ t) h = elim h [ ]
length-Masks (a ∷ s) [] h = elim h [ ]
length-Masks (a ∷ s) (b ∷ t) h = ap suc (length-Masks s t h.1)

replicate-Masks : (n : ℕ) (s : Text) → n ≤ length s → Masks s (replicate n 42 ++ drop n s)
replicate-Masks zero s h = Masks-refl s
replicate-Masks (suc n) [] h = absurd (omega arith)
replicate-Masks (suc n) (a ∷ s) h = (inr refl, replicate-Masks n s (omega arith))

pub mask-Masks : (at n : ℕ) (s : Text) → at + n ≤ length s → Masks s (mask at n s)
unfolding mask
mask-Masks zero n s h =
    let e : 0 + n ≡ n = omega arith in rw (mask, e) (replicate-Masks n s (omega arith))
mask-Masks (suc at) n [] h = absurd (omega arith)
mask-Masks (suc at) n (a ∷ s) h =
    let e : suc at + n ≡ suc (at + n) = omega arith in
    rw (mask, e) (inl refl, mask-Masks at n s (omega arith))
