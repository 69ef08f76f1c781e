-- ===== src/Redact/Masking.antt =====
-- What masking does to a log line, and that it ends.
use vyx.Base.{
  ℕ, zero, suc, ◌+◌, ◌-◌, ◌≤◌, ◌<◌, ◌≡◌, inl, inr, refl, ap, arith, Bool, true, ◌||◌, List, [], ◌∷◌,
  Option, none, some, ◌==◌, Text, length, length-drop, drop, get_elem?, All, Bool-cases,
  Option-cases,
}
use vyx.Redact.{
  default_sensitive_fields, to_lower, is_prefix, one_more, index, index_where, is_stop, is_quote,
  Turn, breaks, continues, or_end, mask_plain, mask_quoted, mask_value, at_separator, behind_field,
  turn_at, turn, after_turn, redact_field, redact_fields, redact,
}
use vyx.Redact.Masks.{Masks, Masks-refl, Masks-trans, length-Masks, mask-Masks}

one_more-some : (o : Option ℕ) (n : ℕ) → one_more o ≡ some n → (k : ℕ) × (o ≡ some k) × (n ≡ suc k)
one_more-some none n e = cc
one_more-some (some k) n e = (k, refl, ground arith)

index_where-lt : (p : ℕ → Bool) (s : Text) (n : ℕ) → index_where p s ≡ some n → n < length s
unfolding index_where
index_where-lt p [] n e = cc
index_where-lt p (c ∷ s) n e = elim (Bool-cases (p c)) [
  | inl y ↦ ground (arith, rw y at e)
  | inr z ↦
      let (k, f, g) = one_more-some (index_where p s) n (rw z at e) in
      omega (arith, index_where-lt p s k f)
]

or_end_le : (p : ℕ → Bool) (s : Text) → or_end (index_where p s) s ≤ length s
or_end_le p s = elim (Option-cases (index_where p s)) [
  | inl n ↦ rw n (omega arith)
  | inr (k, e) ↦ rw e (omega (arith, index_where-lt p s k e))
]

is_prefix-le : (p s : Text) → is_prefix p s ≡ true → length p ≤ length s
unfolding is_prefix
is_prefix-le [] s e = omega arith
is_prefix-le (a ∷ p) [] e = cc
is_prefix-le (a ∷ p) (b ∷ s) e = ground (arith, is_prefix-le p s)

index-le : (p s : Text) (n : ℕ) → index p s ≡ some n → n + length p ≤ length s
unfolding index
index-le p [] n e = cc
index-le p (c ∷ s) n e = elim (Bool-cases (is_prefix p (c ∷ s))) [
  | inl y ↦ ground (arith, rw y at e, is_prefix-le p (c ∷ s) y)
  | inr z ↦
      let (k, f, g) = one_more-some (index p s) n (rw z at e) in omega (arith, index-le p s k f)
]

-- A turn that goes on has only masked bytes, and goes on from a later index in the text.
abbrev pub Advances : Text → ℕ → Turn → Type 0
Advances result i breaks = Unit
Advances result i (continues r j) = Masks result r × (i < j) × (j ≤ length r)

mask_plain-Advances :
    (result rest : Text) (i at next : ℕ)
    → i < next
    → next ≤ length result
    → at + length rest ≤ length result
    → Advances result i (mask_plain result at next rest)
mask_plain-Advances result rest i at next p q r =
    let m =
      mask-Masks at (or_end (index_where is_stop rest) rest) result
        (omega (arith, or_end_le is_stop rest)) in
    (m, p, omega (arith, length-Masks result _ m))

mask_quoted-Advances :
    (result rest : Text) (i at next : ℕ) (o : Option ℕ)
    → i < next
    → next ≤ at
    → next ≤ length result
    → at + suc (length rest) ≤ length result
    → ((n : ℕ) → o ≡ some n → n < length rest)
    → Advances result i (mask_quoted result at next rest o)
mask_quoted-Advances result rest i at next none p l q r f =
    mask_plain-Advances result rest i at next p q (omega arith)
mask_quoted-Advances result rest i at next (some n) p l q r f =
    let m = mask-Masks (at + 1) n result (omega (arith, f n refl)) in
    (m, omega arith, omega (arith, f n refl, length-Masks result _ m))

mask_value-Advances :
    (result rest : Text) (i at next : ℕ)
    → i < next
    → next ≤ at
    → next ≤ length result
    → at + length rest ≤ length result
    → Advances result i (mask_value result at next rest)
mask_value-Advances result [] i at next p l q r = mask_plain-Advances result [] i at next p q r
mask_value-Advances result (c ∷ rest) i at next p l q r = elim (Bool-cases (is_quote c)) [
  | inl e ↦ rw e (
      mask_quoted-Advances result rest i at next (index_where is_quote rest) p l q r
        (index_where-lt is_quote rest))
  | inr e ↦ rw e (mask_plain-Advances result (c ∷ rest) i at next p q r)
]

get_elem?-lt : (s : Text) (i c : ℕ) → get_elem? s i ≡ some c → i < length s
get_elem?-lt [] i c e = cc
get_elem?-lt (a ∷ s) zero c e = omega arith
get_elem?-lt (a ∷ s) (suc i) c e = omega (arith, get_elem?-lt s i c e)

at_separator-Advances :
    (result : Text) (i at next : ℕ) (o : Option ℕ)
    → get_elem? result at ≡ o
    → i < next
    → next ≤ at
    → next ≤ length result
    → Advances result i (at_separator result at next o)
at_separator-Advances result i at next none g p l q = tt
at_separator-Advances result i at next (some c) g p l q = elim (Bool-cases (c == 61 || c == 58)) [
  | inl e ↦ rw e (
      mask_value-Advances result (drop (at + 1) result) i (at + 1) next p (omega arith) q
        (omega (arith, length-drop (at + 1) result, get_elem?-lt result at c g)))
  | inr e ↦ rw e (Masks-refl result, p, q)
]

behind_field-Advances :
    (result : Text) (i next : ℕ) (o : Option ℕ)
    → get_elem? result next ≡ o
    → i < next
    → next ≤ length result
    → Advances result i (behind_field result next o)
behind_field-Advances result i next none g p q = tt
behind_field-Advances result i next (some c) g p q = elim (Bool-cases (is_quote c)) [
  | inl e ↦ rw e (
      at_separator-Advances result i (next + 1) next (get_elem? result (next + 1)) refl p
        (omega arith) q)
  | inr e ↦ rw e (at_separator-Advances result i next next (some c) g p (omega arith) q)
]

length-to_lower : (s : Text) → length (to_lower s) ≡ length s
unfolding to_lower
length-to_lower [] = refl
length-to_lower (c ∷ s) = ap suc (length-to_lower s)

turn_at-Advances :
    (field result : Text) (i : ℕ) (o : Option ℕ)
    → 0 < length field
    → ((pos : ℕ) → o ≡ some pos → pos + length field ≤ length result - i)
    → Advances result i (turn_at field result i o)
turn_at-Advances field result i none f h = tt
turn_at-Advances field result i (some pos) f h =
    behind_field-Advances result i (pos + i + length field) _ refl (omega arith)
      (omega (arith, h pos refl))

turn-Advances :
    (field result : Text) (i : ℕ) → 0 < length field → Advances result i (turn field result i)
unfolding turn
turn-Advances field result i f =
    turn_at-Advances field result i (index field (to_lower (drop i result))) f λ pos e. omega (
      arith,
      index-le field (to_lower (drop i result)) pos e,
      length-to_lower (drop i result),
      length-drop i result,
    )

-- A result there is, which has only been masked.
abbrev pub Ends : Text → Option Text → Type 0
Ends s o = (r : Text) × (o ≡ some r) × Masks s r

redact_field-Ends :
    (fuel : ℕ) (field result : Text) (i : ℕ)
    → 0 < length field
    → i ≤ length result
    → length result < fuel + i
    → Ends result (redact_field fuel field result i)
unfolding redact_field
redact_field-Ends zero field result i f p h = absurd (omega arith)
redact_field-Ends (suc fuel) field result i f p h =
    go (turn field result i) (turn-Advances field result i f) λ r j m.
      redact_field-Ends fuel field r j f m.2 (omega (arith, m.1, length-Masks result r m.0))
  where
    go :
        (t : Turn)
        → Advances result i t
        → ((r : Text) (j : ℕ)
            → (Masks result r × (i < j) × (j ≤ length r))
            → Ends r (redact_field fuel field r j))
        → Ends result (after_turn t result (redact_field fuel field))
    go breaks a k = (result, refl, Masks-refl result)
    go (continues r j) a k = let (u, e, m) = k r j a in (u, e, Masks-trans result r u a.0 m)

abbrev pub IsWord : Text → Type 0
IsWord f = 0 < length f

redact_fields-Ends :
    (fs : List Text) (result : Text) → All IsWord fs → Ends result (redact_fields fs result)
unfolding redact_fields
redact_fields-Ends [] result h = (result, refl, Masks-refl result)
redact_fields-Ends (f ∷ fs) result h =
    let (r, e, m) =
      redact_field-Ends (suc (length result)) f result 0 h.0 (omega arith) (omega arith) in
    let (u, d, k) = redact_fields-Ends fs r h.1 in
    (u, rw (redact_fields, e) d, Masks-trans result r u m k)

default_sensitive_fields-IsWord : All IsWord default_sensitive_fields
unfolding default_sensitive_fields
default_sensitive_fields-IsWord = ground arith

-- Masking a line always ends, with a line of the same length in which some bytes are asterisks and
-- all others are unchanged.
pub redact-Ends :
    (input : Text)
    → (r : Text) × (redact input ≡ some r) × Masks input r × (length r ≡ length input)
unfolding redact
redact-Ends input =
    let (r, e, m) =
      redact_fields-Ends default_sensitive_fields input default_sensitive_fields-IsWord in
    (r, e, m, length-Masks input r m)
