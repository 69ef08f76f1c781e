-- ===== src/Manager/Prefix.antt =====
-- From the ID of a worker back to the name of its pool.
use native.Mathlib.Nat.{suc-add, add-zero, zero-add}
use vyx.Base.{
  ℕ, zero, suc, ◌+◌, ◌≤◌, ◌<◌, ◌≡◌, ◌≢◌, refl, ap, ◌∙◌, Bool, true, false, [], ◌∷◌, ◌++◌, none,
  some, arith, Text, length, length-append, get_elem?, take, drop, take-append, subst, lookup,
}
use vyx.Worker.{Worker}
use vyx.Manager.{
  Manager, pool_not_found, is_digit, all_digits, is_dash, extract_loop, extract_prefix,
  generate_worker_id, instance_id, itoa, replace_worker,
}
use vyx.Manager.Names.{all_digits-itoa, instance_id-suc, instance_id-zero}

get_elem?_skip : (xs ys : Text) (k : ℕ) → get_elem? (xs ++ ys) (k + length xs) ≡ get_elem? ys k
get_elem?_skip [] ys k = rw add-zero
get_elem?_skip (x ∷ xs) ys k =
    let e : k + suc (length xs) ≡ suc (k + length xs) = omega arith in rw e (get_elem?_skip xs ys k)

is_dash_digits : (ds : Text) (k : ℕ) → all_digits ds ≡ true → is_dash (get_elem? ds k) ≡ false
unfolding all_digits
is_dash_digits [] k h = refl
is_dash_digits (d ∷ ds) zero h = ground arith
is_dash_digits (d ∷ ds) (suc k) h = is_dash_digits ds k (ground arith)

-- The loop passes over digits at the end.
over_digits :
    (q ds : Text) (k : ℕ)
    → all_digits ds ≡ true
    → extract_loop (q ++ ds) (k + length q) ≡ extract_loop (q ++ ds) (length q)
unfolding extract_loop
over_digits q ds zero h = ap (extract_loop (q ++ ds)) (zero-add (length q))
over_digits q ds (suc k) h =
    rw (suc-add k (length q), get_elem?_skip q ds k, is_dash_digits ds k h) (over_digits q ds k h)

drop_all : (q s : Text) → drop (length q) (q ++ s) ≡ s
drop_all [] s = refl
drop_all (c ∷ q) s = drop_all q s

snoc : (q : Text) (c : ℕ) (s : Text) → (q ++ c ∷ []) ++ s ≡ q ++ c ∷ s
snoc [] c s = refl
snoc (d ∷ q) c s = ap (◌∷◌ d) (snoc q c s)

length_snoc : (q : Text) (c : ℕ) → length (q ++ c ∷ []) ≡ suc (length q)
length_snoc q c = omega (arith, length-append q (c ∷ []))

-- The whole loop on a text that ends in a byte `c` and digits comes down to the position of `c`.
to_last :
    (q : Text) (c : ℕ) (ds : Text)
    → all_digits ds ≡ true
    → extract_prefix (q ++ c ∷ ds) ≡ extract_loop (q ++ c ∷ ds) (suc (length q))
unfolding extract_prefix
to_last q c ds h =
    let total : length (q ++ c ∷ ds) ≡ length ds + suc (length q) =
      omega (arith, length-append q (c ∷ ds)) in
    let passed = over_digits (q ++ c ∷ []) ds (length ds) h in
    ap (extract_loop (q ++ c ∷ ds)) total ∙ rw (snoc q c ds, length_snoc q c) at passed

loop_hits :
    (s p : Text) (n : ℕ)
    → get_elem? s n ≡ some b'-'
    → all_digits (drop (suc n) s) ≡ true
    → take n s ≡ p
    → 0 < n
    → extract_loop s (suc n) ≡ p
unfolding extract_loop
loop_hits s p n at ds t pos = ground arith

drop_past : (q s : Text) (c : ℕ) → drop (suc (length q)) (q ++ c ∷ s) ≡ s
drop_past [] s c = refl
drop_past (d ∷ q) s c = drop_past q s c

get_elem?_last : (q s : Text) (c : ℕ) → get_elem? (q ++ c ∷ s) (length q) ≡ some c
get_elem?_last [] s c = refl
get_elem?_last (d ∷ q) s c = get_elem?_last q s c

-- The ID of a replica, its pool's name with a dash and digits behind, leads back to the pool.
pub extract_prefix-digits :
    (p ds : Text) → 0 < length p → all_digits ds ≡ true → extract_prefix (p ++ b'-' ∷ ds) ≡ p
extract_prefix-digits p ds n h =
    to_last p b'-' ds h
    ∙ loop_hits (p ++ b'-' ∷ ds) p (length p) (get_elem?_last p ds b'-')
        (ap all_digits (drop_past p ds b'-') ∙ h) (take-append p (b'-' ∷ ds)) n

-- Every replica of a pool leads back to it, if the name of the pool, which the first replica bears,
-- leads to itself.
pub extract_prefix-instance_id :
    (p : Text) (i : ℕ) → 0 < length p → extract_prefix p ≡ p → extract_prefix (instance_id p i) ≡ p
extract_prefix-instance_id p zero n e = rw (instance_id-zero p) e
extract_prefix-instance_id p (suc i) n e =
    rw (instance_id-suc p i) (extract_prefix-digits p (itoa (suc i)) n (all_digits-itoa (suc i)))

undigit_tail :
    (q ds : Text) (c i : ℕ)
    → is_digit c ≡ false
    → i ≤ length q
    → all_digits (drop i (q ++ c ∷ ds)) ≡ false
unfolding all_digits
undigit_tail [] ds c zero d h = ground arith
undigit_tail [] ds c (suc i) d h = elim h [ ]
undigit_tail (x ∷ q) ds c zero d h = ground (arith, undigit_tail q ds c zero d)
undigit_tail (x ∷ q) ds c (suc i) d h = undigit_tail q ds c i d (omega arith)

-- With a byte behind it that is no digit, no position is taken.
blocked :
    (q ds : Text) (c i : ℕ)
    → is_digit c ≡ false
    → i ≤ length q
    → extract_loop (q ++ c ∷ ds) i ≡ q ++ c ∷ ds
unfolding extract_loop
blocked q ds c zero d h = refl
blocked q ds c (suc i) d h =
    ground (arith, undigit_tail q ds c (suc i) d h, blocked q ds c i d (omega arith))

loop_skips :
    (s : Text) (c n : ℕ)
    → get_elem? s n ≡ some c
    → c ≢ b'-'
    → extract_loop s (suc n) ≡ extract_loop s n
unfolding extract_loop
loop_skips s c n at d = ground arith

-- An ID whose digits at the end follow neither a dash nor a digit leads to itself.
pub extract_prefix_undigit :
    (q ds : Text) (c : ℕ)
    → is_digit c ≡ false
    → c ≢ b'-'
    → all_digits ds ≡ true
    → extract_prefix (q ++ c ∷ ds) ≡ q ++ c ∷ ds
extract_prefix_undigit q ds c d n h =
    to_last q c ds h
    ∙ loop_skips (q ++ c ∷ ds) c (length q) (get_elem?_last q ds c) n
    ∙ blocked q ds c (length q) d (omega arith)

append_assoc' : (a b c : Text) → (a ++ b) ++ c ≡ a ++ (b ++ c)
append_assoc' [] b c = refl
append_assoc' (x ∷ a) b c = ap (◌∷◌ x) (append_assoc' a b c)

missing_pool :
    (spawns : Worker → Bool) (id stamp : Text) (now : ℕ) (m : Manager)
    → lookup (extract_prefix id) m.pools ≡ none
    → replace_worker spawns id stamp now m ≡ (m, some pool_not_found)
unfolding replace_worker
missing_pool spawns id stamp now m e = ground arith

-- `ReplaceWorker` finds no pool for an ID that was generated for a replacement, which ends in a
-- time with a dot and milliseconds, unless a pool has just this ID as its name.
pub replace_worker_generated :
    (spawns : Worker → Bool) (prefix time ms stamp : Text) (now : ℕ) (m : Manager)
    → all_digits ms ≡ true
    → lookup (generate_worker_id prefix (time ++ b'.' ∷ ms)) m.pools ≡ none
    → replace_worker spawns (generate_worker_id prefix (time ++ b'.' ∷ ms)) stamp now m
      ≡ (m, some pool_not_found)
unfolding generate_worker_id
replace_worker_generated spawns prefix time ms stamp now m h e =
    let id = prefix ++ b'-' ∷ (time ++ b'.' ∷ ms) in
    let split : (prefix ++ b'-' ∷ time) ++ b'.' ∷ ms ≡ id =
      append_assoc' prefix (b'-' ∷ time) (b'.' ∷ ms) in
    let itself : extract_prefix id ≡ id =
      subst (λ s. extract_prefix s ≡ s) split
        (extract_prefix_undigit (prefix ++ b'-' ∷ time) ms b'.' refl (ground arith) h) in
    missing_pool spawns id stamp now m (ap (λ k. lookup k m.pools) itself ∙ e)
