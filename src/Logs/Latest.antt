-- ===== src/Logs/Latest.antt =====
-- The multiplexer holds the entries that were pushed last.
use native.Mathlib.Nat.{mod-lt}
use mathlib.Core.List.{append_assoc, append-nil}
use vyx.Base.{
  ℕ, zero, suc, ◌+◌, ◌-◌, ◌%◌, ◌≤◌, ◌<◌, ◌≡◌, ◌≢◌, ◌⊎◌, inl, inr, refl, sym, ap, subst, ◌∙◌, arith,
  false, Option, none, some, List, [], ◌∷◌, ◌++◌, length, get_elem?, drop, replicate, length-append,
  ltb, Bool-cases, mod_exact, ltb→lt, lt→ltb, length-drop, get_elem?_hit,
}
use vyx.Logs.{
  Entry, blank, Multiplexer, new, capacity_of, set_at, push, collect, entries_of, subscribe,
  unsubscribe,
}
use vyx.Logs.Ring.{
  Event, pushes, subscribes, unsubscribes, step, run, pushed, latest, back, Holds, length-set_at,
  set_at_there, set_at_elsewhere, get_elem?-before, get_elem?-last, get_elem?-drop_one, drop-within,
  drop_again, drop_next,
}

next_head :
    (h n : ℕ) → h < n → (((h + 1) % n ≡ h + 1) × (h + 1 < n)) ⊎ (((h + 1) % n ≡ 0) × (h + 1 ≡ n))
next_head h n l = elim (Bool-cases (ltb (h + 1) n)) [
  | inl e ↦ inl (mod_exact (h + 1) (h + 1) n (ground arith) (inl refl), ground arith)
  | inr e ↦ inr (mod_exact (h + 1) 0 n (omega arith) (inr (ground arith)), ground arith)
]

-- One step further back from the next head is as far back as before.
back_next : (h n j : ℕ) → h < n → j < n → back n ((h + 1) % n) (suc j) ≡ back n h j
back_next h n j l k = elim (next_head h n l) [
  | inl (e, i) ↦ rw e (ground arith)
  | inr (e, i) ↦ rw e (ground arith)
]

back_elsewhere : (h n j : ℕ) → h < n → 0 < j → j < n → back n h j ≢ h
back_elsewhere h n j l p k e = ground arith

back-lt : (h n j : ℕ) → h < n → j ≤ n → 0 < n → back n h j < suc n
back-lt h n j l k p = ground arith

written :
    (e : Entry) (m : Multiplexer) (q : List Entry) (k : ℕ)
    → Holds m q
    → k ≤ m.count
    → m.count - k < m.size
    → get_elem? (set_at m.head e m.entries) (back m.size m.head (m.count - k))
      ≡ get_elem? (q ++ e ∷ []) k
written e m q k v h i = elim (Bool-cases (ltb k m.count)) [
  | inl below ↦
      set_at_elsewhere m.head (back m.size m.head (m.count - k)) e m.entries
        (back_elsewhere m.head m.size (m.count - k) v.inside (ground arith) i)
      ∙ v.held k (ground arith)
      ∙ sym (get_elem?-before q (e ∷ []) k (omega (arith, v.counted, ltb→lt k m.count below)))
  | inr same ↦
      let last : k ≡ length q = ground (arith, v.counted) in
      let none_left : back m.size m.head (m.count - k) ≡ m.head = ground (arith, v.counted) in
      rw (none_left, last)
        (set_at_there m.head e m.entries (omega (arith, v.whole, v.inside))
          ∙ sym (get_elem?-last q e))
]

-- Where there is room, a push adds to what is held.
push_room :
    (e : Entry) (m : Multiplexer) (q : List Entry)
    → Holds m q
    → m.count < m.size
    → Holds (push e m) (q ++ e ∷ [])
unfolding push
push_room e m q v r = record {
  whole = length-set_at m.head e m.entries ∙ v.whole;
  inside = mod-lt (m.head + 1) (omega (arith, v.inside));
  counted = rw (lt→ltb m.count m.size r, length-append q (e ∷ [])) (omega (arith, v.counted));
  fits = rw (lt→ltb m.count m.size r) (omega arith);
  held = rw (lt→ltb m.count m.size r) λ i h.
      let k : i ≤ m.count = omega arith in
      let past : m.count + 1 - i ≡ suc (m.count - i) = omega arith in
      rw (past, back_next m.head m.size (m.count - i) v.inside (omega arith))
        (written e m q i v k (omega arith));
}

-- A full ring drops its oldest entry for a new one.
push_full :
    (e : Entry) (m : Multiplexer) (q : List Entry)
    → Holds m q
    → m.count ≡ m.size
    → Holds (push e m) (drop 1 (q ++ e ∷ []))
unfolding push
push_full e m q v f =
    let full : ltb m.count m.size ≡ false = ground arith in
    record {
      whole = length-set_at m.head e m.entries ∙ v.whole;
      inside = mod-lt (m.head + 1) (omega (arith, v.inside));
      counted =
          rw full (omega (arith, v.counted, length-drop 1 (q ++ e ∷ []), length-append q (e ∷ [])));
      fits = rw full v.fits;
      held = rw full λ i h.
          let past : m.count - i ≡ suc (m.count - suc i) = omega arith in
          rw (past, back_next m.head m.size (m.count - suc i) v.inside (omega arith))
            (written e m q (suc i) v (omega arith) (omega arith)
              ∙ sym (get_elem?-drop_one (q ++ e ∷ []) i));
    }

latest_more :
    (n : ℕ) (es : List Entry) (e : Entry)
    → length es < n
    → latest n (es ++ e ∷ []) ≡ latest n es ++ e ∷ []
latest_more n es e h =
    let a : length es - n ≡ 0 = omega arith in
    let b : length (es ++ e ∷ []) - n ≡ 0 = omega (arith, length-append es (e ∷ [])) in
    rw (a, b) refl

latest_moved :
    (n : ℕ) (es : List Entry) (e : Entry)
    → n ≤ length es
    → latest n (es ++ e ∷ []) ≡ drop 1 (latest n es ++ e ∷ [])
latest_moved n es e h =
    let a : length (es ++ e ∷ []) - n ≡ suc (length es - n) =
      omega (arith, length-append es (e ∷ [])) in
    rw (a, drop_again (length es - n) (es ++ e ∷ []))
      (ap (drop 1) (drop-within (length es - n) es (e ∷ []) (omega arith)))

push-Holds :
    (e : Entry) (m : Multiplexer) (es : List Entry)
    → Holds m (latest m.size es)
    → Holds (push e m) (latest m.size (es ++ e ∷ []))
push-Holds e m es v =
    let n = length-drop (length es - m.size) es in
    elim (Bool-cases (ltb (length es) m.size)) [
      | inl few ↦
          rw (latest_more m.size es e (ground arith))
            (push_room e m _ v (ground (arith, v.counted, n)))
      | inr many ↦
          rw (latest_moved m.size es e (ground arith))
            (push_full e m _ v (ground (arith, v.counted, n)))
    ]

length-replicate : (n : ℕ) (e : Entry) → length (replicate n e) ≡ n
length-replicate zero e = refl
length-replicate (suc n) e = ap suc (length-replicate n e)

has_room : (c : Option ℕ) → 0 < capacity_of c
has_room none = omega arith
has_room (some zero) = omega arith
has_room (some (suc n)) = omega arith

new-Holds : (c : Option ℕ) → Holds (new c) (latest (capacity_of c) [])
unfolding new
new-Holds c = record {
  whole = length-replicate (capacity_of c) blank;
  inside = has_room c;
  counted = omega (arith, length-drop {A = Entry} (0 - capacity_of c) []);
  fits = omega arith;
  held = λ i h. elim h [ ];
}

drop_past : (i : ℕ) (q : List Entry) → length q ≤ i → drop i q ≡ []
drop_past zero [] h = refl
drop_past zero (x ∷ q) h = elim h [ ]
drop_past (suc i) [] h = refl
drop_past (suc i) (x ∷ q) h = drop_past i q (omega arith)

-- The index that `Entries` reads.
read_at :
    (m : Multiplexer) (q : List Entry) (i : ℕ)
    → Holds m q
    → i < m.count
    → ((m.head + m.size - m.count) % m.size + i) % m.size ≡ back m.size m.head (m.count - i)
read_at m q i v h =
    let start : (m.head + m.size - m.count) % m.size ≡ back m.size m.head m.count =
      mod_exact (m.head + m.size - m.count) (back m.size m.head m.count) m.size
        (ground (arith, v.inside, v.fits)) (ground (arith, v.inside, v.fits)) in
    rw start (
      mod_exact (back m.size m.head m.count + i) (back m.size m.head (m.count - i)) m.size
        (ground (arith, v.inside, v.fits)) (ground (arith, v.inside, v.fits)))

collect-Holds :
    (m : Multiplexer) (q : List Entry) (n i : ℕ)
    → Holds m q
    → n + i ≡ m.count
    → collect m ((m.head + m.size - m.count) % m.size) n i ≡ some (drop i q)
unfolding collect
collect-Holds m q zero i v e = ap some (sym (drop_past i q (omega (arith, v.counted))))
collect-Holds m q (suc n) i v e =
    let (x, here) = get_elem?_hit q i (omega (arith, v.counted)) in
    rw
      (
        read_at m q i v (omega arith),
        v.held i (omega arith),
        here,
        collect-Holds m q n (suc i) v (omega arith),
      )
      (ap some (sym (drop_next i q x here)))

entries_of-Holds : (m : Multiplexer) (q : List Entry) → Holds m q → entries_of m ≡ some q
unfolding entries_of
entries_of-Holds m q v = collect-Holds m q m.count 0 v (omega arith)

run-Holds :
    (xs : List Event) (m : Multiplexer) (es : List Entry)
    → Holds m (latest m.size es)
    → Holds (run xs m) (latest m.size (es ++ pushed xs))
unfolding run step push subscribe unsubscribe
run-Holds [] m es v = rw (append-nil es) v
run-Holds (pushes e ∷ xs) m es v =
    subst (λ ys. Holds (run xs (push e m)) (latest m.size ys))
      (append_assoc es (e ∷ []) (pushed xs))
      (run-Holds xs (push e m) (es ++ e ∷ []) (push-Holds e m es v))
run-Holds (subscribes c ∷ xs) m es v = run-Holds xs (subscribe c m) es (record {
  whole = v.whole;
  inside = v.inside;
  counted = v.counted;
  fits = v.fits;
  held = v.held;
})
run-Holds (unsubscribes c ∷ xs) m es v = run-Holds xs (unsubscribe c m) es (record {
  whole = v.whole;
  inside = v.inside;
  counted = v.counted;
  fits = v.fits;
  held = v.held;
})

-- Whatever is pushed, and whoever subscribes or leaves, `Entries` returns the entries pushed last,
-- in order, as many as the capacity allows; before there are so many, all of them.
pub entries_of-run :
    (c : Option ℕ) (xs : List Event)
    → entries_of (run xs (new c)) ≡ some (latest (capacity_of c) (pushed xs))
unfolding new
entries_of-run c xs = entries_of-Holds (run xs (new c)) _ (run-Holds xs (new c) [] (new-Holds c))
