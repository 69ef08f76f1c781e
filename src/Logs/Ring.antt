-- ===== src/Logs/Ring.antt =====
-- The ring of the multiplexer against a list of the entries pushed last.
use vyx.Base.{
  ℕ, zero, suc, ◌+◌, ◌-◌, ◌≤◌, ◌<◌, ◌≡◌, ◌≢◌, refl, ap, arith, some, List, [], ◌∷◌, ◌++◌, length,
  get_elem?, drop, if◌then◌else◌, leb,
}
use vyx.Logs.{Entry, Multiplexer, set_at, push, subscribe, unsubscribe}

-- What callers may do, in any order.
pub data Event : Type 0 where
  pushes : Entry → Event
  subscribes : ℕ → Event
  unsubscribes : ℕ → Event

unfoldable pub step : Event → Multiplexer → Multiplexer
step (pushes e) m = push e m
step (subscribes c) m = subscribe c m
step (unsubscribes c) m = unsubscribe c m

unfoldable pub run : List Event → Multiplexer → Multiplexer
run [] m = m
run (x ∷ xs) m = run xs (step x m)

-- All entries that are pushed, in order.
abbrev pub pushed : List Event → List Entry
pushed [] = []
pushed (pushes e ∷ xs) = e ∷ pushed xs
pushed (subscribes c ∷ xs) = pushed xs
pushed (unsubscribes c ∷ xs) = pushed xs

-- The last `n` of some entries.
abbrev pub latest : ℕ → List Entry → List Entry
latest n es = drop (length es - n) es

-- The place `j` steps before `head`.
abbrev pub back : ℕ → ℕ → ℕ → ℕ
back size head j = if leb j head then head - j else head + size - j

pub record Holds (m : Multiplexer) (q : List Entry) : Type 0 where
  pub whole : length m.entries ≡ m.size
  pub inside : m.head < m.size
  pub counted : m.count ≡ length q
  pub fits : m.count ≤ m.size
  pub held :
      (i : ℕ) → i < m.count → get_elem? m.entries (back m.size m.head (m.count - i)) ≡ get_elem? q i

pub length-set_at : (i : ℕ) (e : Entry) (xs : List Entry) → length (set_at i e xs) ≡ length xs
length-set_at i e [] = refl
length-set_at zero e (x ∷ xs) = refl
length-set_at (suc i) e (x ∷ xs) = ap suc (length-set_at i e xs)

pub set_at_there :
    (i : ℕ) (e : Entry) (xs : List Entry) → i < length xs → get_elem? (set_at i e xs) i ≡ some e
set_at_there i e [] h = elim h [ ]
set_at_there zero e (x ∷ xs) h = refl
set_at_there (suc i) e (x ∷ xs) h = set_at_there i e xs (omega arith)

pub set_at_elsewhere :
    (i j : ℕ) (e : Entry) (xs : List Entry) → j ≢ i → get_elem? (set_at i e xs) j ≡ get_elem? xs j
set_at_elsewhere i j e [] h = refl
set_at_elsewhere zero zero e (x ∷ xs) h = absurd (h refl)
set_at_elsewhere zero (suc j) e (x ∷ xs) h = refl
set_at_elsewhere (suc i) zero e (x ∷ xs) h = refl
set_at_elsewhere (suc i) (suc j) e (x ∷ xs) h = set_at_elsewhere i j e xs (λ s. h (ap suc s))

pub get_elem?-before :
    (xs ys : List Entry) (i : ℕ) → i < length xs → get_elem? (xs ++ ys) i ≡ get_elem? xs i
get_elem?-before [] ys i h = elim h [ ]
get_elem?-before (x ∷ xs) ys zero h = refl
get_elem?-before (x ∷ xs) ys (suc i) h = get_elem?-before xs ys i (omega arith)

pub get_elem?-last : (xs : List Entry) (e : Entry) → get_elem? (xs ++ e ∷ []) (length xs) ≡ some e
get_elem?-last [] e = refl
get_elem?-last (x ∷ xs) e = get_elem?-last xs e

pub get_elem?-drop_one : (xs : List Entry) (i : ℕ) → get_elem? (drop 1 xs) i ≡ get_elem? xs (suc i)
get_elem?-drop_one [] i = refl
get_elem?-drop_one (x ∷ xs) i = refl

pub drop-within : (k : ℕ) (xs ys : List Entry) → k ≤ length xs → drop k (xs ++ ys) ≡ drop k xs ++ ys
drop-within zero xs ys h = refl
drop-within (suc k) [] ys h = elim h [ ]
drop-within (suc k) (x ∷ xs) ys h = drop-within k xs ys (omega arith)

pub drop_again : (k : ℕ) (xs : List Entry) → drop (suc k) xs ≡ drop 1 (drop k xs)
drop_again zero xs = refl
drop_again (suc k) [] = refl
drop_again (suc k) (x ∷ xs) = drop_again k xs

pub drop_next :
    (i : ℕ) (xs : List Entry) (e : Entry)
    → get_elem? xs i ≡ some e
    → drop i xs ≡ e ∷ drop (suc i) xs
drop_next i [] e h = cc
drop_next zero (x ∷ xs) e h = cc
drop_next (suc i) (x ∷ xs) e h = drop_next i xs e h
