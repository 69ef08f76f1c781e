-- ===== src/Logs/Filters.antt =====
-- The filters of core/infrastructure/log/multiplexer.go and the sources of core/domain/log/source.go.
use vyx.Base.{
  ℕ, ◌≡◌, refl, arith, Bool, true, false, ◌||◌, Option, none, some, List, [], ◌∷◌, Text, lit,
  str_eq, to_upper, Dict, lookup, if◌then◌else◌, leb, Bool-cases, inl, inr, ◌≤◌,
}
use vyx.Redact.{is_prefix, index}
use vyx.Logs.{Entry}

abbrev pub where_holds : (Entry → Bool) → List Entry → List Entry
where_holds p [] = []
where_holds p (e ∷ es) = let rest = where_holds p es in if p e then e ∷ rest else rest

-- No filter, or "ALL".
abbrev pub takes_all : Text → Bool
takes_all [] = true
takes_all (b ∷ s) = str_eq (b ∷ s) (lit "ALL")

unfoldable pub filter_by_source : List Entry → Text → List Entry
filter_by_source es tag = if takes_all tag then es else where_holds (λ e. str_eq e.source tag) es

abbrev pub level_order : Dict ℕ
level_order = (lit "DEBUG", 0) ∷ (lit "INFO", 1) ∷ (lit "WARN", 2) ∷ (lit "ERROR", 3) ∷ []

abbrev pub at_least : Option ℕ → Option ℕ → Bool
at_least none m = true
at_least (some l) none = true
at_least (some l) (some m) = leb m l

unfoldable pub level_greater_or_equal : Text → Text → Bool
level_greater_or_equal level min =
    at_least (lookup (to_upper level) level_order) (lookup (to_upper min) level_order)

unfoldable pub filter_by_level : List Entry → Text → List Entry
filter_by_level es min =
    if takes_all min then es else where_holds (λ e. level_greater_or_equal e.level min) es

-- `strings.Contains` of a text that is not empty.
abbrev pub occurs : Text → Text → Bool
occurs word s = elim (index word s) [ none ↦ false | some i ↦ true ]

abbrev pub in_fields : Dict Text → Text → Bool
in_fields [] word = false
in_fields ((k, v) ∷ fs) word = occurs word v || in_fields fs word

unfoldable pub contains_field : Entry → Text → Bool
contains_field e word = occurs word e.message || occurs word e.raw || in_fields e.fields word

unfoldable pub filter_by_correlation_id : List Entry → Text → List Entry
filter_by_correlation_id es [] = es
filter_by_correlation_id es (b ∷ s) =
    where_holds (λ e. str_eq e.correlation_id (b ∷ s) || contains_field e (b ∷ s)) es

pub data Source : Type 0 where
  source_core : Source
  source_go : Source
  source_node : Source
  source_python : Source

unfoldable pub parse_source : Text → Source
parse_source [] = source_core
parse_source (b ∷ s) =
    if is_prefix (lit "node:") (b ∷ s)
    then source_node
    else if is_prefix (lit "go:") (b ∷ s)
    then source_go
    else if is_prefix (lit "python:") (b ∷ s)
    then source_python
    else source_go

unfoldable pub tag : Source → Text → Text
tag source_core worker_id = lit "CORE"
tag source_go worker_id = worker_id
tag source_node worker_id = worker_id
tag source_python worker_id = worker_id

filtered_twice :
    (p q : Entry → Bool)
    → ((e : Entry) → p e ≡ true → q e ≡ true)
    → (es : List Entry) → where_holds p (where_holds q es) ≡ where_holds p es
filtered_twice p q h [] = refl
filtered_twice p q h (e ∷ es) = elim (Bool-cases (q e)) [
  | inl k ↦ rw (k, filtered_twice p q h es) refl
  | inr k ↦ elim (Bool-cases (p e)) [
    | inl c ↦ cc (h e c)
    | inr c ↦ rw (k, c) (filtered_twice p q h es)
  ]
]

stricter :
    (l : Option ℕ) (a b : ℕ) → a ≤ b → at_least l (some b) ≡ true → at_least l (some a) ≡ true
stricter none a b h k = refl
stricter (some l) a b h k = ground arith

-- Where two levels are known, filtering by the lower one first does not change what the higher one
-- leaves.
pub filter_by_level_twice :
    (es : List Entry) (lo hi : Text) (a b : ℕ)
    → lookup (to_upper lo) level_order ≡ some a
    → lookup (to_upper hi) level_order ≡ some b
    → a ≤ b
    → takes_all hi ≡ false
    → filter_by_level (filter_by_level es lo) hi ≡ filter_by_level es hi
unfolding filter_by_level level_greater_or_equal
filter_by_level_twice es lo hi a b x y h n = elim (Bool-cases (takes_all lo)) [
  | inl k ↦ rw (k, n) refl
  | inr k ↦
      rw (k, n, x, y)
        (filtered_twice (λ e. at_least (lookup (to_upper e.level) level_order) (some b))
          (λ e. at_least (lookup (to_upper e.level) level_order) (some a))
          (λ e c. stricter (lookup (to_upper e.level) level_order) a b h c) es)
]
