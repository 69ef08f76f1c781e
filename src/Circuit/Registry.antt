-- ===== src/Circuit/Registry.antt =====
-- The `Registry` of core/domain/circuit/breaker.go: one breaker for each route. The pointer that
-- `Get` returns and the map's entry are one object, so a call on it writes the entry.
use vyx.Base.{
  ℕ, ◌≡◌, refl, ◌∙◌, ap, Bool, List, [], ◌∷◌, none, some, arith, if◌then◌else◌, Text, Dict, lookup,
  insert, delete, lookup-insert, lookup-delete, length, str_eq, str_eq_iff, str_eq_refl, inl, inr,
  Bool-cases,
}
use vyx.Circuit.{Config, Breaker, new, set_route_id, Call, step, run}

pub record Registry : Type 0 where
  pub breakers : Dict Breaker
  pub config : Config
  pub observed : Bool

unfoldable pub new_registry : Config → Bool → Registry
new_registry c observed = record { breakers = []; config = c; observed = observed }

fresh : Text → Registry → Breaker
fresh id r = set_route_id id (new r.config r.observed)

unfoldable pub get : Text → Registry → Registry × Breaker
unfolding fresh
get id r = elim (lookup id r.breakers) [
  | some b ↦ (r, b)
  | none ↦ (record r { breakers = insert id (fresh id r) r.breakers }, fresh id r)
]

unfoldable pub remove : Text → Registry → Registry
remove id r = record r { breakers = delete id r.breakers }

unfoldable pub count : Registry → ℕ
count r = length r.breakers

-- `registry.Get(id)` followed by a method of the breaker.
unfoldable pub call : Registry → Text × ℕ × Call → Registry
unfolding get
call r (id, now, c) =
    let (r', b) = get id r in record r' { breakers = insert id (step b (now, c)) r'.breakers }

unfoldable pub calls : Registry → List (Text × ℕ × Call) → Registry
calls r [] = r
calls r (c ∷ cs) = calls (call r c) cs

-- The breaker that a caller of `Get` sees.
abbrev pub breaker_of : Text → Registry → Breaker
breaker_of id r = (get id r).1

-- The calls that concern one route.
abbrev pub calls_of : Text → List (Text × ℕ × Call) → List (ℕ × Call)
calls_of id [] = []
calls_of id ((j, now, c) ∷ cs) = if str_eq j id then (now, c) ∷ calls_of id cs else calls_of id cs

-- A second `Get` returns the same breaker and changes nothing.
pub get-get : (id : Text) (r : Registry) → get id (get id r).0 ≡ ((get id r).0, (get id r).1)
unfolding get
get-get id r = ground (arith, lookup-insert id id (fresh id r) r.breakers, str_eq_refl id)

-- A call for one route is a step of its breaker, and of no other.
pub breaker_of-call :
    (id j : Text) (r : Registry) (now : ℕ) (c : Call)
    → breaker_of id (call r (j, now, c))
      ≡ (if str_eq j id then step (breaker_of id r) (now, c) else breaker_of id r)
unfolding call
breaker_of-call id j r now c = ground (
  arith,
  str_eq_iff j id,
  str_eq_refl id,
  lookup-insert j id (fresh j r) r.breakers,
  lookup-insert j id (step (fresh j r) (now, c)) (insert j (fresh j r) r.breakers),
  lookup-insert j id (step (breaker_of j r) (now, c)) r.breakers,
)

-- Routes do not influence one another: after any calls on any routes, the breaker of a route is
-- where its own calls alone would have brought it.
pub breaker_of-calls :
    (id : Text) (r : Registry) (cs : List (Text × ℕ × Call))
    → breaker_of id (calls r cs) ≡ run (breaker_of id r) (calls_of id cs)
unfolding calls run
breaker_of-calls id r [] = refl
breaker_of-calls id r ((j, now, c) ∷ cs) =
    let rest = breaker_of-calls id (call r (j, now, c)) cs in
    let one = breaker_of-call id j r now c in
    elim (Bool-cases (str_eq j id)) [
      | inl same ↦ rw same (rest ∙ ap (λ b. run b (calls_of id cs)) (rw same at one))
      | inr other ↦ rw other (rest ∙ ap (λ b. run b (calls_of id cs)) (rw other at one))
    ]

-- A removed route starts again with a new breaker, and no other route notices.
pub breaker_of-remove :
    (id j : Text) (r : Registry)
    → breaker_of id (remove j r)
      ≡ (if str_eq j id then set_route_id id (new r.config r.observed) else breaker_of id r)
unfolding get remove
breaker_of-remove id j r = ground (arith, str_eq_iff j id, lookup-delete j id r.breakers)
