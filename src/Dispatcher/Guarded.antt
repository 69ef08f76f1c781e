-- ===== src/Dispatcher/Guarded.antt =====
-- Under which conditions a request reaches a worker.
use vyx.Base.{
  ℕ, ◌<◌, ◌≡◌, ◌⊎◌, inl, inr, refl, sym, ap, subst, arith, Bool, true, false, ◌||◌, List, [], ◌∷◌,
  Option, none, some, Text, lit, length, Bool-cases, Option-cases, Any, str_eq, str_eq_iff, ap₂,
}
use vyx.Circuit.{allow}
use vyx.Circuit.Registry.{breaker_of}
use vyx.Drainer.{Drainer}
use vyx.Route.{RouteEntry, is_empty}
use vyx.Dispatcher.{
  Claims, Listener, member, GatewayRequest, World, Gateway, Outcome, header, Checked, passes,
  refuses, and_then, run_route_match_hooks, check_drain_status, drains, strip_bearer_prefix,
  has_required_role, validate_jwt, authorised, validate_schema, checks,
}
use vyx.Dispatcher.Sending.{dispatch_route, route_key}

-- The route and the request as the listeners leave them, where each lets the request go on.
unfoldable pub after_listeners :
    List Listener → RouteEntry → GatewayRequest → RouteEntry × GatewayRequest
after_listeners [] route req = (route, req)
after_listeners (l ∷ ls) route req = after_listeners ls (l req route).route (l req route).request

and_then-passes :
    (c : Checked) (f : RouteEntry → GatewayRequest → Checked) (t : RouteEntry) (r : GatewayRequest)
    → and_then c f ≡ passes t r
    → (s : RouteEntry) × (q : GatewayRequest) × (c ≡ passes s q) × (f s q ≡ passes t r)
and_then-passes (passes s q) f t r e = (s, q, refl, e)
and_then-passes (refuses o) f t r e = cc

abbrev pair_of : RouteEntry × GatewayRequest → Checked → RouteEntry × GatewayRequest
pair_of old (passes t r) = (t, r)
pair_of old (refuses o) = old

run_route_match_hooks-passes :
    (ls : List Listener) (route t : RouteEntry) (req r : GatewayRequest)
    → run_route_match_hooks ls route req ≡ passes t r
    → after_listeners ls route req ≡ (t, r)
unfolding run_route_match_hooks after_listeners
run_route_match_hooks-passes [] route t req r e = ap (pair_of (route, req)) e
run_route_match_hooks-passes (l ∷ ls) route t req r e =
    elim (Option-cases (l req route).early_response) [
      | inl n ↦
          run_route_match_hooks-passes ls (l req route).route t (l req route).request r (rw n at e)
      | inr (hit, h) ↦ let bad = rw h at e in cc bad
    ]

check_drain_status-passes :
    (d : Option Drainer) (route t : RouteEntry) (req r : GatewayRequest)
    → check_drain_status d route req ≡ passes t r
    → (drains d route.worker_id ≡ false) × (route ≡ t) × (req ≡ r)
unfolding check_drain_status
check_drain_status-passes d route t req r e = elim (Bool-cases (drains d route.worker_id)) [
  | inl yes' ↦ let bad = rw yes' at e in cc bad
  | inr no' ↦
      let pass : passes route req ≡ passes t r = rw no' at e in
      (no', ap (λ c. (pair_of (route, req) c).0) pass, ap (λ c. (pair_of (route, req) c).1) pass)
]

-- The caller has one of the roles of the route.
abbrev pub HasRole : Claims → RouteEntry → Type 0
HasRole c route = Any (λ r. Any (λ x. x ≡ r) c.roles) route.auth_roles

-- The route is open to all, or the token is valid and has one of the roles of the route.
abbrev pub Permitted : World → RouteEntry → GatewayRequest → Type 0
Permitted w route req =
    (route.auth_roles ≡ [])
    ⊎ ((c : Claims) × (w.jwt (strip_bearer_prefix (header (lit "Authorization") req)) ≡ some c)
        × HasRole c route)

pub member-Any : (r : Text) (xs : List Text) → member r xs ≡ true → Any (λ x. x ≡ r) xs
unfolding member
member-Any r [] h = cc h
member-Any r (x ∷ xs) h = elim (Bool-cases (str_eq x r)) [
  | inl e ↦ inl ((str_eq_iff x r).0 e)
  | inr e ↦ inr (member-Any r xs (rw e at h))
]

has_required_role-Any :
    (caller required : List Text)
    → has_required_role caller required ≡ true
    → Any (λ r. Any (λ x. x ≡ r) caller) required
unfolding has_required_role
has_required_role-Any caller [] h = cc h
has_required_role-Any caller (r ∷ rs) h = elim (Bool-cases (member r caller)) [
  | inl e ↦ inl (member-Any r caller e)
  | inr e ↦ inr (has_required_role-Any caller rs (rw e at h))
]

authorised-passes :
    (o : Option Claims) (route t : RouteEntry) (req r : GatewayRequest)
    → authorised o route req ≡ passes t r
    → (c : Claims) × (o ≡ some c) × HasRole c route × (t ≡ route) × (r.body ≡ req.body)
authorised-passes none route t req r e = cc
authorised-passes (some c) route t req r e =
    elim (Bool-cases (has_required_role c.roles route.auth_roles)) [
      | inl a ↦
          let pass : passes route (record req { claims = some c }) ≡ passes t r = rw a at e in
          let same = ap (pair_of (route, req)) pass in
          (
            c,
            refl,
            has_required_role-Any c.roles route.auth_roles a,
            sym (ap (λ x. x.0) same),
            sym (ap (λ x. x.1.body) same),
          )
      | inr b ↦ let bad = rw b at e in cc bad
    ]

no_roles : (rs : List Text) → is_empty rs ≡ true → rs ≡ []
no_roles [] h = refl
no_roles (r ∷ rs) h = cc h

validate_jwt-passes :
    (w : World) (route t : RouteEntry) (req r : GatewayRequest)
    → validate_jwt w route req ≡ passes t r
    → Permitted w route req × (t ≡ route) × (r.body ≡ req.body)
unfolding validate_jwt
validate_jwt-passes w route t req r e = elim (Bool-cases (is_empty route.auth_roles)) [
  | inl free ↦
      let pass : passes route req ≡ passes t r = rw free at e in
      let same = ap (pair_of (route, req)) pass in
      (
        inl (no_roles route.auth_roles free),
        sym (ap (λ x. x.0) same),
        sym (ap (λ x. x.1.body) same),
      )
  | inr closed' ↦ elim (Bool-cases (is_empty (header (lit "Authorization") req))) [
    | inl missing ↦ let bad = rw (closed', missing) at e in cc bad
    | inr given ↦
        let (c, valid, role, same, whole) =
          authorised-passes (w.jwt (strip_bearer_prefix (header (lit "Authorization") req))) route t
            req r (rw (closed', given) at e) in
        (inr (c, valid, role), same, whole)
  ]
]

abbrev pub fits_schema : World → RouteEntry → Text → Bool
fits_schema w route body =
    (is_empty route.validate || is_empty body) || w.schema route.validate body

validate_schema-passes :
    (w : World) (route t : RouteEntry) (req r : GatewayRequest)
    → validate_schema w route req ≡ passes t r
    → fits_schema w route req.body ≡ true
unfolding validate_schema
validate_schema-passes w route t req r e = ground arith

-- What the checks ask of a request that passes them.
abbrev pub Guarded : World → Option Drainer → RouteEntry × GatewayRequest → Type 0
Guarded w d (route, req) =
    (drains d route.worker_id ≡ false)
    × Permitted w route req
    × (fits_schema w route req.body ≡ true)

checks-Guarded :
    (w : World) (d : Option Drainer) (route t : RouteEntry) (req r : GatewayRequest)
    → checks w d route req ≡ passes t r
    → Guarded w d (after_listeners w.listeners route req)
unfolding checks
checks-Guarded w d route t req r e =
    let (t₁, q₁, h₁, e₁) = and_then-passes (run_route_match_hooks w.listeners route req) _ t r e in
    let (t₂, q₂, h₂, e₂) = and_then-passes (check_drain_status d t₁ q₁) _ t r e₁ in
    let (t₃, q₃, h₃, e₃) = and_then-passes (validate_jwt w t₂ q₂) _ t r e₂ in
    let (t₄, q₄, h₄, e₄) = and_then-passes (validate_schema w t₃ q₃) _ t r e₃ in
    let heard = run_route_match_hooks-passes w.listeners route t₁ req q₁ h₁ in
    let (awake, st, sq) = check_drain_status-passes d t₁ t₂ q₁ q₂ h₂ in
    let (permitted, same, body) = validate_jwt-passes w t₂ t₃ q₂ q₃ h₃ in
    let fits = validate_schema-passes w t₃ t₄ q₃ q₄ h₄ in
    let fits' : fits_schema w t₂ q₂.body ≡ true =
      subst (λ x. fits_schema w x q₂.body ≡ true) same
        (subst (λ b. fits_schema w t₃ b ≡ true) body fits) in
    let behind : Permitted w t₁ q₁ × (fits_schema w t₁ q₁.body ≡ true) =
      subst (λ x. Permitted w x.0 x.1 × (fits_schema w x.0 x.1.body ≡ true)) (pairs st sq)
        (permitted, fits') in
    subst (Guarded w d) (sym heard) (awake, behind.0, behind.1)
  where
    pairs :
        {t₁ t₂ : RouteEntry} {q₁ q₂ : GatewayRequest}
        → t₁ ≡ t₂
        → q₁ ≡ q₂
        → ◌≡◌ {A = RouteEntry × GatewayRequest} (t₂, q₂) (t₁, q₁)
    pairs a b = ap₂ (λ x y. (x, y)) (sym a) (sym b)

Checked-cases :
    (c : Checked)
    → ((t : RouteEntry) × (r : GatewayRequest) × (c ≡ passes t r))
      ⊎ ((o : Outcome) × (c ≡ refuses o))
Checked-cases (passes t r) = inl (t, r, refl)
Checked-cases (refuses o) = inr (o, refl)

pub unsent :
    (a b : Gateway) (x o : Outcome)
    → ◌≡◌ {A = Option (Gateway × Outcome)} (some (a, x)) (some (b, o))
    → length a.sends < length b.sends
    → ⊥
unsent a b x o e more =
    let same : a ≡ b = cc in let lengths = ap (λ g. length g.sends) same in omega arith

-- A request is sent to a worker only if the breaker of its route admits it and, with the request and
-- the route as the listeners leave them, the worker of the route is not draining, the route is open
-- to all or the request has a valid token with one of its roles, and its body, where there is one
-- and a schema for it, fits the schema. Hooks may change the request behind these checks.
pub dispatch_route-Guarded :
    (w : World) (now : ℕ) (route : RouteEntry) (req : GatewayRequest) (g g' : Gateway) (o : Outcome)
    → dispatch_route w now route req g ≡ some (g', o)
    → length g.sends < length g'.sends
    → ((allow now (breaker_of (route_key req route) g.circuit)).1 ≡ true)
      × Guarded w g.drainer (after_listeners w.listeners route req)
unfolding dispatch_route
dispatch_route-Guarded w now route req g g' o e more =
    elim (Bool-cases (allow now (breaker_of (route_key req route) g.circuit)).1) [
      | inl admitted ↦ elim (Checked-cases (checks w g.drainer route req)) [
        | inl (t, r, passed) ↦ (admitted, checks-Guarded w g.drainer route t req r passed)
        | inr (x, refused) ↦ absurd (unsent _ g' x o (rw (admitted, refused) at e) more)
      ]
      | inr rejected ↦ absurd (unsent _ g' _ o (rw rejected at e) more)
    ]
