-- ===== src/Dispatcher/Probing.antt =====
-- Requests that are refused behind the breaker, and what they do to it.
use vyx.Base.{
  ℕ, ◌+◌, ◌≤◌, ◌≡◌, refl, sym, ◌∙◌, ap, subst, false, List, [], ◌∷◌, Option, none, some,
  str_eq_refl, inl, inr, Bool-cases, length,
}
use vyx.Circuit.{half_open, allows, allow, step, run}
use vyx.Circuit.Registry.{breaker_of, call, breaker_of-call}
use vyx.Circuit.Probes.{allows_at, run-Spent, allow-Spent}
use vyx.Route.{RouteEntry}
use vyx.Dispatcher.{GatewayRequest, World, Gateway, Outcome, refuses, checks}
use vyx.Dispatcher.Sending.{route_key, dispatch_route}

abbrev pub gateway_of : Gateway → Option (Gateway × Outcome) → Gateway
gateway_of g none = g
gateway_of g (some (g', o)) = g'

-- One request, again and again, at the given times.
unfoldable pub repeated : World → RouteEntry → GatewayRequest → Gateway → List ℕ → Gateway
repeated w route req g [] = g
repeated w route req g (t ∷ ts) =
    repeated w route req (gateway_of g (dispatch_route w t route req g)) ts

-- The request has asked the breaker, and done nothing else.
abbrev asked : ℕ → RouteEntry → GatewayRequest → Gateway → Gateway
asked t route req g = record g { circuit = call g.circuit (route_key req route, t, allows) }

refused_step :
    (w : World) (t : ℕ) (route : RouteEntry) (req : GatewayRequest) (g : Gateway) (o : Outcome)
    → checks w g.drainer route req ≡ refuses o
    → gateway_of g (dispatch_route w t route req g) ≡ asked t route req g
unfolding dispatch_route
refused_step w t route req g o e =
    elim (Bool-cases (allow t (breaker_of (route_key req route) g.circuit)).1) [
      | inl a ↦ rw (a, e) refl
      | inr b ↦ rw b refl
    ]

breaker_of-asked :
    (t : ℕ) (route : RouteEntry) (req : GatewayRequest) (g : Gateway)
    → breaker_of (route_key req route) (asked t route req g).circuit
      ≡ step (breaker_of (route_key req route) g.circuit) (t, allows)
breaker_of-asked t route req g =
    let key = route_key req route in
    rw (str_eq_refl key) at (breaker_of-call key key g.circuit t allows)

breaker_of-repeated :
    (w : World) (route : RouteEntry) (req : GatewayRequest) (g : Gateway) (o : Outcome)
    (ts : List ℕ)
    → checks w g.drainer route req ≡ refuses o
    → breaker_of (route_key req route) (repeated w route req g ts).circuit
      ≡ run (breaker_of (route_key req route) g.circuit) (allows_at ts)
unfolding repeated run
breaker_of-repeated w route req g o [] e = refl
breaker_of-repeated w route req g o (t ∷ ts) e =
    let key = route_key req route in
    ap (λ h. breaker_of key (repeated w route req h ts).circuit) (refused_step w t route req g o e)
    ∙ breaker_of-repeated w route req (asked t route req g) o ts e
    ∙ ap (λ b. run b (allows_at ts)) (breaker_of-asked t route req g)

-- One request that the checks refuse, sent as often as a half-open breaker has probes left, closes
-- its route: the breaker answers no at every later time.
pub refused_probes :
    (w : World) (route : RouteEntry) (req : GatewayRequest) (g : Gateway) (o : Outcome)
    (ts : List ℕ) (now : ℕ)
    → checks w g.drainer route req ≡ refuses o
    → (breaker_of (route_key req route) g.circuit).state ≡ half_open
    → (breaker_of (route_key req route) g.circuit).config.half_open_max
      ≤ (breaker_of (route_key req route) g.circuit).half_open_probes + length ts
    → (allow now (breaker_of (route_key req route) (repeated w route req g ts).circuit)).1 ≡ false
refused_probes w route req g o ts now e half enough =
    let b = breaker_of (route_key req route) g.circuit in
    let (still, spent) = run-Spent b ts half enough in
    subst (λ c. (allow now c).1 ≡ false) (sym (breaker_of-repeated w route req g o ts e))
      (allow-Spent (run b (allows_at ts)) now still spent)
