-- ===== src/Dispatcher/Balance.antt =====
-- What a request leaves behind in the drainer and in the breaker of its route.
use vyx.Base.{
  ℕ, ◌≡◌, refl, false, [], ◌∷◌, Option, none, some, Text, inl, inr, Bool-cases, Option-cases,
}
use vyx.Circuit.{allows, allow}
use vyx.Circuit.Registry.{breaker_of, call}
use vyx.Drainer.{Drainer, in_flight, release-acquire}
use vyx.Route.{RouteEntry, is_empty}
use vyx.Dispatcher.{
  GatewayRequest, World, Gateway, Outcome, header, correlation, Checked, passes, refuses, checks,
}
use vyx.Dispatcher.Sending.{
  select_worker_for, acquired, release_in_flight, exchange_with, send_chosen, or_text,
  send_and_receive, after_checks, route_key, dispatch_route,
}

abbrev pub flights : Text → Option Drainer → ℕ
flights j none = 0
flights j (some d) = in_flight j d

-- There is a result, and behind it the worker `j` has as many requests in flight as in `d`.
abbrev pub Balanced : Text → Option Drainer → Option (Gateway × Outcome) → Type 0
Balanced j d r =
    (g : Gateway) × (o : Outcome) × (r ≡ some (g, o)) × (flights j g.drainer ≡ flights j d)

release_in_flight-acquired :
    (id j : Text) (d : Option Drainer)
    → is_empty id ≡ false
    → (d' : Option Drainer) × (release_in_flight id (acquired id d) ≡ some d')
      × (flights j d' ≡ flights j d)
unfolding release_in_flight
release_in_flight-acquired id j none n = (none, refl, refl)
release_in_flight-acquired id j (some d) n =
    let (d', e, same) = release-acquire id j d in (some d', rw (n, e), same)

exchange_with-Balanced :
    (w : World) (now : ℕ) (key corr id payload j : Text) (req : GatewayRequest) (g : Gateway)
    → is_empty id ≡ false
    → Balanced j g.drainer (exchange_with w now key corr id payload req g)
unfolding exchange_with
exchange_with-Balanced w now key corr id payload j req g n =
    let (d', e, same) = release_in_flight-acquired id j g.drainer n in rw e (_, _, refl, same)

or_text_nonempty : (a b : Text) → is_empty b ≡ false → is_empty (or_text a b) ≡ false
or_text_nonempty [] b h = h
or_text_nonempty (x ∷ a) b h = refl

send_chosen-Balanced :
    (w : World) (now : ℕ) (key corr j id : Text) (route : RouteEntry) (req : GatewayRequest)
    (g : Gateway)
    → is_empty route.worker_id ≡ false
    → Balanced j g.drainer (send_chosen w now key corr route req g (some id))
send_chosen-Balanced w now key corr j id route req g n =
    elim (Option-cases (w.marshal req (header correlation req))) [
      | inl e ↦ rw e (_, _, refl, refl)
      | inr (payload, e) ↦ rw e (
          exchange_with-Balanced w now key corr (or_text id route.worker_id) payload j req g
            (or_text_nonempty id route.worker_id n))
    ]

-- The route names a worker, and the pool's choice for it does not fault.
abbrev pub Chooses : Gateway → RouteEntry → Type 0
Chooses g route =
    (is_empty route.worker_id ≡ false)
    × (id : Text) × ((select_worker_for route g.pool_mgr).1 ≡ some id)

after_checks-Balanced :
    (w : World) (now : ℕ) (key corr j : Text) (g : Gateway) (c : Checked)
    → ((t : RouteEntry) (r : GatewayRequest) → c ≡ passes t r → Chooses g t)
    → Balanced j g.drainer (after_checks w now key corr g c)
unfolding send_and_receive
after_checks-Balanced w now key corr j g (refuses o) h = (g, o, refl, refl)
after_checks-Balanced w now key corr j g (passes route req) h =
    let (n, id, s) = h route req refl in
    rw s (send_chosen-Balanced w now key corr j id route req _ n)

-- If the route that the listeners leave to a request names a worker and the choice for it does not
-- fault, the request gets a result, whatever checks, validators and workers answer, and each worker
-- has as many requests in flight behind it as before: each one that is acquired is released, on the
-- paths of errors too.
pub dispatch_route-Balanced :
    (w : World) (now : ℕ) (route : RouteEntry) (req : GatewayRequest) (g : Gateway) (j : Text)
    → ((t : RouteEntry) (r : GatewayRequest)
        → checks w g.drainer route req ≡ passes t r
        → Chooses g t)
    → Balanced j g.drainer (dispatch_route w now route req g)
unfolding dispatch_route
dispatch_route-Balanced w now route req g j h =
    let key = route_key req route in
    let asked = record g { circuit = call g.circuit (key, now, allows) } in
    elim (Bool-cases (allow now (breaker_of key g.circuit)).1) [
      | inl a ↦ rw a (
          after_checks-Balanced w now key (header correlation req) j asked
            (checks w g.drainer route req) h)
      | inr b ↦ rw b (_, _, refl, refl)
    ]
