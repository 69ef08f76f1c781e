-- ===== src/Examples/Gateways.antt =====
-- A gateway of core/application/gateway/dispatcher.go with one route that asks for a role, and a
-- client without a token.
use vyx.Base.{
  subst, ap, ◌+◌, ◌≤◌, ◌<◌, ◌≡◌, refl, arith, true, false, none, some, [], ◌∷◌, lit, str_eq, lookup,
  insert, length,
}
use vyx.Circuit.{Breaker, half_open, allow}
use vyx.Circuit.Registry.{breaker_of, call, get}
use vyx.Drainer.{acquire, release, is_draining}
use vyx.Route.{RouteEntry, new_route_map}
use vyx.Dispatcher.{
  GatewayRequest, WorkerResponse, unauthorized, answers, World, Gateway, Outcome, failed, refuses,
  checks, run_route_match_hooks, check_drain_status, validate_jwt, validate_schema,
  run_pre_dispatch_hooks, run_hooks, Checked, passes, strip_bearer_prefix, has_required_role,
  member,
}
use vyx.Dispatcher.Sending.{
  route_key, dispatch_route, select_worker_for, send_and_receive, exchange_with, release_in_flight,
  received, recorded, run_after, track_active,
}
use vyx.Dispatcher.Guarded.{after_listeners, Guarded, dispatch_route-Guarded}
use vyx.Dispatcher.Balance.{Balanced, Chooses, dispatch_route-Balanced}
use vyx.Dispatcher.Probing.{repeated, refused_probes}

abbrev pub orders : RouteEntry
orders = record {
  path = lit "/o";
  method = lit "GET";
  worker_id = lit "w";
  auth_roles = lit "admin" ∷ [];
  validate = [];
  type = [];
}

abbrev pub anonymous : GatewayRequest
anonymous = record {
  method = lit "GET";
  path = lit "/o";
  headers = [];
  query = [];
  params = [];
  body = [];
  claims = none;
  client_ip = [];
}

abbrev admin : GatewayRequest
admin = record anonymous { headers = (lit "Authorization", lit "t") ∷ [] }

abbrev done : WorkerResponse
done = record { status_code = 200; headers = []; body = lit "ok"; correlation_id = [] }

abbrev pub world : World
world = record {
  new_id = lit "1";
  jwt = λ t. some (record { user_id = lit "u"; roles = lit "admin" ∷ [] });
  schema = λ s b. true;
  listeners = [];
  hooks =
      (λ r t. record { request = record r { body = lit "{}" }; route = t; accepts = true }) ∷ [];
  after = [];
  marshal = λ r c. some (lit "{}");
  unmarshal = λ t. some done;
  exchange = λ id p. answers (record { type = 2; payload = lit "{}" });
}

abbrev pub probing : Breaker
probing = record {
  failures = 3;
  state = half_open;
  last_failure = 7;
  opened_at = 7;
  half_open_probes = 0;
  route_id = lit "GET:/o";
  config = record { failures = 3; cooldown = 100; half_open_max = 2 };
  observed = false;
  changes = [];
}

abbrev pub gateway : Gateway
gateway = record {
  routes = new_route_map (orders ∷ []);
  circuit = record {
    breakers = (lit "GET:/o", probing) ∷ [];
    config = probing.config;
    observed = false;
  };
  drainer = some (record { inflight = []; draining = [] });
  pool_mgr = none;
  sends = [];
}

-- No listener changes the route, so that it names its worker.
gateway-Chooses :
    (t : RouteEntry) (r : GatewayRequest)
    → checks world gateway.drainer orders admin ≡ passes t r
    → Chooses gateway t
unfolding checks run_route_match_hooks check_drain_status validate_jwt validate_schema
    run_pre_dispatch_hooks run_hooks strip_bearer_prefix has_required_role member is_draining lookup
    str_eq select_worker_for
gateway-Chooses t r e = subst (Chooses gateway) (ap (route_of orders) e) (refl, lit "w", refl)
  where
    route_of : RouteEntry → Checked → RouteEntry
    route_of old (passes t r) = t
    route_of old (refuses o) = old

dispatch_route-Balanced_example :
    Balanced (lit "w") gateway.drainer (dispatch_route world 200 orders admin gateway)
dispatch_route-Balanced_example =
    dispatch_route-Balanced world 200 orders admin gateway (lit "w") gateway-Chooses

refused : checks world gateway.drainer orders anonymous ≡ refuses (failed unauthorized 401)
unfolding checks run_route_match_hooks check_drain_status validate_jwt is_draining lookup str_eq
refused = refl

half : (breaker_of (route_key anonymous orders) gateway.circuit).state ≡ half_open
unfolding get lookup str_eq
half = refl

enough :
    (breaker_of (route_key anonymous orders) gateway.circuit).config.half_open_max
    ≤ (breaker_of (route_key anonymous orders) gateway.circuit).half_open_probes + 2
unfolding get lookup str_eq
enough = omega arith

refused_probes_example :
    (allow 900 (
      breaker_of
        (route_key anonymous orders)
        (repeated world orders anonymous gateway (200 ∷ 201 ∷ [])).circuit)).1
    ≡ false
refused_probes_example =
    refused_probes world orders anonymous gateway (failed unauthorized 401) (200 ∷ 201 ∷ []) 900
      refused half enough

-- What the gateway becomes by the admin's request.
after_admin :
    (g : Gateway) × (o : Outcome) × (dispatch_route world 200 orders admin gateway ≡ some (g, o))
    × (length gateway.sends < length g.sends)
unfolding dispatch_route checks run_route_match_hooks check_drain_status validate_jwt
    validate_schema run_pre_dispatch_hooks run_hooks strip_bearer_prefix has_required_role member
    is_draining lookup insert str_eq allow get call select_worker_for send_and_receive exchange_with
    release_in_flight received recorded run_after track_active acquire release
after_admin = (_, _, refl, omega arith)

dispatch_route-Guarded_example :
    ((allow 200 (breaker_of (route_key admin orders) gateway.circuit)).1 ≡ true)
    × Guarded world gateway.drainer (after_listeners world.listeners orders admin)
dispatch_route-Guarded_example =
    dispatch_route-Guarded world 200 orders admin gateway after_admin.0 after_admin.1 after_admin.2
      after_admin.3
