-- ===== src/Dispatcher.antt =====
-- The pipeline of one request, core/application/gateway/dispatcher.go, with the types of
-- core/domain/gateway/types.go. `World` is what the code calls: the validators, the listeners and
-- hooks, JSON, and the transport with the worker behind it. The metrics and the log are left out, and
-- the clock is read once for each request.
pub mod Sending
pub mod Guarded
pub mod Balance
pub mod Probing
use vyx.Base.{
  ℕ, zero, suc, ◌+◌, Bool, true, false, ◌&&◌, ◌||◌, not, List, [], ◌∷◌, ◌++◌, Option, none, some,
  if◌then◌else◌, leb, ltb, ◌==◌, Text, lit, str_eq, Dict, lookup, insert, length, take, drop, ℤ,
  suc_ℤ, pred_ℤ, map,
}
use vyx.Circuit.{
  Breaker, State, closed, open_, half_open, Call, allows, succeeds, fails, allow, state_string,
}
use vyx.Circuit.Registry.{Registry, breaker_of, call}
use vyx.Route.{RouteEntry, RouteMap, LookupResult, lookup_route, is_empty}
use vyx.Framing.{Message}
use vyx.Drainer.{Drainer, is_draining, acquire, release}
use vyx.Pool.{Pool, Selected, selected, no_worker, index_panic, select_worker, add_active}
use vyx.Manager.{Manager, extract_prefix, set_pool}

pub record Claims : Type 0 where
  pub user_id : Text
  pub roles : List Text

pub record GatewayRequest : Type 0 where
  pub method : Text
  pub path : Text
  pub headers : Dict Text
  pub query : Dict Text
  pub params : Dict Text
  pub body : Text
  pub claims : Option Claims
  pub client_ip : Text

pub record GatewayResponse : Type 0 where
  pub status_code : ℕ
  pub headers : Dict Text
  pub body : Text
  pub correlation_id : Text

pub record WorkerResponse : Type 0 where
  pub status_code : ℕ
  pub headers : Dict Text
  pub body : Text
  pub correlation_id : Text

pub data GatewayError : Type 0 where
  route_not_found circuit_refuses aborted unauthorized forbidden schema_validation : GatewayError
  hook_refuses send_failed receive_failed upstream_timeout worker_failed : GatewayError

-- How an exchange with a worker goes; the Boolean says whether the deadline has passed.
pub data Exchange : Type 0 where
  send_fails : Exchange
  receive_fails : Bool → Exchange
  answers : Message → Exchange

-- What a listener leaves: the request and the route that its context points to, which it may have
-- changed, and an early response, if it gives one, with or without an error.
pub record Heard : Type 0 where
  pub request : GatewayRequest
  pub route : RouteEntry
  pub early_response : Option (GatewayResponse × Bool)

-- What a hook leaves: the request and its own copy of the route, which it may have changed, and
-- whether it lets the request pass.
pub record Hooked : Type 0 where
  pub request : GatewayRequest
  pub route : RouteEntry
  pub accepts : Bool

abbrev pub Listener : Type 0
Listener = GatewayRequest → RouteEntry → Heard

abbrev pub Hook : Type 0
Hook = GatewayRequest → RouteEntry → Hooked

-- A listener sets the error of its context only when it aborts, and leaves the fields of the context
-- that the dispatcher keeps for itself; what it puts into the metadata is not looked at.
pub record World : Type 0 where
  pub new_id : Text
  pub jwt : Text → Option Claims
  pub schema : Text → Text → Bool
  pub listeners : List Listener
  pub hooks : List Hook
  pub after : List (GatewayRequest → GatewayResponse → GatewayRequest × GatewayResponse)
  pub marshal : GatewayRequest → Text → Option Text
  pub unmarshal : Text → Option WorkerResponse
  pub exchange : Text → Text → Exchange

-- `sends` has the workers that were sent a request, the latest first.
pub record Gateway : Type 0 where
  pub routes : RouteMap
  pub circuit : Registry
  pub drainer : Option Drainer
  pub pool_mgr : Option Manager
  pub sends : List Text

-- What `Dispatch` returns, and the status code that its metrics see.
pub record Outcome : Type 0 where
  pub response : Option GatewayResponse
  pub error : Option GatewayError
  pub status : ℕ

abbrev pub failed : GatewayError → ℕ → Outcome
failed e status = record { response = none; error = some e; status = status }

abbrev pub header : Text → GatewayRequest → Text
header name req = elim (lookup name req.headers) [ some v ↦ v | none ↦ [] ]

abbrev pub correlation : Text
correlation = lit "X-Request-Id"

-- A check passes the route and the request on, as it leaves them, or ends the pipeline.
pub data Checked : Type 0 where
  passes : RouteEntry → GatewayRequest → Checked
  refuses : Outcome → Checked

abbrev pub and_then : Checked → (RouteEntry → GatewayRequest → Checked) → Checked
and_then (passes route req) next = next route req
and_then (refuses o) next = refuses o

abbrev pub early : GatewayRequest → GatewayResponse → Bool → Outcome
early req resp failed? = record {
  response = some (record resp { correlation_id = header correlation req });
  error = if failed? then some aborted else none;
  status = resp.status_code;
}

-- What a listener's answer does, where `next` runs the listeners behind it.
abbrev pub heard_by : (RouteEntry → GatewayRequest → Checked) → Heard → Checked
heard_by next h = elim h.early_response [
  | some (resp, failed?) ↦ refuses (early h.request resp failed?)
  | none ↦ next h.route h.request
]

unfoldable pub run_route_match_hooks : List Listener → RouteEntry → GatewayRequest → Checked
run_route_match_hooks [] route req = passes route req
run_route_match_hooks (l ∷ ls) route req = heard_by (run_route_match_hooks ls) (l req route)

abbrev pub drains : Option Drainer → Text → Bool
drains none id = false
drains (some d) id = is_draining id d

unfoldable pub check_drain_status : Option Drainer → RouteEntry → GatewayRequest → Checked
check_drain_status d route req =
    if drains d route.worker_id
    then refuses (record {
      response = some (record {
        status_code = 503;
        headers = (lit "Retry-After", lit "1") ∷ [];
        body = lit "{\"error\":\"worker draining\"}";
        correlation_id = header correlation req;
      });
      error = none;
      status = 503;
    })
    else passes route req

unfoldable pub strip_bearer_prefix : Text → Text
strip_bearer_prefix token =
    if ltb 7 (length token) && str_eq (take 7 token) (lit "Bearer ") then drop 7 token else token

unfoldable pub member : Text → List Text → Bool
member r [] = false
member r (x ∷ xs) = str_eq x r || member r xs

unfoldable pub has_required_role : List Text → List Text → Bool
has_required_role caller [] = false
has_required_role caller (r ∷ rs) = member r caller || has_required_role caller rs

abbrev pub authorised : Option Claims → RouteEntry → GatewayRequest → Checked
authorised none route req = refuses (failed unauthorized 401)
authorised (some c) route req =
    if has_required_role c.roles route.auth_roles
    then passes route (record req { claims = some c })
    else refuses (failed forbidden 403)

unfoldable pub validate_jwt : World → RouteEntry → GatewayRequest → Checked
validate_jwt w route req =
    let token = header (lit "Authorization") req in
    if is_empty route.auth_roles
    then passes route req
    else if is_empty token
    then refuses (failed unauthorized 401)
    else authorised (w.jwt (strip_bearer_prefix token)) route req

unfoldable pub validate_schema : World → RouteEntry → GatewayRequest → Checked
validate_schema w route req =
    if is_empty route.validate || is_empty req.body
    then passes route req
    else if w.schema route.validate req.body
    then passes route req
    else refuses (failed schema_validation 400)

-- The hooks share a copy of the route, which is not the dispatcher's.
unfoldable pub run_hooks : List Hook → RouteEntry → GatewayRequest → Option GatewayRequest
run_hooks [] route req = some req
run_hooks (h ∷ hs) route req =
    let left = h req route in
    let rest = run_hooks hs left.route left.request in if left.accepts then rest else none

abbrev pub hooked : RouteEntry → Option GatewayRequest → Checked
hooked route none = refuses (failed hook_refuses 400)
hooked route (some req) = passes route req

unfoldable pub run_pre_dispatch_hooks : List Hook → RouteEntry → GatewayRequest → Checked
run_pre_dispatch_hooks hs route req = hooked route (run_hooks hs route req)

-- The checks of `Dispatch` behind the breaker, in their order.
unfoldable pub checks : World → Option Drainer → RouteEntry → GatewayRequest → Checked
checks w d route req = and_then (run_route_match_hooks w.listeners route req) (λ t r.
    and_then (check_drain_status d t r) (λ t r.
      and_then (validate_jwt w t r)
        (λ t r. and_then (validate_schema w t r) (run_pre_dispatch_hooks w.hooks))))
