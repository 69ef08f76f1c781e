-- ===== src/Dispatcher/Sending.antt =====
-- What `Dispatch` of core/application/gateway/dispatcher.go does with a request: the breaker, the
-- checks, the choice of a worker, the exchange with it, and the records of the result.
use vyx.Base.{
  ℕ, Bool, true, false, List, [], ◌∷◌, ◌++◌, Option, none, some, if◌then◌else◌, leb, ◌==◌, Text,
  lit, lookup, insert, ℤ, suc_ℤ, pred_ℤ,
}
use vyx.Circuit.{Breaker, Call, allows, succeeds, fails, allow, state_string}
use vyx.Circuit.Registry.{Registry, breaker_of, call}
use vyx.Route.{RouteEntry, LookupResult, lookup_route, is_empty}
use vyx.Framing.{Message}
use vyx.Drainer.{Drainer, acquire, release}
use vyx.Pool.{Pool, Selected, selected, no_worker, index_panic, select_worker, add_active}
use vyx.Manager.{Manager, extract_prefix, set_pool}
use vyx.Dispatcher.{
  GatewayRequest, GatewayResponse, WorkerResponse, route_not_found, circuit_refuses, send_failed,
  receive_failed, upstream_timeout, worker_failed, Exchange, send_fails, receive_fails, answers,
  World, Gateway, Outcome, failed, header, correlation, Checked, passes, refuses, checks,
}

-- The worker that the pool selects; `none` where the selection faults.
abbrev pub chosen : Selected → Text → Option Text
chosen (selected v) id = some v.id
chosen no_worker id = some id
chosen index_panic id = none

abbrev pub select_in : RouteEntry → Manager → Option Pool → Option Manager × Option Text
select_in route m none = (some m, some route.worker_id)
select_in route m (some p) =
    let (p', s) = select_worker p in
    (some (set_pool (extract_prefix route.worker_id) p' m), chosen s route.worker_id)

unfoldable pub select_worker_for : RouteEntry → Option Manager → Option Manager × Option Text
select_worker_for route none = (none, some route.worker_id)
select_worker_for route (some m) =
    select_in route m (lookup (extract_prefix route.worker_id) m.pools)

abbrev pub add_active_in : (ℤ → ℤ) → Text → Manager → Option Pool → Option Manager
add_active_in f id m none = some m
add_active_in f id m (some p) = some (set_pool (extract_prefix id) (add_active f id p) m)

unfoldable pub track_active : (ℤ → ℤ) → Text → Option Manager → Option Manager
track_active f id none = none
track_active f id (some m) = add_active_in f id m (lookup (extract_prefix id) m.pools)

abbrev pub acquired : Text → Option Drainer → Option Drainer
acquired id none = none
acquired id (some d) = some (acquire id d)

-- `none` is the panic of `Release`.
abbrev pub released_from : Option Drainer → Option (Option Drainer)
released_from none = none
released_from (some d) = some (some d)

-- `releaseInFlight`, with the worker that the context of the request names.
unfoldable pub release_in_flight : Text → Option Drainer → Option (Option Drainer)
release_in_flight id none = some none
release_in_flight id (some d) = if is_empty id then some (some d) else released_from (release id d)

-- What `sendAndReceive` returns, and whether it records a failure.
pub data Sent : Type 0 where
  decoded : WorkerResponse → Sent
  ended : Outcome → Bool → Sent

abbrev pub or_200 : WorkerResponse → WorkerResponse
or_200 r = if r.status_code == 0 then record r { status_code = 200 } else r

abbrev pub decode_worker_response : World → Text → Message → Sent
decode_worker_response w corr msg = elim (w.unmarshal msg.payload) [
  | some r ↦ decoded (or_200 r)
  | none ↦
      ended
        (record {
          response = some (record {
            status_code = 200;
            headers = [];
            body = msg.payload;
            correlation_id = corr;
          });
          error = none;
          status = 0;
        })
        false
]

abbrev pub worker_error : Text → Message → Outcome
worker_error corr msg = record {
  response =
      some (record { status_code = 502; headers = []; body = msg.payload; correlation_id = corr });
  error = some worker_failed;
  status = 502;
}

unfoldable pub received : World → Text → Exchange → Sent
received w corr send_fails = ended (failed send_failed 502) true
received w corr (receive_fails late) =
    ended (if late then failed upstream_timeout 504 else failed receive_failed 502) true
received w corr (answers msg) =
    if msg.type == 4 then ended (worker_error corr msg) true else decode_worker_response w corr msg

abbrev pub or_text : Text → Text → Text
or_text id fallback = if is_empty id then fallback else id

unfoldable pub run_after :
    List (GatewayRequest → GatewayResponse → GatewayRequest × GatewayResponse)
    → GatewayRequest
    → GatewayResponse
    → GatewayResponse
run_after [] req resp = resp
run_after (h ∷ hs) req resp = let (q, r) = h req resp in run_after hs q r

-- `corr` is the correlation ID that the request came with.
abbrev pub process_worker_response : World → Text → GatewayRequest → WorkerResponse → Outcome
process_worker_response w corr req r = record {
  response = some (
      run_after w.after req (record {
        status_code = r.status_code;
        headers = r.headers;
        body = r.body;
        correlation_id = or_text r.correlation_id corr;
      }));
  error = none;
  status = r.status_code;
}

-- `recordCircuitBreakerResult`.
abbrev pub result_of : ℕ → Call
result_of status = if leb 500 status then fails else succeeds

-- The breaker's record of an exchange, if it gets one.
unfoldable pub recorded : Text → ℕ → Sent → Registry → Registry
recorded key now (decoded r) reg = call reg (key, now, result_of r.status_code)
recorded key now (ended o true) reg = call reg (key, now, fails)
recorded key now (ended o false) reg = reg

abbrev pub outcome_of : World → Text → GatewayRequest → Sent → Outcome
outcome_of w corr req (decoded r) = process_worker_response w corr req r
outcome_of w corr req (ended o b) = o

abbrev pub finished : Option (Option Drainer) → Gateway → Outcome → Option (Gateway × Outcome)
finished none g o = none
finished (some d) g o = some (record g { drainer = d }, o)

-- `sendAndReceive` for the worker with this ID, behind the building of the payload, and what
-- `Dispatch` does with its result.
unfoldable pub exchange_with :
    World → ℕ → Text → Text → Text → Text → GatewayRequest → Gateway → Option (Gateway × Outcome)
exchange_with w now key corr id payload req g =
    let sent = received w (header correlation req) (w.exchange id payload) in
    let during = track_active suc_ℤ id g.pool_mgr in
    finished (release_in_flight id (acquired id g.drainer))
      (record g {
        circuit = recorded key now sent g.circuit;
        pool_mgr = track_active pred_ℤ id during;
        sends = id ∷ g.sends;
      })
      (outcome_of w corr req sent)

abbrev pub unmarshalled : Outcome
unmarshalled = record { response = none; error = none; status = 500 }

abbrev pub send_to :
    World
    → ℕ
    → Text
    → Text
    → Text
    → GatewayRequest
    → Gateway
    → Option Text
    → Option (Gateway × Outcome)
send_to w now key corr id req g none = some (g, unmarshalled)
send_to w now key corr id req g (some payload) = exchange_with w now key corr id payload req g

abbrev pub send_chosen :
    World
    → ℕ
    → Text
    → Text
    → RouteEntry
    → GatewayRequest
    → Gateway
    → Option Text
    → Option (Gateway × Outcome)
send_chosen w now key corr route req g none = none
send_chosen w now key corr route req g (some id) =
    send_to w now key corr (or_text id route.worker_id) req g
      (w.marshal req (header correlation req))

unfoldable pub send_and_receive :
    World → ℕ → Text → Text → RouteEntry → GatewayRequest → Gateway → Option (Gateway × Outcome)
send_and_receive w now key corr route req g =
    let (m, id) = select_worker_for route g.pool_mgr in
    send_chosen w now key corr route req (record g { pool_mgr = m }) id

abbrev pub after_checks : World → ℕ → Text → Text → Gateway → Checked → Option (Gateway × Outcome)
after_checks w now key corr g (refuses o) = some (g, o)
after_checks w now key corr g (passes route req) = send_and_receive w now key corr route req g

abbrev pub circuit_open : Breaker → GatewayRequest → Outcome
circuit_open b req = record {
  response = some (record {
    status_code = 503;
    headers = (lit "Retry-After", lit "30") ∷ [];
    body =
        lit "{\"error\":\"circuit breaker open\",\"state\":\""
        ++ lit (state_string b.state)
        ++ lit "\"}";
    correlation_id = header correlation req;
  });
  error = some circuit_refuses;
  status = 503;
}

abbrev pub route_key : GatewayRequest → RouteEntry → Text
route_key req route = req.method ++ b':' ∷ route.path

-- `Dispatch` behind the lookup. The breaker is asked before anything else of the request is looked
-- at.
unfoldable pub dispatch_route :
    World → ℕ → RouteEntry → GatewayRequest → Gateway → Option (Gateway × Outcome)
dispatch_route w now route req g =
    let key = route_key req route in
    let asked = record g { circuit = call g.circuit (key, now, allows) } in
    let checked =
      after_checks w now key (header correlation req) asked (checks w g.drainer route req) in
    if (allow now (breaker_of key g.circuit)).1
    then checked
    else some (asked, circuit_open (breaker_of key asked.circuit) req)

abbrev pub with_correlation : World → GatewayRequest → GatewayRequest
with_correlation w req = record req {
  headers = insert correlation (or_text (header correlation req) w.new_id) req.headers;
}

abbrev pub dispatch_found :
    World → ℕ → GatewayRequest → Gateway → Option LookupResult → Option (Gateway × Outcome)
dispatch_found w now req g none =
    some (g, record { response = none; error = some route_not_found; status = 0 })
dispatch_found w now req g (some found) =
    dispatch_route w now found.entry (record req { params = found.params }) g

unfoldable pub dispatch : World → ℕ → GatewayRequest → Gateway → Option (Gateway × Outcome)
dispatch w now req g =
    let req' = with_correlation w req in
    dispatch_found w now req' g (lookup_route req.method req.path g.routes)
