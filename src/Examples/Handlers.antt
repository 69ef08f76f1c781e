-- ===== src/Examples/Handlers.antt =====
-- Requests to the HTTP gateway of core/infrastructure/gateway, with the tokens and schemas behind
-- it, and the manifest and the workers of its core.
use vyx.Base.{
  pos, inr, ℕ, ◌<◌, ◌≡◌, refl, arith, false, [], ◌∷◌, none, some, lit, Text, lookup, insert, str_eq,
  to_upper, All,
}
use vyx.Circuit.{Breaker, open_, allow}
use vyx.Circuit.Registry.{breaker_of, get, call}
use vyx.Drainer.{acquire, release, is_draining}
use vyx.RateLimiter
use vyx.RateLimiter.{RateLimiter, allow_key, allow_ip, allow_token, new_with_jitter}
use vyx.Route
use vyx.Route.{
  RouteMap, LookupResult, lookup_route, traverse, split_path, split, trim_left, trim_right,
  non_empty, new_route_map, build_trie, build_from, add_route,
}
use vyx.Dispatcher.{
  GatewayResponse, checks, run_route_match_hooks, check_drain_status, validate_jwt, validate_schema,
  run_pre_dispatch_hooks, run_hooks, strip_bearer_prefix, has_required_role, member,
}
use vyx.Dispatcher.Sending.{
  dispatch, dispatch_route, select_worker_for, send_and_receive, exchange_with, release_in_flight,
  received, recorded, run_after, track_active, route_key,
}
use vyx.Examples.Gateways.{world, gateway, orders, anonymous, probing}
use vyx.Server.{
  Env, HttpRequest, Server, check_method, check_content_type, check_rate_limit, read_body,
  build_gateway_request, first_values, sanitize_header_value, keep_bytes,
}
use vyx.Server.Replies.{handle, write_response}
use vyx.Server.Sanitizing.{CleanEntry, write_response-Clean}
use vyx.Server.Admission.{sent, Admitted, handle-Admitted}
use vyx.Server.Errors.{Masked, refused_as_500}

abbrev env : Env
env = record {
  equal_fold = str_eq;
  canonical = λ k. k;
  split_host_port = λ a. none;
  parse_media_type = λ t. some t;
  client_ip = λ r. r.remote_addr;
  hook_error = none;
  listener_error = none;
}

abbrev request : HttpRequest
request = record {
  method = lit "GET";
  path = lit "/o";
  headers = (lit "Authorization", lit "t" ∷ []) ∷ [];
  query = [];
  remote_addr = lit "10.0.0.1";
  body = some [];
}

abbrev server : Server
server = record {
  gateway = gateway;
  limiter = RateLimiter.new (pos 5) (pos 5) 60;
  max_body_bytes = 1024;
}

abbrev number : ℕ → Text
number n = lit "1"

reaches : sent server < sent (handle number world env (0, 0) 200 request server).0
unfolding handle check_method check_content_type check_rate_limit read_body build_gateway_request
    first_values sanitize_header_value keep_bytes member RateLimiter.new new_with_jitter allow_ip
    allow_token allow_key RateLimiter.allow dispatch lookup_route traverse split_path split
    trim_left trim_right non_empty new_route_map build_trie build_from add_route dispatch_route
    checks run_route_match_hooks check_drain_status validate_jwt validate_schema
    run_pre_dispatch_hooks run_hooks strip_bearer_prefix has_required_role is_draining lookup insert
    str_eq allow get call select_worker_for send_and_receive exchange_with release_in_flight
    received recorded run_after track_active acquire release Route.find_child Route.update_child
    to_upper
reaches = omega arith

handle-Admitted_example : Admitted world env (0, 0) 200 request server
handle-Admitted_example = handle-Admitted number world env (0, 0) 200 request server reaches

abbrev reply : GatewayResponse
reply = record {
  status_code = 200;
  headers = (lit "X-Next", 13 ∷ 10 ∷ lit "Set-Cookie: a") ∷ [];
  body = lit "ok";
  correlation_id = lit "1";
}

write_response-Clean_example : All CleanEntry (write_response env reply).headers
write_response-Clean_example =
    write_response-Clean env reply (record { kept = (inr (omega arith), tt); short = omega arith })

abbrev tripped : Breaker
tripped = record probing { state = open_; opened_at = 150 }

abbrev broken : Server
broken = record server {
  gateway = record gateway {
    circuit = record gateway.circuit { breakers = (lit "GET:/o", tripped) ∷ [] };
  };
}

shut : (allow 200 (breaker_of (route_key anonymous orders) broken.gateway.circuit)).1 ≡ false
unfolding allow get lookup str_eq
shut = refl

refused_as_500_example :
    Masked env request broken (dispatch_route world 200 orders anonymous broken.gateway) 503
refused_as_500_example = refused_as_500 env request broken world 200 orders anonymous shut
