-- ===== src/Server/Replies.antt =====
-- The answers of the gateway and the handler of plain requests,
-- core/infrastructure/gateway/server.go and core/application/gateway/security_headers.go.
use vyx.Base.{ℕ, Bool, [], ◌∷◌, Option, none, some, if◌then◌else◌, Text, lit, Dict, insert}
use Prim.Native.String.{String}
use vyx.Dispatcher.{
  GatewayResponse, GatewayError, World, Gateway, Outcome, correlation, route_not_found,
  circuit_refuses, aborted, unauthorized, forbidden, schema_validation, hook_refuses, send_failed,
  receive_failed, upstream_timeout, worker_failed,
}
use vyx.Dispatcher.Sending.{dispatch}
use vyx.RateLimiter.{RateLimiter}
use vyx.Server.{
  sanitize_header_value, get_header, json_type, check_method, check_content_type, check_rate_limit,
  read_body, body_too_large, build_gateway_request, HttpRequest, bytes, error_message, HttpResponse,
  Sentinel, is_route_not_found, is_unauthorized, is_forbidden, is_schema_validation,
  is_payload_too_large, is_upstream_timeout, Env, Server, Reply, to_websocket, answered, panics,
}

unfoldable pub security_headers : Dict Text
security_headers =
    (lit "X-Content-Type-Options", lit "nosniff")
    ∷ (lit "X-Frame-Options", lit "DENY")
    ∷ (lit "X-XSS-Protection", lit "1; mode=block")
    ∷ (lit "Strict-Transport-Security", lit "max-age=63072000; includeSubDomains")
    ∷ (lit "Referrer-Policy", lit "strict-origin-when-cross-origin")
    ∷ (lit "Content-Security-Policy", lit "default-src 'self'")
    ∷ (lit "Permissions-Policy", lit "geolocation=(), camera=(), microphone=(), payment=(), usb=()")
    ∷ []

-- `w.Header().Set` for each entry.
unfoldable pub set_all : (Text → Text) → (Text → Text) → Dict Text → Dict Text → Dict Text
set_all canonical f [] m = m
set_all canonical f ((k, v) ∷ hs) m = set_all canonical f hs (insert (canonical k) (f v) m)

abbrev pub set_if_given : Text → Dict Text → Dict Text
set_if_given [] m = m
set_if_given (b ∷ s) m = insert correlation (b ∷ s) m

unfoldable pub write_response : Env → GatewayResponse → HttpResponse
write_response env resp =
    let secured = set_all env.canonical (λ v. v) security_headers [] in
    let given = set_all env.canonical sanitize_header_value resp.headers secured in
    record {
      status = resp.status_code;
      headers = set_if_given resp.correlation_id (insert (lit "Content-Type") json_type given);
      body = bytes resp.body;
    }

-- Which of the known errors an error of the dispatcher is. That of the schema wraps only
-- ErrSchemaValidation, whose details are text by then.
unfoldable pub sentinel_of : Env → GatewayError → Option Sentinel
sentinel_of env route_not_found = some is_route_not_found
sentinel_of env circuit_refuses = none
sentinel_of env aborted = env.listener_error
sentinel_of env unauthorized = some is_unauthorized
sentinel_of env forbidden = some is_forbidden
sentinel_of env schema_validation = some is_schema_validation
sentinel_of env hook_refuses = env.hook_error
sentinel_of env send_failed = none
sentinel_of env receive_failed = none
sentinel_of env upstream_timeout = some is_upstream_timeout
sentinel_of env worker_failed = none

abbrev pub code_of : Option Sentinel → ℕ × String
code_of none = (500, "internal server error")
code_of (some is_route_not_found) = (404, "route not found")
code_of (some is_unauthorized) = (401, "unauthorized")
code_of (some is_forbidden) = (403, "forbidden")
code_of (some is_schema_validation) = (400, "validation failed")
code_of (some is_payload_too_large) = (413, "payload too large")
code_of (some is_upstream_timeout) = (504, "upstream timeout")

-- `handleDispatchError` and `writeError`, for an error without structured details.
unfoldable pub write_error : Env → HttpRequest → GatewayError → HttpResponse
write_error env r e =
    let (code, message) = code_of (sentinel_of env e) in
    record {
      status = code;
      headers = insert (lit "Content-Type") json_type (
          set_all env.canonical (λ v. v) security_headers
            (set_if_given (get_header correlation r) []));
      body = error_message message;
    }

-- An error goes first; without one, the response is read through its pointer.
abbrev pub reply_of : Env → HttpRequest → Option GatewayError → Option GatewayResponse → Reply
reply_of env r (some e) resp = answered (write_error env r e)
reply_of env r none none = panics
reply_of env r none (some resp) = answered (write_response env resp)

abbrev pub dispatched : Env → HttpRequest → Server → Option (Gateway × Outcome) → Server × Reply
dispatched env r s none = (s, panics)
dispatched env r s (some (g, o)) = (record s { gateway = g }, reply_of env r o.error o.response)

abbrev pub with_body : World → Env → ℕ → HttpRequest → Server → Option Text → Server × Reply
with_body w env now r s none = (s, answered body_too_large)
with_body w env now r s (some b) =
    dispatched env r s (dispatch w now (build_gateway_request env r b) s.gateway)

abbrev pub unless_refused : Option HttpResponse → Server → Server × Reply → Server × Reply
unless_refused none s next = next
unless_refused (some resp) s next = (s, answered resp)

abbrev pub is_websocket_upgrade : Env → HttpRequest → Bool
is_websocket_upgrade env r = env.equal_fold (get_header (lit "Upgrade") r) (lit "websocket")

abbrev pub rate_limited :
    World → Env → ℕ → HttpRequest → Server → RateLimiter × Option HttpResponse → Server × Reply
rate_limited w env now r s (l, refusal) =
    let s' = record s { limiter = l } in
    unless_refused refusal s' (
      unless_refused (check_content_type env r) s'
        (with_body w env now r s' (read_body s.max_body_bytes r)))

unfoldable pub handle : (ℕ → Text) → World → Env → ℕ × ℕ → ℕ → HttpRequest → Server → Server × Reply
handle itoa w env draw now r s =
    if is_websocket_upgrade env r
    then (s, to_websocket)
    else unless_refused (check_method r) s
        (rate_limited w env now r s (check_rate_limit itoa env draw now r s.limiter))
