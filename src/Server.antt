-- ===== src/Server.antt =====
-- The HTTP gateway of core/infrastructure/gateway/server.go, with the headers of
-- core/application/gateway/security_headers.go: the handler of plain requests around the rate
-- limiter and the dispatcher. `Env` is what it calls of the packages net, mime and strings, and how
-- it finds a client's address. A header that is set replaces the one of the same canonical name.
pub mod Replies
pub mod Sanitizing
pub mod Admission
pub mod Errors
use vyx.Base.{
  ℕ, zero, suc, ◌+◌, ◌*◌, ◌/◌, ◌^◌, Bool, true, false, ◌&&◌, ◌||◌, List, [], ◌∷◌, ◌++◌, Option,
  none, some, if◌then◌else◌, leb, ltb, ◌==◌, Text, lit, str_eq, Dict, lookup, insert, take, length,
}
use Prim.Native.String.{String}
use vyx.Dispatcher.{
  GatewayRequest, GatewayResponse, GatewayError, World, Gateway, Outcome, correlation, member,
  route_not_found, circuit_refuses, aborted, unauthorized, forbidden, schema_validation,
  hook_refuses, send_failed, receive_failed, upstream_timeout, worker_failed,
}
use vyx.Dispatcher.Sending.{dispatch}
use vyx.RateLimiter.{RateLimiter, allow_ip, allow_token}

abbrev pub max_header_value_len : ℕ
max_header_value_len = 4096

abbrev pub is_kept : ℕ → Bool
is_kept b = b == 9 || leb 32 b

unfoldable pub keep_bytes : Text → Text
keep_bytes [] = []
keep_bytes (b ∷ s) = let rest = keep_bytes s in if is_kept b then b ∷ rest else rest

unfoldable pub sanitize_header_value : Text → Text
sanitize_header_value value =
    keep_bytes
      (if ltb max_header_value_len (length value) then take max_header_value_len value else value)

-- A request as net/http hands it over, with the headers under their canonical names. The body is
-- what the connection gives, `none` where reading it fails.
pub record HttpRequest : Type 0 where
  pub method : Text
  pub path : Text
  pub headers : Dict (List Text)
  pub query : Dict (List Text)
  pub remote_addr : Text
  pub body : Option Text

pub data Body : Type 0 where
  bytes : Text → Body
  error_message : String → Body
  retry_after : ℕ → Body

pub record HttpResponse : Type 0 where
  pub status : ℕ
  pub headers : Dict Text
  pub body : Body

abbrev pub first_value : Option (List Text) → Text
first_value none = []
first_value (some []) = []
first_value (some (v ∷ vs)) = v

abbrev pub get_header : Text → HttpRequest → Text
get_header name r = first_value (lookup name r.headers)

-- The names of the errors that `writeError` asks for; a hook's error may wrap any of them.
pub data Sentinel : Type 0 where
  is_route_not_found is_unauthorized is_forbidden is_schema_validation : Sentinel
  is_payload_too_large is_upstream_timeout : Sentinel

pub record Env : Type 0 where
  pub equal_fold : Text → Text → Bool
  pub canonical : Text → Text
  pub split_host_port : Text → Option Text
  pub parse_media_type : Text → Option Text
  pub client_ip : HttpRequest → Text
  pub hook_error : Option Sentinel
  pub listener_error : Option Sentinel

pub record Server : Type 0 where
  pub gateway : Gateway
  pub limiter : RateLimiter
  pub max_body_bytes : ℕ

-- What a handler has done: passed the request to the WebSocket proxy, answered it, or panicked.
pub data Reply : Type 0 where
  to_websocket : Reply
  answered : HttpResponse → Reply
  panics : Reply

abbrev pub allowed_methods : List Text
allowed_methods =
    lit "GET"
    ∷ lit "POST"
    ∷ lit "PUT"
    ∷ lit "PATCH"
    ∷ lit "DELETE"
    ∷ lit "HEAD"
    ∷ lit "OPTIONS"
    ∷ []

abbrev pub json_type : Text
json_type = lit "application/json"

abbrev pub json_headers : Dict Text
json_headers = (lit "Content-Type", json_type) ∷ []

abbrev pub json_error : ℕ → String → HttpResponse
json_error code message = record {
  status = code;
  headers = json_headers;
  body = error_message message;
}

unfoldable pub check_method : HttpRequest → Option HttpResponse
check_method r =
    if member r.method allowed_methods then none else some (json_error 405 "method not allowed")

abbrev pub has_body : Text → Bool
has_body m = str_eq m (lit "POST") || str_eq m (lit "PUT") || str_eq m (lit "PATCH")

abbrev pub is_json : Option Text → Bool
is_json none = false
is_json (some t) = str_eq t json_type

unfoldable pub check_content_type : Env → HttpRequest → Option HttpResponse
check_content_type env r =
    let typed = is_json (env.parse_media_type (get_header (lit "Content-Type") r)) in
    if has_body r.method
    then (if typed
        then none
        else some (json_error 415 "unsupported media type, only application/json is accepted"))
    else none

-- `math.Ceil` of a wait in seconds.
abbrev pub ceil_seconds : ℕ → ℕ
ceil_seconds ns = (ns + 999_999_999) / 1_000_000_000

-- The header has the number in decimals.
abbrev pub too_many : (ℕ → Text) → ℕ → HttpResponse
too_many itoa wait = record {
  status = 429;
  headers = (lit "Retry-After", itoa (ceil_seconds wait)) ∷ json_headers;
  body = retry_after (ceil_seconds wait);
}

abbrev pub limited : (ℕ → Text) → Bool → ℕ → Option HttpResponse
limited itoa true wait = none
limited itoa false wait = some (too_many itoa wait)

-- The bucket of the token is asked only if the one of the address says yes.
-- Each bucket has its own draw.
unfoldable pub check_rate_limit :
    (ℕ → Text) → Env → ℕ × ℕ → ℕ → HttpRequest → RateLimiter → RateLimiter × Option HttpResponse
check_rate_limit itoa env draw now r l =
    let (l₁, ok₁, wait₁) = allow_ip env.split_host_port draw.0 now (env.client_ip r) l in
    let (l₂, ok₂, wait₂) = allow_token draw.1 now (get_header (lit "Authorization") r) l₁ in
    if ok₁ then (l₂, limited itoa ok₂ wait₂) else (l₁, some (too_many itoa wait₁))

abbrev pub within : ℕ → Option Text → Option Text
within most none = none
within most (some b) = if leb (length b) most then some b else none

unfoldable pub read_body : ℕ → HttpRequest → Option Text
read_body most r = within most r.body

-- The headers of `http.Error` are left out.
abbrev pub body_too_large : HttpResponse
body_too_large = record { status = 413; headers = []; body = bytes (lit "payload too large\n") }

abbrev pub with_first : (Text → Text) → Text → List Text → Dict Text → Dict Text
with_first f k [] m = m
with_first f k (v ∷ vs) m = insert k (f v) m

unfoldable pub first_values : (Text → Text) → Dict (List Text) → Dict Text
first_values f [] = []
first_values f ((k, vs) ∷ hs) = with_first f k vs (first_values f hs)

unfoldable pub build_gateway_request : Env → HttpRequest → Text → GatewayRequest
build_gateway_request env r body = record {
  method = r.method;
  path = r.path;
  headers = first_values sanitize_header_value r.headers;
  query = first_values (λ v. v) r.query;
  params = [];
  body = body;
  claims = none;
  client_ip = env.client_ip r;
}
