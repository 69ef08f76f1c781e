-- ===== src/Server/Admission.antt =====
-- Under which conditions a request to the handler of core/infrastructure/gateway/server.go reaches a
-- worker.
use vyx.Base.{
  ℕ, ◌≤◌, ◌<◌, ◌≡◌, inl, inr, refl, arith, Bool, true, false, List, [], ◌∷◌, Any, ap, str_eq_iff,
  if◌then◌else◌, Option, none, some, Text, lit, length, Bool-cases,
}
use vyx.Route.{LookupResult, lookup_route}
use vyx.Dispatcher.{GatewayRequest, World, Gateway, Outcome, member}
use vyx.Dispatcher.Sending.{dispatch, dispatch_found, with_correlation}
use vyx.Dispatcher.Guarded.{after_listeners, Guarded, member-Any, unsent, dispatch_route-Guarded}
use vyx.RateLimiter.{RateLimiter, allow_ip, allow_token}
use vyx.Server.{
  Env, HttpRequest, HttpResponse, Server, Reply, allowed_methods, check_method, has_body, is_json,
  check_content_type, get_header, limited, check_rate_limit, within, read_body,
  build_gateway_request,
}
use vyx.Server.Replies.{
  dispatched, with_body, unless_refused, rate_limited, is_websocket_upgrade, handle,
}

abbrev pub sent : Server → ℕ
sent s = length s.gateway.sends

-- Both buckets of the limiter say yes.
pub record WithinLimits (env : Env) (draw : ℕ × ℕ) (now : ℕ) (r : HttpRequest) (l : RateLimiter)
    : Type 0 where
  pub address : (allow_ip env.split_host_port draw.0 now (env.client_ip r) l).1 ≡ true
  pub token :
      (allow_token draw.1 now
        (get_header (lit "Authorization") r)
        (allow_ip env.split_host_port draw.0 now (env.client_ip r) l).0).1
      ≡ true

-- The dispatcher finds a route and lets the request pass.
pub record Routed (w : World) (req : GatewayRequest) (g : Gateway) : Type 0 where
  pub found : LookupResult
  pub looked_up : lookup_route req.method req.path g.routes ≡ some found
  pub guarded : Guarded w g.drainer (
      after_listeners w.listeners found.entry
        (record (with_correlation w req) { params = found.params }))

-- A request that brings a body is said to be JSON.
abbrev pub Typed : Env → HttpRequest → Type 0
Typed env r =
    Any (λ m. m ≡ r.method) (lit "POST" ∷ lit "PUT" ∷ lit "PATCH" ∷ [])
    → env.parse_media_type (get_header (lit "Content-Type") r) ≡ some (lit "application/json")

abbrev methods : List Text
methods =
    lit "GET"
    ∷ lit "POST"
    ∷ lit "PUT"
    ∷ lit "PATCH"
    ∷ lit "DELETE"
    ∷ lit "HEAD"
    ∷ lit "OPTIONS"
    ∷ []

pub record Admitted (w : World) (env : Env) (draw : ℕ × ℕ) (now : ℕ) (r : HttpRequest) (s : Server)
    : Type 0 where
  pub plain : env.equal_fold (get_header (lit "Upgrade") r) (lit "websocket") ≡ false
  pub known_method : Any (λ m. m ≡ r.method) methods
  pub limits : WithinLimits env draw now r s.limiter
  pub typed : Typed env r
  pub body : Text
  pub whole : r.body ≡ some body
  pub small : length body ≤ s.max_body_bytes
  pub routed : Routed w (build_gateway_request env r body) s.gateway

check_content_type-Typed :
    (env : Env) (r : HttpRequest) → check_content_type env r ≡ none → Typed env r
unfolding check_content_type
check_content_type-Typed env r e given =
    let media = env.parse_media_type (get_header (lit "Content-Type") r) in
    let brings : has_body r.method ≡ true = brings_body given in
    named_json media (refused_unless (is_json media) _ (rw brings at e))
  where
    brings_body :
        Any (λ m. m ≡ r.method) (lit "POST" ∷ lit "PUT" ∷ lit "PATCH" ∷ [])
        → has_body r.method ≡ true
    brings_body h = ground (
      arith,
      str_eq_iff r.method (lit "POST"),
      str_eq_iff r.method (lit "PUT"),
      str_eq_iff r.method (lit "PATCH"),
    )

    refused_unless : (b : Bool) (x : HttpResponse) → (if b then none else some x) ≡ none → b ≡ true
    refused_unless true x h = refl
    refused_unless false x h = cc h

    named_json : (o : Option Text) → is_json o ≡ true → o ≡ some (lit "application/json")
    named_json none h = cc h
    named_json (some t) h = ap some ((str_eq_iff t (lit "application/json")).0 h)

passed :
    (o : Option HttpResponse) (s : Server) (next : Server × Reply)
    → sent s < sent (unless_refused o s next).0
    → (o ≡ none) × (sent s < sent next.0)
passed none s next h = (refl, h)
passed (some resp) s next h = absurd (omega arith)

dispatch_found-Guarded :
    (w : World) (now : ℕ) (req : GatewayRequest) (g g' : Gateway) (o : Outcome)
    (f : Option LookupResult)
    → dispatch_found w now req g f ≡ some (g', o)
    → length g.sends < length g'.sends
    → (x : LookupResult) × (f ≡ some x)
      × Guarded w g.drainer (after_listeners w.listeners x.entry (record req { params = x.params }))
dispatch_found-Guarded w now req g g' o none e more = absurd (unsent g g' _ o e more)
dispatch_found-Guarded w now req g g' o (some x) e more = (
  x,
  refl,
  (dispatch_route-Guarded w now x.entry (record req { params = x.params }) g g' o e more).1,
)

dispatch-Routed :
    (w : World) (now : ℕ) (req : GatewayRequest) (g g' : Gateway) (o : Outcome)
    → dispatch w now req g ≡ some (g', o)
    → length g.sends < length g'.sends
    → Routed w req g
unfolding dispatch
dispatch-Routed w now req g g' o e more =
    let (x, hit, ok) =
      dispatch_found-Guarded w now (with_correlation w req) g g' o
        (lookup_route req.method req.path g.routes) e more in
    record { found = x; looked_up = hit; guarded = ok }

dispatched-some :
    (env : Env) (r : HttpRequest) (s : Server) (d : Option (Gateway × Outcome))
    → sent s < sent (dispatched env r s d).0
    → (g : Gateway) × (o : Outcome) × (d ≡ some (g, o)) × (length s.gateway.sends < length g.sends)
dispatched-some env r s none h = absurd (omega arith)
dispatched-some env r s (some (g, o)) h = (g, o, refl, h)

with_body-Routed :
    (w : World) (env : Env) (now : ℕ) (r : HttpRequest) (s : Server) (b : Option Text)
    → sent s < sent (with_body w env now r s b).0
    → (t : Text) × (b ≡ some t) × Routed w (build_gateway_request env r t) s.gateway
with_body-Routed w env now r s none h = absurd (omega arith)
with_body-Routed w env now r s (some t) h =
    let (g, o, e, more) =
      dispatched-some env r s (dispatch w now (build_gateway_request env r t) s.gateway) h in
    (t, refl, dispatch-Routed w now (build_gateway_request env r t) s.gateway g o e more)

within-some :
    (most : ℕ) (b : Option Text) (t : Text)
    → within most b ≡ some t
    → (b ≡ some t) × (length t ≤ most)
within-some most none t e = cc
within-some most (some b) t e = ground arith

limited-none : (itoa : ℕ → Text) (b : Bool) (n : ℕ) → limited itoa b n ≡ none → b ≡ true
limited-none itoa true n e = refl
limited-none itoa false n e = cc

check_rate_limit-none :
    (itoa : ℕ → Text) (env : Env) (draw : ℕ × ℕ) (now : ℕ) (r : HttpRequest) (l : RateLimiter)
    → (check_rate_limit itoa env draw now r l).1 ≡ none
    → WithinLimits env draw now r l
unfolding check_rate_limit
check_rate_limit-none itoa env draw now r l e =
    elim (Bool-cases (allow_ip env.split_host_port draw.0 now (env.client_ip r) l).1) [
      | inl yes' ↦ record { address = yes'; token = limited-none itoa _ _ (rw yes' at e) }
      | inr no' ↦ let bad = rw no' at e in cc bad
    ]

rate_limited-Admitted :
    (itoa : ℕ → Text) (w : World) (env : Env) (draw : ℕ × ℕ) (now : ℕ) (r : HttpRequest)
    (s : Server)
    → is_websocket_upgrade env r ≡ false
    → member r.method allowed_methods ≡ true
    → sent s < sent (rate_limited w env now r s (check_rate_limit itoa env draw now r s.limiter)).0
    → Admitted w env draw now r s
unfolding read_body
rate_limited-Admitted itoa w env draw now r s p k more =
    let limiting = check_rate_limit itoa env draw now r s.limiter in
    let s' = record s { limiter = limiting.0 } in
    let (free, more₁) = passed limiting.1 s' _ more in
    let (json, more₂) = passed (check_content_type env r) s' _ more₁ in
    let (t, read, routed) = with_body-Routed w env now r s' (read_body s.max_body_bytes r) more₂ in
    let (whole, small) = within-some s.max_body_bytes r.body t read in
    record {
      plain = p;
      known_method = member-Any r.method allowed_methods k;
      limits = check_rate_limit-none itoa env draw now r s.limiter free;
      typed = check_content_type-Typed env r json;
      body = t;
      whole = whole;
      small = small;
      routed = routed;
    }

-- A request that is not an upgrade to WebSocket is sent to a worker only if its method is known,
-- the buckets of its address and of its token admit it, its media type is JSON where its method is
-- POST, PUT or PATCH, its whole body is within the limit, its route is found, and the two, as the
-- proxy listeners leave them, pass the checks of the dispatcher; no upgrade is sent by this handler.
pub handle-Admitted :
    (itoa : ℕ → Text) (w : World) (env : Env) (draw : ℕ × ℕ) (now : ℕ) (r : HttpRequest)
    (s : Server)
    → sent s < sent (handle itoa w env draw now r s).0
    → Admitted w env draw now r s
unfolding handle check_method
handle-Admitted itoa w env draw now r s more = elim (Bool-cases (is_websocket_upgrade env r)) [
  | inl e ↦ let more' = rw e at more in absurd (omega (arith, more'))
  | inr e ↦ elim (Bool-cases (member r.method allowed_methods)) [
    | inl k ↦ rate_limited-Admitted itoa w env draw now r s e k (rw (e, k) at more)
    | inr k ↦ let more' = rw (e, k) at more in absurd (omega (arith, more'))
  ]
]
