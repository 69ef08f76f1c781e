-- ===== src/Cors/Origins.antt =====
-- Which origins may read responses, core/infrastructure/gateway/cors.go.
use vyx.Base.{
  ℕ, ◌≡◌, refl, arith, Bool, true, false, not, ◌&&◌, ◌||◌, List, [], ◌∷◌, none, some, if◌then◌else◌,
  ltb, Text, lit, str_eq, Dict, lookup, insert, lookup-insert,
}
use vyx.Route.{is_empty}
use vyx.Dispatcher.{member}
use vyx.Cors.{
  CorsConfig, is_origin_allowed, join, is_none, set_when, allow_origin, cors_headers, Decision,
  next, preflight, cors_middleware,
}

abbrev pub headers_of : Decision → Dict Text
headers_of (next h) = h
headers_of (preflight h) = h

is_origin_allowed-member :
    (origin : Text) (as' : List Text)
    → is_origin_allowed origin as' ≡ (member (lit "*") as' || member origin as')
unfolding is_origin_allowed member
is_origin_allowed-member origin [] = refl
is_origin_allowed-member origin (a ∷ as') = ground (arith, is_origin_allowed-member origin as')

lookup-set_when :
    (b : Bool) (k j v : Text) (m : Dict Text)
    → str_eq k j ≡ false
    → lookup j (set_when b k v m) ≡ lookup j m
lookup-set_when true k j v m e = rw (lookup-insert k j v m, e) refl
lookup-set_when false k j v m e = refl

cors_headers_origin :
    (itoa : ℕ → Text) (cfg : CorsConfig) (origin : Text)
    → lookup allow_origin (cors_headers itoa cfg origin) ≡ some origin
unfolding cors_headers str_eq insert lookup
cors_headers_origin itoa cfg origin =
    rw
      (
        lookup-set_when (ltb 0 cfg.max_age) (lit "Access-Control-Max-Age") allow_origin
            (itoa cfg.max_age) _ refl,
        lookup-set_when (not (is_none cfg.expose_headers)) (lit "Access-Control-Expose-Headers")
            allow_origin (join cfg.expose_headers) _ refl,
        lookup-set_when (not (is_none cfg.allowed_headers)) (lit "Access-Control-Allow-Headers")
            allow_origin (join cfg.allowed_headers) _ refl,
        lookup-set_when (not (is_none cfg.allowed_methods)) (lit "Access-Control-Allow-Methods")
            allow_origin (join cfg.allowed_methods) _ refl,
        lookup-set_when cfg.allow_credentials (lit "Access-Control-Allow-Credentials") allow_origin
            (lit "true") _ refl,
      )
      refl

abbrev pub may_read : CorsConfig → Text → Bool
may_read cfg origin =
    not (is_empty origin)
    && (member (lit "*") cfg.allowed_origins || member origin cfg.allowed_origins)

-- The response allows exactly the origin of the request, where that is given and it or a star is
-- in the list, and no origin otherwise.
pub cors_middleware_origin :
    (itoa : ℕ → Text) (cfg : CorsConfig) (method origin : Text)
    → lookup allow_origin (headers_of (cors_middleware itoa cfg method origin))
      ≡ (if may_read cfg origin then some origin else none)
unfolding cors_middleware lookup
cors_middleware_origin itoa cfg method origin = ground (
  arith,
  cors_headers_origin itoa cfg origin,
  is_origin_allowed-member origin cfg.allowed_origins,
)
