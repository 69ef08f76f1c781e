-- ===== src/Cors.antt =====
-- The CORS middleware of core/infrastructure/gateway/cors.go. It sets headers and calls the next
-- handler with them, or answers a preflight itself. `itoa` prints a number.
pub mod Origins
use vyx.Base.{
  ℕ, Bool, true, false, not, ◌&&◌, List, [], ◌∷◌, ◌++◌, if◌then◌else◌, ltb, Text, lit, str_eq, Dict,
  insert,
}
use vyx.Route.{is_empty}

pub record CorsConfig : Type 0 where
  pub allowed_origins : List Text
  pub allowed_methods : List Text
  pub allowed_headers : List Text
  pub expose_headers : List Text
  pub max_age : ℕ
  pub allow_credentials : Bool

unfoldable pub default_cors_config : CorsConfig
default_cors_config = record {
  allowed_origins = [];
  allowed_methods =
      lit "GET" ∷ lit "POST" ∷ lit "PUT" ∷ lit "PATCH" ∷ lit "DELETE" ∷ lit "OPTIONS" ∷ [];
  allowed_headers =
      lit "Content-Type" ∷ lit "Authorization" ∷ lit "X-Request-Id" ∷ lit "X-Correlation-Id" ∷ [];
  expose_headers =
      lit "X-Request-Id"
      ∷ lit "X-Correlation-Id"
      ∷ lit "X-RateLimit-Remaining"
      ∷ lit "X-RateLimit-Reset"
      ∷ [];
  max_age = 86400;
  allow_credentials = true;
}

unfoldable pub is_origin_allowed : Text → List Text → Bool
is_origin_allowed origin [] = false
is_origin_allowed origin (a ∷ as') =
    let rest = is_origin_allowed origin as' in
    if str_eq a (lit "*") then true else if str_eq a origin then true else rest

-- `strings.Join` with a comma and a space.
unfoldable pub join : List Text → Text
join [] = []
join (a ∷ []) = a
join (a ∷ b ∷ as') = a ++ b',' ∷ b' ' ∷ join (b ∷ as')

abbrev pub is_none : List Text → Bool
is_none [] = true
is_none (a ∷ as') = false

abbrev pub set_when : Bool → Text → Text → Dict Text → Dict Text
set_when true k v m = insert k v m
set_when false k v m = m

abbrev pub allow_origin : Text
allow_origin = lit "Access-Control-Allow-Origin"

unfoldable pub cors_headers : (ℕ → Text) → CorsConfig → Text → Dict Text
cors_headers itoa cfg origin =
    set_when (ltb 0 cfg.max_age) (lit "Access-Control-Max-Age") (itoa cfg.max_age) (
      set_when (not (is_none cfg.expose_headers)) (lit "Access-Control-Expose-Headers")
        (join cfg.expose_headers)
        (set_when (not (is_none cfg.allowed_headers)) (lit "Access-Control-Allow-Headers")
          (join cfg.allowed_headers)
          (set_when (not (is_none cfg.allowed_methods)) (lit "Access-Control-Allow-Methods")
            (join cfg.allowed_methods)
            (set_when cfg.allow_credentials (lit "Access-Control-Allow-Credentials") (lit "true")
              (insert (lit "Vary") (lit "Origin") (insert allow_origin origin []))))))

-- What the middleware does: it calls the next handler, or answers with 204, with these headers set.
pub data Decision : Type 0 where
  next preflight : Dict Text → Decision

unfoldable pub cors_middleware : (ℕ → Text) → CorsConfig → Text → Text → Decision
cors_middleware itoa cfg method origin =
    if is_empty origin
    then next []
    else if is_origin_allowed origin cfg.allowed_origins
    then (if str_eq method (lit "OPTIONS")
        then preflight (cors_headers itoa cfg origin)
        else next (cors_headers itoa cfg origin))
    else next []
