-- ===== src/Examples/Settings.antt =====
-- A token, a schema, and a manifest that is read again.
use vyx.Base.{ℕ, ◌≡◌, ◌↔◌, Bool, true, List, [], ◌∷◌, Option, none, some, lit, Text, length}
use vyx.Route
use vyx.Route.{split, non_empty, is_empty, new_route_map, trim_left, trim_right}
use vyx.Dispatcher.{Claims}
use vyx.Tokens.{VyxClaims, JwtValidator, validate, accepted, Fits, validate-Fits, HmacOnly}
use vyx.Schemas
use vyx.Schemas.{LibraryError, Event, warms, invalidates, validates, validate-run}
use vyx.Config.{Config}
use vyx.Loader
use vyx.Loader.{Loader}

abbrev validator : JwtValidator
validator = record { secret = lit "k"; issuer = lit "vyx"; audience = [] }

abbrev token_claims : VyxClaims
token_claims = record {
  sub = lit "u";
  roles = lit "user" ∷ [];
  issuer = lit "vyx";
  audience = [];
  not_before = some 10;
}

abbrev parse : (Bool → Option Text) → Text → Option VyxClaims
parse key t = elim (key true) [ some secret ↦ some token_claims | none ↦ none ]

abbrev user : Claims
user = record { user_id = lit "u"; roles = lit "user" ∷ [] }

validate-Fits_example : (validate parse validator 20 (lit "t") ≡ accepted user) ↔ (
    (key : Bool → Option Text) × HmacOnly validator key
    × (c : VyxClaims) × (parse key (lit "t") ≡ some c)
    × Fits validator 20 c
    × (user ≡ record { user_id = c.sub; roles = c.roles }))
validate-Fits_example = validate-Fits parse validator 20 (lit "t") user

-- A schema is the longest body that it admits.
abbrev compile : Text → Option ℕ
compile name = some 2

abbrev object : Text → Option ℕ
object t = some (length t)

abbrev check : ℕ → ℕ → Option LibraryError
check s o = none

validate-run_example :
    (Schemas.validate compile object check (lit "a") (lit "{}") (
      Schemas.run compile object check
        (warms (lit "a" ∷ []) ∷ invalidates ∷ [])
        (Schemas.new_schema_validator compile object check))).0
    ≡ Schemas.check_body compile object check (compile (lit "a")) (lit "{}")
validate-run_example =
    validate-run compile object check (warms (lit "a" ∷ []) ∷ invalidates ∷ []) (lit "a") (lit "{}")

abbrev yaml : Text → Config → Option Config
yaml t c = some (record c { project = record { name = t; version = t } })

abbrev json : Text → Option (List Route.RouteEntry)
json t = none

abbrev routes : Route.RouteMap
routes = new_route_map []

abbrev loader : Loader
loader = record { current = none; route_map_path = lit "r"; route_map = some routes }

abbrev signals : List (Option Text × Option Text)
signals = (some (lit "shop"), none) ∷ (none, some (lit "?")) ∷ []
