-- ===== src/Loader.antt =====
-- The loader of the manifest and of the route map, core/infrastructure/config/loader.go and
-- loader_exported.go. What the files hold is an argument, `none` where they cannot be read; `yaml`
-- parses a manifest over the defaults, and `json` a route map.
use vyx.Base.{◌≡◌, List, [], ◌∷◌, Option, none, some, if◌then◌else◌, Text}
use vyx.Route.{RouteEntry, RouteMap, swap, is_empty}
use vyx.Config.{Config, defaults, validate}

-- `route_map` is the one that the dispatcher reads, where there is one.
pub record Loader : Type 0 where
  pub current : Option Config
  pub route_map_path : Text
  pub route_map : Option RouteMap

unfoldable pub new : Loader
new = record { current = none; route_map_path = []; route_map = none }

unfoldable pub with_route_map : Text → RouteMap → Loader → Loader
with_route_map path rm l = record l { route_map_path = path; route_map = some rm }

unfoldable pub set_current : Config → Loader → Loader
set_current c l = record l { current = some c }

module _ (yaml : Text → Config → Option Config) (json : Text → Option (List RouteEntry)) where
  abbrev pub parsed : Option Text → Option Config
  parsed none = none
  parsed (some text) = yaml text defaults

  abbrev pub valid : Option Config → Option Config
  valid none = none
  valid (some c) = if is_empty (validate c) then some c else none

  -- `Load`, with `none` for each of its errors. It does not set the current manifest.
  unfoldable pub load : Option Text → Option Config
  load file = valid (parsed file)

  abbrev pub or_keep {ℓ} : {A : Type ℓ} → Option A → Option A → Option A
  or_keep none old = old
  or_keep (some a) old = some a

  abbrev pub routes_in : Option Text → Option (List RouteEntry)
  routes_in none = none
  routes_in (some text) = json text

  abbrev pub swapped : Option (List RouteEntry) → RouteMap → RouteMap
  swapped none rm = rm
  swapped (some es) rm = swap es rm

  abbrev pub reloaded : Text → Option Text → Option RouteMap → Option RouteMap
  reloaded path file none = none
  reloaded path file (some rm) =
      if is_empty path then some rm else some (swapped (routes_in file) rm)

  -- `reloadAll`, with what the two files hold.
  unfoldable pub reload_all : Option Text → Option Text → Loader → Loader
  reload_all manifest routes l = record l {
    current = or_keep (load manifest) l.current;
    route_map = reloaded l.route_map_path routes l.route_map;
  }

  -- `WatchSIGHUP` over the signals that it takes.
  unfoldable pub watch_sighup : List (Option Text × Option Text) → Loader → Loader
  watch_sighup [] l = l
  watch_sighup ((m, r) ∷ fs) l = watch_sighup fs (reload_all m r l)

  -- The last of some results that is not an error.
  unfoldable pub last_loaded : List (Option Text × Option Text) → Option Config
  last_loaded [] = none
  last_loaded ((m, r) ∷ fs) = or_keep (last_loaded fs) (load m)

  unfoldable pub last_routes : List (Option Text × Option Text) → Option (List RouteEntry)
  last_routes [] = none
  last_routes ((m, r) ∷ fs) = or_keep (last_routes fs) (routes_in r)

  -- Where there is a manifest, it is valid.
  abbrev pub AllValid : Option Config → Type 0
  AllValid none = Unit
  AllValid (some c) = validate c ≡ []
