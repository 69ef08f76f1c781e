-- ===== src/Examples/Routes.antt =====
-- A route map of core/domain/gateway/route.go with a parameter route.
use vyx.Base.{◌≡◌, refl, List, [], ◌∷◌, none, some, lit, str_eq, to_upper, lookup, insert, Any}
use vyx.Route.{
  RouteEntry, LookupResult, new_route_map, lookup_route, split_path, split, trim_left, trim_right,
  non_empty, build_trie, build_from, add_route, traverse, find_child, update_child,
}
use vyx.Route.Trie.{static, wild, entry_at, latest, entry_at-build_trie}
use vyx.Route.Matching.{Answers, lookup_route_sound}

abbrev user : RouteEntry
user = record {
  path = lit "/users/:id";
  method = lit "DELETE";
  worker_id = lit "go:api";
  auth_roles = [];
  validate = [];
  type = [];
}

abbrev me : RouteEntry
me = record user { path = lit "/users/me"; method = lit "get" }

abbrev routes : List RouteEntry
routes = user ∷ me ∷ []

entry_at-build_trie_example :
    entry_at (static (lit "users") ∷ wild ∷ []) (lit "DELETE") (build_trie routes)
    ≡ latest (static (lit "users") ∷ wild ∷ []) (lit "DELETE") none routes
entry_at-build_trie_example =
    entry_at-build_trie routes (static (lit "users") ∷ wild ∷ []) (lit "DELETE")

abbrev captured : LookupResult
captured = record { entry = user; params = (lit "id", lit "7") ∷ [] }

user_found : lookup_route (lit "delete") (lit "/users/7/") (new_route_map routes) ≡ some captured
unfolding lookup_route new_route_map split_path split trim_left trim_right non_empty build_trie
    build_from add_route traverse find_child update_child to_upper lookup insert str_eq
user_found = refl

lookup_route_sound_example : Any (Answers (lit "delete") (lit "/users/7/") user) routes
lookup_route_sound_example =
    lookup_route_sound (lit "delete") (lit "/users/7/") routes captured user_found
