-- ===== src/Route.antt =====
-- The route map of core/domain/gateway/route.go: a trie over the segments of a path. The atomic
-- pointer to its root is a field, which `Swap` replaces whole.
pub mod Trie
pub mod Matching
pub mod Split
use vyx.Base.{
  ℕ, zero, suc, Bool, true, false, ◌&&◌, List, [], ◌∷◌, ◌++◌, Option, none, some, if◌then◌else◌,
  ◌==◌, Text, str_eq, to_upper, Dict, lookup, insert,
}

pub record RouteEntry : Type 0 where
  pub path : Text
  pub method : Text
  pub worker_id : Text
  pub auth_roles : List Text
  pub validate : Text
  pub type : Text

-- A node has its static children, its parameter child, the name under which the path's segment is
-- captured at this node, and the routes that end here, by method.
mutual
  pub data Node : Type 0 where
    node : Children → ParamChild → Text → Dict RouteEntry → Node

  pub data Children : Type 0 where
    no_children : Children
    child : Text → Node → Children → Children

  pub data ParamChild : Type 0 where
    no_param : ParamChild
    param_child : Node → ParamChild

abbrev pub new_route_node : Text → Node
new_route_node name = node no_children no_param name []

abbrev pub children_of : Node → Children
children_of (node cs p name es) = cs

abbrev pub param_of : Node → Option Node
param_of (node cs no_param name es) = none
param_of (node cs (param_child n) name es) = some n

abbrev pub param_name : Node → Text
param_name (node cs p name es) = name

abbrev pub entries_of : Node → Dict RouteEntry
entries_of (node cs p name es) = es

unfoldable pub find_child : Text → Children → Option Node
find_child k no_children = none
find_child k (child j n cs) = if str_eq j k then some n else find_child k cs

-- The parts of a text between the bytes `sep`, as `strings.Split` gives them.
abbrev pub onto_head : ℕ → List Text → List Text
onto_head c [] = (c ∷ []) ∷ []
onto_head c (w ∷ ws) = (c ∷ w) ∷ ws

unfoldable pub split : ℕ → Text → List Text
split sep [] = [] ∷ []
split sep (c ∷ s) = let rest = split sep s in if c == sep then [] ∷ rest else onto_head c rest

unfoldable pub trim_left : ℕ → Text → Text
trim_left sep [] = []
trim_left sep (c ∷ s) = let rest = trim_left sep s in if c == sep then rest else c ∷ s

abbrev pub is_empty {ℓ} : {A : Type ℓ} → List A → Bool
is_empty [] = true
is_empty (x ∷ xs) = false

unfoldable pub trim_right : ℕ → Text → Text
trim_right sep [] = []
trim_right sep (c ∷ s) =
    let rest = trim_right sep s in if is_empty rest && c == sep then [] else c ∷ rest

unfoldable pub non_empty : List Text → List Text
non_empty [] = []
non_empty (w ∷ ws) = let rest = non_empty ws in if is_empty w then rest else w ∷ rest

unfoldable pub split_path : Text → List Text
split_path path = non_empty (split b'/' (trim_right b'/' (trim_left b'/' path)))

abbrev pub starts_with_colon : Text → Bool
starts_with_colon [] = false
starts_with_colon (c ∷ s) = c == b':'

abbrev pub without_first : Text → Text
without_first [] = []
without_first (c ∷ s) = s

-- `node.children[seg]`, made if it is missing, with what the loop does below it.
unfoldable pub update_child : Text → (Node → Node) → Children → Children
update_child k f no_children = child k (f (new_route_node [])) no_children
update_child k f (child j n cs) =
    if str_eq j k then child j (f n) cs else child j n (update_child k f cs)

abbrev pub update_param : Text → (Node → Node) → ParamChild → ParamChild
update_param name f no_param = param_child (f (new_route_node name))
update_param name f (param_child n) = param_child (f n)

-- One round of the loops of `buildTrie` over the segments of a route, and the final write.
unfoldable pub add_route : List Text → RouteEntry → Node → Node
add_route [] e (node cs p name es) = node cs p name (insert (to_upper e.method) e es)
add_route (seg ∷ rest) e (node cs p name es) =
    if starts_with_colon seg
    then node cs (update_param (without_first seg) (add_route rest e) p) name es
    else node (update_child seg (add_route rest e) cs) p name es

unfoldable pub build_from : Node → List RouteEntry → Node
build_from root [] = root
build_from root (e ∷ es) = build_from (add_route (split_path e.path) e root) es

unfoldable pub build_trie : List RouteEntry → Node
build_trie es = build_from (new_route_node []) es

pub record RouteMap : Type 0 where
  pub root : Node

unfoldable pub new_route_map : List RouteEntry → RouteMap
new_route_map es = record { root = build_trie es }

unfoldable pub swap : List RouteEntry → RouteMap → RouteMap
swap es rm = record rm { root = build_trie es }

abbrev pub Params : Type 0
Params = Dict Text

abbrev pub Found : Type 0
Found = Option (Node × Params)

abbrev pub or_else : Found → Found → Found
or_else (some r) other = some r
or_else none other = other

abbrev pub try_node : Option Node → (Node → Found) → Found
try_node none go = none
try_node (some n) go = go n

unfoldable pub traverse : List Text → Node → Params → Found
traverse [] n params = some (n, params)
traverse (seg ∷ rest) n params =
    let static = try_node (find_child seg (children_of n)) (λ c. traverse rest c params) in
    let captured =
      try_node (param_of n) (λ c. traverse rest c (insert (param_name c) seg params)) in
    or_else static captured

pub record LookupResult : Type 0 where
  pub entry : RouteEntry
  pub params : Params

abbrev pub result_of : Params → Option RouteEntry → Option LookupResult
result_of params none = none
result_of params (some e) = some (record { entry = e; params = params })

abbrev pub lookup_in : Text → Found → Option LookupResult
lookup_in method none = none
lookup_in method (some (n, params)) = result_of params (lookup (to_upper method) (entries_of n))

unfoldable pub lookup_route : Text → Text → RouteMap → Option LookupResult
lookup_route method path rm = lookup_in method (traverse (split_path path) rm.root [])
