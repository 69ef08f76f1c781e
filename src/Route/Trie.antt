-- ===== src/Route/Trie.antt =====
-- The trie as a map from the shape of a path and a method to a route.
use vyx.Base.{
  ◌≡◌, refl, ◌∙◌, ap, inl, inr, Bool, true, false, ◌&&◌, List, [], ◌∷◌, Option, none, some, arith,
  if◌then◌else◌, Text, str_eq, str_eq_iff, to_upper, Dict, lookup, lookup-insert, Bool-cases,
  Option-cases,
}
use vyx.Route.{
  RouteEntry, Node, node, Children, no_children, child, ParamChild, no_param, param_child,
  new_route_node, children_of, param_of, entries_of, find_child, split_path, starts_with_colon,
  without_first, update_child, update_param, add_route, build_from, build_trie,
}

-- A segment of a route: a text to be met, or any text.
pub data Key : Type 0 where
  static : Text → Key
  wild : Key

abbrev pub key_of : Text → Key
key_of seg = if starts_with_colon seg then wild else static seg

abbrev pub keys_of : List Text → List Key
keys_of [] = []
keys_of (s ∷ ss) = key_of s ∷ keys_of ss

abbrev pub key_eq : Key → Key → Bool
key_eq (static s) (static t) = str_eq s t
key_eq (static s) wild = false
key_eq wild (static t) = false
key_eq wild wild = true

abbrev pub keys_eq : List Key → List Key → Bool
keys_eq [] [] = true
keys_eq [] (k ∷ ks) = false
keys_eq (j ∷ js) [] = false
keys_eq (j ∷ js) (k ∷ ks) = key_eq j k && keys_eq js ks

abbrev pub bind_node {ℓ} : {B : Type ℓ} → Option Node → (Node → Option B) → Option B
bind_node none f = none
bind_node (some n) f = f n

abbrev pub step_key : Key → Node → Option Node
step_key (static s) n = find_child s (children_of n)
step_key wild n = param_of n

unfoldable pub descend : List Key → Node → Option Node
descend [] n = some n
descend (k ∷ ks) n = bind_node (step_key k n) (descend ks)

-- The route that stands at a shape and a method in upper case.
unfoldable pub entry_at : List Key → Text → Node → Option RouteEntry
entry_at [] m n = lookup m (entries_of n)
entry_at (k ∷ ks) m n = bind_node (step_key k n) (entry_at ks m)

pub entry_at-descend :
    (ks : List Key) (m : Text) (n : Node)
    → entry_at ks m n ≡ bind_node (descend ks n) (λ n'. lookup m (entries_of n'))
unfolding entry_at descend
entry_at-descend [] m n = refl
entry_at-descend (k ∷ ks) m n = elim (Option-cases (step_key k n)) [
  | inl e ↦ rw e
  | inr (n', e) ↦ rw e (entry_at-descend ks m n')
]

or_new : Option Node → Text → Node
or_new none name = new_route_node name
or_new (some n) name = n

find_child-update_child :
    (j k : Text) (f : Node → Node) (cs : Children)
    → find_child j (update_child k f cs)
      ≡ (if str_eq k j then some (f (or_new (find_child k cs) [])) else find_child j cs)
unfolding find_child update_child or_new
find_child-update_child j k f no_children = refl
find_child-update_child j k f (child i n cs) =
    ground (arith, str_eq_iff i k, str_eq_iff i j, str_eq_iff k j, find_child-update_child j k f cs)

entry_at_new : (ks : List Key) (m name : Text) → entry_at ks m (new_route_node name) ≡ none
unfolding entry_at lookup find_child
entry_at_new [] m name = refl
entry_at_new (static s ∷ ks) m name = refl
entry_at_new (wild ∷ ks) m name = refl

entry_at-or_new :
    (ks : List Key) (m : Text) (o : Option Node) (name : Text)
    → entry_at ks m (or_new o name) ≡ bind_node o (entry_at ks m)
unfolding or_new
entry_at-or_new ks m none name = entry_at_new ks m name
entry_at-or_new ks m (some n) name = refl

-- What an added route changes, as a test on shapes and methods.
abbrev pub added : Bool → RouteEntry → Option RouteEntry → Option RouteEntry
added true e old = some e
added false e old = old

abbrev same_place : List Text → RouteEntry → List Key → Text → Bool
same_place ss e ks m = keys_eq (keys_of ss) ks && str_eq (to_upper e.method) m

below_static :
    (s t : Text) (g : Node → Node) (cs : Children) (ks : List Key) (m : Text) (b : Bool)
    (e : RouteEntry)
    → ((n : Node) → entry_at ks m (g n) ≡ added b e (entry_at ks m n))
    → bind_node (find_child t (update_child s g cs)) (entry_at ks m)
      ≡ added (str_eq s t && b) e (bind_node (find_child t cs) (entry_at ks m))
below_static s t g cs ks m b e ih = elim (Bool-cases (str_eq s t)) [
  | inl same ↦
      rw (find_child-update_child t s g cs, same)
        (ih (or_new (find_child s cs) [])
          ∙ ap (added b e) (
              entry_at-or_new ks m (find_child s cs) []
              ∙ ap (λ u. bind_node (find_child u cs) (entry_at ks m)) ((str_eq_iff s t).0 same)))
  | inr other ↦ rw (find_child-update_child t s g cs, other)
]

below_wild :
    (name : Text) (g : Node → Node) (p : ParamChild) (ks : List Key) (m : Text) (b : Bool)
    (e : RouteEntry) (cs : Children) (pn : Text) (es : Dict RouteEntry)
    → ((n : Node) → entry_at ks m (g n) ≡ added b e (entry_at ks m n))
    → entry_at (wild ∷ ks) m (node cs (update_param name g p) pn es)
      ≡ added b e (entry_at (wild ∷ ks) m (node cs p pn es))
unfolding entry_at
below_wild name g no_param ks m b e cs pn es ih =
    ih (new_route_node name) ∙ ap (added b e) (entry_at_new ks m name)
below_wild name g (param_child n) ks m b e cs pn es ih = ih n

and_assoc : (a b c : Bool) → a && (b && c) ≡ (a && b) && c
and_assoc a b c = ground arith

wild_same :
    (p : ParamChild) (cs cs' : Children) (pn : Text) (es es' : Dict RouteEntry) (ks : List Key)
    (m : Text)
    → entry_at (wild ∷ ks) m (node cs p pn es) ≡ entry_at (wild ∷ ks) m (node cs' p pn es')
unfolding entry_at
wild_same no_param cs cs' pn es es' ks m = refl
wild_same (param_child n) cs cs' pn es es' ks m = refl

-- Adding a route changes what stands at its own shape and method, and nothing else.
pub entry_at-add_route :
    (ss : List Text) (e : RouteEntry) (n : Node) (ks : List Key) (m : Text)
    → entry_at ks m (add_route ss e n)
      ≡ added (keys_eq (keys_of ss) ks && str_eq (to_upper e.method) m) e (entry_at ks m n)
unfolding entry_at add_route
entry_at-add_route [] e (node cs p name es) [] m =
    lookup-insert (to_upper e.method) m e es ∙ as_added (str_eq (to_upper e.method) m)
  where
    as_added : (b : Bool) → (if b then some e else lookup m es) ≡ added b e (lookup m es)
    as_added true = refl
    as_added false = refl
entry_at-add_route [] e (node cs p name es) (static t ∷ ks) m = refl
entry_at-add_route [] e (node cs p name es) (wild ∷ ks) m = wild_same p cs cs name _ _ ks m
entry_at-add_route (s ∷ ss) e (node cs p name es) [] m = elim (Bool-cases (starts_with_colon s)) [
  | inl c ↦ rw c
  | inr c ↦ rw c
]
entry_at-add_route (s ∷ ss) e (node cs p name es) (static t ∷ ks) m =
    elim (Bool-cases (starts_with_colon s)) [
      | inl c ↦ rw c
      | inr c ↦ rw c (
          below_static s t (add_route ss e) cs ks m (same_place ss e ks m) e
            (λ n. entry_at-add_route ss e n ks m)
          ∙ ap (λ b. added b e (entry_at (static t ∷ ks) m (node cs p name es)))
              (and_assoc (str_eq s t) (keys_eq (keys_of ss) ks) (str_eq (to_upper e.method) m)))
    ]
entry_at-add_route (s ∷ ss) e (node cs p name es) (wild ∷ ks) m =
    elim (Bool-cases (starts_with_colon s)) [
      | inl c ↦ rw c (
          below_wild (without_first s) (add_route ss e) p ks m (same_place ss e ks m) e cs name es
            (λ n. entry_at-add_route ss e n ks m))
      | inr c ↦ rw c (wild_same p (update_child s (add_route ss e) cs) cs name es es ks m)
    ]

-- The specification: the last route of that shape and method.
unfoldable pub latest : List Key → Text → Option RouteEntry → List RouteEntry → Option RouteEntry
latest ks m old [] = old
latest ks m old (e ∷ es) =
    latest ks m
      (added (keys_eq (keys_of (split_path e.path)) ks && str_eq (to_upper e.method) m) e old) es

entry_at-build_from :
    (es : List RouteEntry) (n : Node) (ks : List Key) (m : Text)
    → entry_at ks m (build_from n es) ≡ latest ks m (entry_at ks m n) es
unfolding latest build_from
entry_at-build_from [] n ks m = refl
entry_at-build_from (e ∷ es) n ks m =
    entry_at-build_from es (add_route (split_path e.path) e n) ks m
    ∙ ap (λ o. latest ks m o es) (entry_at-add_route (split_path e.path) e n ks m)

-- A built trie holds, at each shape and method, the last of the routes with that shape and method.
pub entry_at-build_trie :
    (es : List RouteEntry) (ks : List Key) (m : Text)
    → entry_at ks m (build_trie es) ≡ latest ks m none es
unfolding build_trie
entry_at-build_trie es ks m =
    entry_at-build_from es (new_route_node []) ks m
    ∙ ap (λ o. latest ks m o es) (entry_at_new ks m [])
