-- ===== src/Route/Matching.antt =====
-- What `Lookup` finds for a request.
use vyx.Base.{
  ◌≡◌, refl, sym, ◌∙◌, ap, ◌⊎◌, inl, inr, Bool, true, false, ◌&&◌, List, [], ◌∷◌, Option, none,
  some, arith, Text, str_eq, str_eq_iff, str_eq_refl, to_upper, lookup, insert, Bool-cases,
  Option-cases, Any,
}
use vyx.Route.{
  RouteEntry, Node, children_of, param_of, param_name, entries_of, find_child, split_path,
  build_trie, new_route_map, Params, Found, or_else, try_node, traverse, LookupResult, result_of,
  lookup_in, lookup_route,
}
use vyx.Route.Trie.{
  Key, static, wild, keys_of, key_eq, keys_eq, bind_node, step_key, descend, entry_at-descend,
  added, latest, entry_at-build_trie,
}

-- A route's shape fits the segments of a request.
abbrev pub fits : List Key → List Text → Bool
fits [] [] = true
fits [] (s ∷ ss) = false
fits (k ∷ ks) [] = false
fits (static t ∷ ks) (s ∷ ss) = str_eq t s && fits ks ss
fits (wild ∷ ks) (s ∷ ss) = fits ks ss

abbrev pub statics : List Text → List Key
statics [] = []
statics (s ∷ ss) = static s ∷ statics ss

abbrev pub ReachesBy : List Text → Node → Node → Type 0
ReachesBy segs n n' = (ks : List Key) × (descend ks n ≡ some n') × (fits ks segs ≡ true)

-- The walk ends nowhere, or at a node whose shape fits the request.
abbrev pub Lands : List Text → Node → Found → Type 0
Lands segs n none = Unit
Lands segs n (some (n', ps)) = ReachesBy segs n n'

or_else-Lands :
    (segs : List Text) (n : Node) (a b : Found)
    → Lands segs n a
    → Lands segs n b
    → Lands segs n (or_else a b)
or_else-Lands segs n none b h k = k
or_else-Lands segs n (some r) b h k = h

longer :
    (k : Key) (seg : Text) (rest : List Text) (n c : Node)
    → step_key k n ≡ some c
    → ((ks : List Key) → fits ks rest ≡ true → fits (k ∷ ks) (seg ∷ rest) ≡ true)
    → (r : Found) → Lands rest c r
    → Lands (seg ∷ rest) n r
unfolding descend
longer k seg rest n c e fit none h = tt
longer k seg rest n c e fit (some (n', ps)) (ks, d, f) = (k ∷ ks, rw e d, fit ks f)

try_node-Lands :
    (k : Key) (seg : Text) (rest : List Text) (n : Node) (go : Node → Found)
    → ((ks : List Key) → fits ks rest ≡ true → fits (k ∷ ks) (seg ∷ rest) ≡ true)
    → ((c : Node) → Lands rest c (go c))
    → Lands (seg ∷ rest) n (try_node (step_key k n) go)
try_node-Lands k seg rest n go fit h = elim (Option-cases (step_key k n)) [
  | inl e ↦ rw e tt
  | inr (c, e) ↦ rw e (longer k seg rest n c e fit (go c) (h c))
]

traverse-Lands : (segs : List Text) (n : Node) (ps : Params) → Lands segs n (traverse segs n ps)
unfolding traverse descend
traverse-Lands [] n ps = ([], refl, refl)
traverse-Lands (seg ∷ rest) n ps =
    or_else-Lands (seg ∷ rest) n
      (try_node (find_child seg (children_of n)) (λ c. traverse rest c ps))
      (try_node (param_of n) (λ c. traverse rest c (insert (param_name c) seg ps)))
      (try_node-Lands (static seg) seg rest n (λ c. traverse rest c ps)
        (λ ks f. rw (str_eq_refl seg) f) (λ c. traverse-Lands rest c ps))
      (try_node-Lands wild seg rest n (λ c. traverse rest c (insert (param_name c) seg ps))
        (λ ks f. f) (λ c. traverse-Lands rest c (insert (param_name c) seg ps)))

-- A chain of static children that fits the request is taken before any parameter.
traverse_static :
    (segs : List Text) (n n' : Node) (ps : Params)
    → descend (statics segs) n ≡ some n'
    → traverse segs n ps ≡ some (n', ps)
unfolding traverse descend
traverse_static [] n n' ps e = ap (λ o. bind_node o (λ m. some (m, ps))) e
traverse_static (seg ∷ rest) n n' ps e = elim (Option-cases (find_child seg (children_of n))) [
  | inl f ↦ cc (rw f at e)
  | inr (c, f) ↦ rw (f, traverse_static rest c n' ps (rw f at e))
]

key_eq_sound : (j k : Key) → key_eq j k ≡ true → j ≡ k
key_eq_sound (static s) (static t) h = ap static ((str_eq_iff s t).0 h)
key_eq_sound (static s) wild h = cc
key_eq_sound wild (static t) h = cc
key_eq_sound wild wild h = refl

keys_eq_sound : (js ks : List Key) → keys_eq js ks ≡ true → js ≡ ks
keys_eq_sound [] [] h = refl
keys_eq_sound [] (k ∷ ks) h = cc
keys_eq_sound (j ∷ js) [] h = cc
keys_eq_sound (j ∷ js) (k ∷ ks) h = ground (arith, key_eq_sound j k, keys_eq_sound js ks)

-- The entry is a registered route with the request's method, and its path fits the request's.
abbrev pub Answers : Text → Text → RouteEntry → RouteEntry → Type 0
Answers method path e x =
    (e ≡ x)
    × (to_upper x.method ≡ to_upper method)
    × (fits (keys_of (split_path x.path)) (split_path path) ≡ true)

latest_member :
    (method path : Text) (ks : List Key) (old : Option RouteEntry) (es : List RouteEntry)
    (e : RouteEntry)
    → fits ks (split_path path) ≡ true
    → latest ks (to_upper method) old es ≡ some e
    → (old ≡ some e) ⊎ Any (Answers method path e) es
unfolding latest
latest_member method path ks old [] e f h = inl h
latest_member method path ks old (x ∷ es) e f h =
    let here =
      keys_eq (keys_of (split_path x.path)) ks && str_eq (to_upper x.method) (to_upper method) in
    elim (latest_member method path ks (added here x old) es e f h) [
      | inr later ↦ inr (inr later)
      | inl now ↦ elim (Bool-cases here) [
        | inr other ↦ inl (rw other at now)
        | inl same ↦ inr (inl (answer x same (rw same at now)))
      ]
    ]
  where
    answer :
        (y : RouteEntry)
        → (keys_eq (keys_of (split_path y.path)) ks && str_eq (to_upper y.method) (to_upper method)
            ≡ true)
        → some y ≡ some e
        → Answers method path e y
    answer y same now =
        let shape = keys_eq_sound (keys_of (split_path y.path)) ks (ground arith) in
        (
          cc,
          ground (arith, str_eq_iff (to_upper y.method) (to_upper method)),
          ap (λ js. fits js (split_path path)) shape ∙ f,
        )

lookup_at :
    (segs : List Text) (m : Text) (es : List RouteEntry) (ks : List Key) (n' : Node)
    → descend ks (build_trie es) ≡ some n'
    → lookup m (entries_of n') ≡ latest ks m none es
lookup_at segs m es ks n' d =
    sym (ap (λ o. bind_node o (λ x. lookup m (entries_of x))) d)
    ∙ sym (entry_at-descend ks m (build_trie es))
    ∙ entry_at-build_trie es ks m

-- What a lookup returns is one of the routes of the map, for the method of the request up to case,
-- and with a path that fits the path of the request segment by segment.
pub lookup_route_sound :
    (method path : Text) (es : List RouteEntry) (r : LookupResult)
    → lookup_route method path (new_route_map es) ≡ some r
    → Any (Answers method path r.entry) es
unfolding lookup_route new_route_map
lookup_route_sound method path es r h =
    go (traverse (split_path path) (build_trie es) [])
      (traverse-Lands (split_path path) (build_trie es) []) h
  where
    go :
        (f : Found)
        → Lands (split_path path) (build_trie es) f
        → lookup_in method f ≡ some r
        → Any (Answers method path r.entry) es
    go none l e = cc
    go (some (n', ps)) (ks, d, fit) e =
        let stored = lookup_at (split_path path) (to_upper method) es ks n' d in
        elim (latest_member method path ks none es r.entry fit
          (sym stored ∙ found (lookup (to_upper method) (entries_of n')) e)) [
            | inl nothing ↦ cc nothing
            | inr member ↦ member
          ]
      where
        found : (o : Option RouteEntry) → result_of ps o ≡ some r → o ≡ some r.entry
        found none e' = cc
        found (some x) e' = ground arith

-- A route without parameters that was registered last for its path and method is found, whatever
-- parameter routes there are, and nothing is captured.
pub lookup_route_static :
    (method path : Text) (es : List RouteEntry) (e : RouteEntry)
    → latest (statics (split_path path)) (to_upper method) none es ≡ some e
    → lookup_route method path (new_route_map es) ≡ some (record { entry = e; params = [] })
unfolding lookup_route new_route_map
lookup_route_static method path es e h =
    let ks = statics (split_path path) in
    elim (Option-cases (descend ks (build_trie es))) [
      | inl d ↦ cc (
        d,
        entry_at-descend ks (to_upper method) (build_trie es),
        entry_at-build_trie es ks (to_upper method),
        h,
      )
      | inr (n', d) ↦
          ap (lookup_in method) (traverse_static (split_path path) (build_trie es) n' [] d)
          ∙ ap (result_of []) (lookup_at (split_path path) (to_upper method) es ks n' d ∙ h)
    ]

-- A route without parameters hides the parameter routes for its path under every method: where it
-- is registered for another method only, the lookup fails, although a parameter route may fit.
pub lookup_route_shadowed :
    (method other path : Text) (es : List RouteEntry) (e : RouteEntry)
    → latest (statics (split_path path)) other none es ≡ some e
    → latest (statics (split_path path)) (to_upper method) none es ≡ none
    → lookup_route method path (new_route_map es) ≡ none
unfolding lookup_route new_route_map
lookup_route_shadowed method other path es e there h =
    let ks = statics (split_path path) in
    elim (Option-cases (descend ks (build_trie es))) [
      | inl d ↦
          cc (d, entry_at-descend ks other (build_trie es), entry_at-build_trie es ks other, there)
      | inr (n', d) ↦
          ap (lookup_in method) (traverse_static (split_path path) (build_trie es) n' [] d)
          ∙ ap (result_of []) (lookup_at (split_path path) (to_upper method) es ks n' d ∙ h)
    ]
