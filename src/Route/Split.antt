-- ===== src/Route/Split.antt =====
-- The segments of a path.
use vyx.Base.{ℕ, ◌≢◌, List, [], ◌∷◌, arith, ◌==◌, Text, All, Bool-cases, ◌<◌, length, inl, inr}
use vyx.Route.{split, onto_head, trim_left, trim_right, non_empty, split_path}

-- The text does not hold the byte `sep`.
abbrev pub Lacks : ℕ → Text → Type 0
Lacks sep [] = Unit
Lacks sep (c ∷ s) = (c ≢ sep) × Lacks sep s

onto_head-Lacks :
    (sep c : ℕ) (ws : List Text) → c ≢ sep → All (Lacks sep) ws → All (Lacks sep) (onto_head c ws)
onto_head-Lacks sep c [] n h = ((n, tt), tt)
onto_head-Lacks sep c (w ∷ ws) n (h, hs) = ((n, h), hs)

split-Lacks : (sep : ℕ) (s : Text) → All (Lacks sep) (split sep s)
unfolding split
split-Lacks sep [] = (tt, tt)
split-Lacks sep (c ∷ s) = elim (Bool-cases (c == sep)) [
  | inl same ↦ rw same (tt, split-Lacks sep s)
  | inr other ↦ rw other (onto_head-Lacks sep c (split sep s) (ground arith) (split-Lacks sep s))
]

-- A segment is not empty and holds no slash.
abbrev pub IsSegment : Text → Type 0
IsSegment w = (0 < length w) × Lacks b'/' w

non_empty-IsSegment : (ws : List Text) → All (Lacks b'/') ws → All IsSegment (non_empty ws)
unfolding non_empty
non_empty-IsSegment [] h = tt
non_empty-IsSegment ([] ∷ ws) (h, hs) = non_empty-IsSegment ws hs
non_empty-IsSegment ((c ∷ w) ∷ ws) (h, hs) = ((omega arith, h), non_empty-IsSegment ws hs)

-- Whatever the path, the segments that it is split into are not empty and hold no slash.
pub split_path-IsSegment : (path : Text) → All IsSegment (split_path path)
unfolding split_path
split_path-IsSegment path =
    non_empty-IsSegment _ (split-Lacks b'/' (trim_right b'/' (trim_left b'/' path)))
