-- ===== src/Scanner/Pending.antt =====
-- How far the annotations of a comment reach in the parsers of scanner/.
use mathlib.Core.List.{append_assoc}
use vyx.Base.{
  ℕ, suc, ◌+◌, ◌≡◌, refl, sym, ap, ◌∙◌, arith, true, false, List, [], ◌∷◌, ◌++◌, none, some,
  if◌then◌else◌, Text, length, drop, Bool-cases, Option-cases, inl, inr, ◌⊎◌, All, Option,
}
use vyx.Route.{is_empty, split}
use vyx.Redact.{is_prefix}
use vyx.Scanner.{Route}
use vyx.Scanner.Parsing.{
  Dialect, trim_space, Waiting, nothing, roles_in, parse_roles, build_route, waits, flush, note,
  parse_lines,
}

abbrev pub comment_of : Dialect → Text → Text
comment_of d l = trim_space (drop (length d.marker) (trim_space l))

-- A line that ends a block: neither a comment nor passed over.
pub record IsCode (d : Dialect) (l : Text) : Type 0 where
  pub read : d.skips (trim_space l) ≡ false
  pub plain : is_prefix d.marker (trim_space l) ≡ false

pub record IsComment (d : Dialect) (l : Text) : Type 0 where
  pub read : d.skips (trim_space l) ≡ false
  pub marked : is_prefix d.marker (trim_space l) ≡ true

-- What waits after some lines.
unfoldable pub after_lines : Dialect → Text → Text → ℕ → List Text → Waiting → Waiting
after_lines d file worker n [] w = w
after_lines d file worker n (l ∷ ls) w =
    let skipped = after_lines d file worker (suc n) ls w in
    let flushed = after_lines d file worker (suc n) ls (flush d.patterns file worker w).1 in
    let noted = after_lines d file worker (suc n) ls (note d.patterns (suc n) (comment_of d l) w) in
    if d.skips (trim_space l)
    then skipped
    else if is_prefix d.marker (trim_space l)
    then noted
    else flushed

-- What the expressions of the dialect find in a comment.
pub record Says (d : Dialect) (t : Text) (r : Option (Text × Text)) (p v a : Option Text)
    : Type 0 where
  pub route : d.patterns.route_re t ≡ r
  pub page : d.patterns.page_re t ≡ p
  pub validate : d.patterns.validate_re t ≡ v
  pub auth : d.patterns.auth_re t ≡ a

module _ (d : Dialect) (file worker : Text) where
  module _ (n : ℕ) (l : Text) (ls : List Text) (w : Waiting) where
    skip_step :
        d.skips (trim_space l) ≡ true
        → parse_lines d file worker n (l ∷ ls) w ≡ parse_lines d file worker (suc n) ls w
    unfolding parse_lines
    skip_step e = rw (parse_lines, e) refl

    comment_step :
        IsComment d l
        → parse_lines d file worker n (l ∷ ls) w
          ≡ parse_lines d file worker (suc n) ls (note d.patterns (suc n) (comment_of d l) w)
    unfolding parse_lines
    comment_step c = rw (parse_lines, c.read, c.marked) refl

    code_step :
        IsCode d l
        → parse_lines d file worker n (l ∷ ls) w
          ≡ (flush d.patterns file worker w).0
            ++ parse_lines d file worker (suc n) ls (flush d.patterns file worker w).1
    unfolding parse_lines
    code_step c = rw (parse_lines, c.read, c.plain) refl

  ends_block :
      (n m : ℕ) (code : Text) (rest : List Text) (w : Waiting)
      → n ≡ m
      → IsCode d code
      → waits w ≡ true
      → parse_lines d file worker n (code ∷ rest) w
        ≡ parse_lines d file worker n [] w ++ parse_lines d file worker (suc m) rest nothing
  unfolding parse_lines
  ends_block n m code rest w e c h = code_step n code rest w c ∙ rw (parse_lines, h, e) refl

  -- Where a route waits at the end of some lines, the code behind them ends its block: the routes
  -- are those of the lines, and then those of the rest alone.
  pub parse_lines-block :
      (n : ℕ) (ls rest : List Text) (code : Text) (w : Waiting)
      → IsCode d code
      → waits (after_lines d file worker n ls w) ≡ true
      → parse_lines d file worker n (ls ++ code ∷ rest) w
        ≡ parse_lines d file worker n ls w
          ++ parse_lines d file worker (suc (n + length ls)) rest nothing
  unfolding after_lines
  parse_lines-block n [] rest code w c h = ends_block n (n + 0) code rest w (omega arith) c h
  parse_lines-block n (l ∷ ls) rest code w c h =
      let e : n + suc (length ls) ≡ suc n + length ls = omega arith in
      elim (Bool-cases (d.skips (trim_space l))) [
        | inl s ↦
            rw (skip_step n l (ls ++ code ∷ rest) w s, skip_step n l ls w s, e)
              (parse_lines-block (suc n) ls rest code w c (rw (after_lines, s) at h))
        | inr s ↦ elim (Bool-cases (is_prefix d.marker (trim_space l))) [
          | inl m ↦
              let k : IsComment d l = record { read = s; marked = m } in
              rw (comment_step n l (ls ++ code ∷ rest) w k, comment_step n l ls w k, e)
                (parse_lines-block (suc n) ls rest code (note d.patterns (suc n) (comment_of d l) w)
                  c (rw (after_lines, s, m) at h))
          | inr m ↦
              let k : IsCode d l = record { read = s; plain = m } in
              rw (code_step n l (ls ++ code ∷ rest) w k, code_step n l ls w k, e)
                (ap (λ rs. (flush d.patterns file worker w).0 ++ rs)
                    (parse_lines-block (suc n) ls rest code (flush d.patterns file worker w).1 c
                      (rw (after_lines, s, m) at h))
                  ∙ sym (append_assoc (flush d.patterns file worker w).0 _ _))
        ]
      ]

  -- A line without an annotation: passed over, code, or a comment that says nothing to the parser.
  abbrev pub Aside : Text → Type 0
  Aside l =
      (d.skips (trim_space l) ≡ true)
      ⊎ (IsCode d l ⊎ (IsComment d l × Says d (comment_of d l) none none none none))

  -- A line of the block of a route that has no roles: passed over, or a comment that may have a
  -- schema.
  abbrev pub Roleless : Text → Type 0
  Roleless l =
      (d.skips (trim_space l) ≡ true)
      ⊎ (IsComment d l
          × (d.patterns.route_re (comment_of d l) ≡ none)
          × (d.patterns.page_re (comment_of d l) ≡ none)
          × (d.patterns.auth_re (comment_of d l) ≡ none))

  flush_idle : (w : Waiting) → waits w ≡ false → flush d.patterns file worker w ≡ ([], w)
  flush_idle w e = rw e refl

  -- Lines without annotations leave what waits as it is, where no route waits.
  over_asides :
      (n : ℕ) (ls rest : List Text) (w : Waiting)
      → All Aside ls
      → waits w ≡ false
      → parse_lines d file worker n (ls ++ rest) w
        ≡ parse_lines d file worker (n + length ls) rest w
  over_asides n [] rest w h e = ap (λ k. parse_lines d file worker k rest w) (omega arith)
  over_asides n (l ∷ ls) rest w (inl s, hs) e =
      skip_step n l (ls ++ rest) w s
      ∙ over_asides (suc n) ls rest w hs e
      ∙ ap (λ k. parse_lines d file worker k rest w) (omega arith)
  over_asides n (l ∷ ls) rest w (inr (inl c), hs) e =
      code_step n l (ls ++ rest) w c
      ∙ ap (λ x. x.0 ++ parse_lines d file worker (suc n) (ls ++ rest) x.1) (flush_idle w e)
      ∙ over_asides (suc n) ls rest w hs e
      ∙ ap (λ k. parse_lines d file worker k rest w) (omega arith)
  over_asides n (l ∷ ls) rest w (inr (inr (c, a)), hs) e =
      let same : note d.patterns (suc n) (comment_of d l) w ≡ w =
        unfold note in rw (a.route, a.page, a.validate, a.auth) refl in
      comment_step n l (ls ++ rest) w c
      ∙ ap (parse_lines d file worker (suc n) (ls ++ rest)) same
      ∙ over_asides (suc n) ls rest w hs e
      ∙ ap (λ k. parse_lines d file worker k rest w) (omega arith)

  -- How a block without roles of its own ends at the next line of code: by a route with the roles
  -- and under the path that wait, and the rest behind it starts afresh.
  abbrev Ended : Waiting → List Text → List Route → Type 0
  Ended w rest rs =
      (v : Waiting) × (k : ℕ) × (rs
        ≡ build_route d.patterns file worker v ∷ parse_lines d file worker k rest nothing)
      × (v.route ≡ w.route)
      × (v.auth ≡ w.auth)

  noted :
      (n : ℕ) (t : Text) (w : Waiting)
      → d.patterns.route_re t ≡ none
      → d.patterns.page_re t ≡ none
      → d.patterns.auth_re t ≡ none
      → let x = note d.patterns n t w in (x.route ≡ w.route) × (x.auth ≡ w.auth)
  unfolding note
  noted n t w a b c = elim (Option-cases (d.patterns.validate_re t)) [
    | inl e ↦ rw (a, b, e, c) (refl, refl)
    | inr (m, e) ↦ rw (a, b, e) (refl, refl)
  ]

  block-Ended :
      (n : ℕ) (own rest : List Text) (next : Text) (w : Waiting)
      → All Roleless own
      → IsCode d next
      → is_empty w.route ≡ false
      → Ended w rest (parse_lines d file worker n (own ++ next ∷ rest) w)
  block-Ended n [] rest next w h c e =
      let busy : waits w ≡ true = rw e refl in
      (w, suc n, code_step n next rest w c ∙ rw busy refl, refl, refl)
  block-Ended n (l ∷ own) rest next w (inl s, hs) c e =
      let (v, k, steps, r, a) = block-Ended (suc n) own rest next w hs c e in
      (v, k, skip_step n l (own ++ next ∷ rest) w s ∙ steps, r, a)
  block-Ended n (l ∷ own) rest next w (inr (m, no_route, no_page, no_auth), hs) c e =
      let x = note d.patterns (suc n) (comment_of d l) w in
      let (same_route, same_auth) = noted (suc n) (comment_of d l) w no_route no_page no_auth in
      let (v, k, steps, r, a) =
        block-Ended (suc n) own rest next x hs c (ap is_empty same_route ∙ e) in
      (v, k, comment_step n l (own ++ next ∷ rest) w m ∙ steps, r ∙ same_route, a ∙ same_auth)

  -- Roles in a comment without a route wait, over any code and comments without annotations behind
  -- it, for the next route: where no comment of that has roles of its own, it gets these, and what
  -- comes behind it starts afresh.
  pub orphan_auth :
      (n : ℕ) (auth route next list m p : Text) (between own rest : List Text)
      → IsComment d auth
      → Says d (comment_of d auth) none none none (some list)
      → is_empty (comment_of d auth) ≡ false
      → All Aside between
      → IsComment d route
      → d.patterns.route_re (comment_of d route) ≡ some (m, p)
      → is_empty (comment_of d route) ≡ false
      → All Roleless own
      → IsCode d next
      → (r : Route) × (k : ℕ) × (parse_lines d file worker n
            (auth ∷ (between ++ (route ∷ (own ++ next ∷ rest))))
            nothing
          ≡ r ∷ parse_lines d file worker k rest nothing)
        × (r.path ≡ trim_space p)
        × (r.auth_roles ≡ roles_in (split 44 list))
  unfolding build_route parse_roles note
  orphan_auth n auth route next list m p between own rest ca says given aside cr hit named own' c =
      let ta = comment_of d auth in
      let tr = comment_of d route in
      let w₁ : note d.patterns (suc n) ta nothing ≡ record nothing { auth = ta } =
        rw (note, says.route, says.page, says.validate, says.auth) refl in
      let behind = between ++ (route ∷ (own ++ next ∷ rest)) in
      let k = suc n + length between in
      let w₂ : note d.patterns (suc k) tr (record nothing { auth = ta })
          ≡ record nothing { auth = ta; route = tr; line = suc k } =
        rw (note, hit) refl in
      let w = record nothing { auth = ta; route = tr; line = suc k } in
      let (v, j, steps, r, a) = block-Ended (suc k) own rest next w own' c named in
      (
        build_route d.patterns file worker v,
        j,
        comment_step n auth behind nothing ca
            ∙ ap (parse_lines d file worker (suc n) behind) w₁
            ∙ over_asides (suc n) between (route ∷ (own ++ next ∷ rest))
                (record nothing { auth = ta }) aside refl
            ∙ comment_step k route (own ++ next ∷ rest) (record nothing { auth = ta }) cr
            ∙ ap (parse_lines d file worker (suc k) (own ++ next ∷ rest)) w₂
            ∙ steps,
        rw (build_route, r, named, hit) refl,
        rw (build_route, r, named, hit, parse_roles, a, given, says.auth) refl,
      )
