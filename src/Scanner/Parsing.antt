-- ===== src/Scanner/Parsing.antt =====
-- The parsers of comments of scanner/go_parser.go, ts_parser.go and py_parser.go, which are one
-- machine over the lines of a file, read by bufio.Scanner. The regular expressions are outside: each
-- gives what its groups match.
use vyx.Base.{
  ℕ, suc, Bool, false, not, ◌&&◌, List, [], ◌∷◌, ◌++◌, Option, none, some, if◌then◌else◌, Text, lit,
  to_upper, length, drop, is_some,
}
use vyx.Route.{is_empty, split, trim_left, trim_right}
use vyx.ClientIp.{trim_left_space, trim_right_space}
use vyx.Redact.{is_prefix}
use vyx.Scanner.{Route, cannot_open, Scanned, joined}

pub record Patterns : Type 0 where
  pub route_re : Text → Option (Text × Text)
  pub page_re : Text → Option Text
  pub validate_re : Text → Option Text
  pub auth_re : Text → Option Text

-- How a language marks a comment, and which lines its parser passes over.
pub record Dialect : Type 0 where
  pub marker : Text
  pub skips : Text → Bool
  pub patterns : Patterns

unfoldable pub trim_space : Text → Text
trim_space s = trim_right_space (trim_left_space s)

-- The annotations that wait for the end of their block, each as its comment.
pub record Waiting : Type 0 where
  pub route : Text
  pub page : Text
  pub validate : Text
  pub auth : Text
  pub line : ℕ

abbrev pub nothing : Waiting
nothing = record { route = []; page = []; validate = []; auth = []; line = 0 }

abbrev pub matched : (Text → Option Text) → Text → Text
matched re comment =
    if is_empty comment then [] else elim (re comment) [ none ↦ [] | some m ↦ trim_space m ]

unfoldable pub roles_in : List Text → List Text
roles_in [] = []
roles_in (r ∷ rs) =
    let role = trim_right 34 (trim_left 34 (trim_space r)) in
    let rest = roles_in rs in if is_empty role then rest else role ∷ rest

abbrev pub roles_of : Option Text → List Text
roles_of none = []
roles_of (some list) = roles_in (split 44 list)

unfoldable pub parse_roles : (Text → Option Text) → Text → List Text
parse_roles re comment = if is_empty comment then [] else roles_of (re comment)

abbrev pub route_with : Patterns → Text → Text → Waiting → Text → Text → Text → Route
route_with p file worker w method path type = record {
  path = path;
  method = method;
  worker_id = worker;
  auth_roles = parse_roles p.auth_re w.auth;
  validate = matched p.validate_re w.validate;
  type = type;
  file = file;
  line = w.line;
}

-- A comment waits for a route only if the expression matches it: a match that is missing here
-- faults, which is left as a route without a method.
abbrev pub api_route : Patterns → Text → Text → Waiting → Option (Text × Text) → Route
api_route p file worker w none = route_with p file worker w [] [] (lit "api")
api_route p file worker w (some (method, path)) =
    route_with p file worker w (to_upper (trim_space method)) (trim_space path) (lit "api")

abbrev pub page_route : Patterns → Text → Text → Waiting → Option Text → Route
page_route p file worker w none = route_with p file worker w (lit "GET") [] (lit "page")
page_route p file worker w (some path) =
    route_with p file worker w (lit "GET") (trim_space path) (lit "page")

-- `buildTSRoute`; without pages it is `buildRoute` and `buildPyRoute`.
unfoldable pub build_route : Patterns → Text → Text → Waiting → Route
build_route p file worker w =
    if is_empty w.route
    then page_route p file worker w (p.page_re w.page)
    else api_route p file worker w (p.route_re w.route)

abbrev pub waits : Waiting → Bool
waits w = not (is_empty w.route && is_empty w.page)

-- The end of a block: its route, if one waits. Without one, nothing is cleared.
abbrev pub flush : Patterns → Text → Text → Waiting → List Route × Waiting
flush p file worker w = if waits w then (build_route p file worker w ∷ [], nothing) else ([], w)

-- The switch on a comment.
unfoldable pub note : Patterns → ℕ → Text → Waiting → Waiting
note p n comment w =
    if is_some (p.route_re comment)
    then record w { route = comment; line = n }
    else if is_some (p.page_re comment)
    then record w { page = comment; line = n }
    else if is_some (p.validate_re comment)
    then record w { validate = comment }
    else if is_some (p.auth_re comment)
    then record w { auth = comment }
    else w

-- The loop over the lines, from the number of the last one read.
unfoldable pub parse_lines : Dialect → Text → Text → ℕ → List Text → Waiting → List Route
parse_lines d file worker n [] w = (flush d.patterns file worker w).0
parse_lines d file worker n (l ∷ ls) w =
    let line = trim_space l in
    let comment = trim_space (drop (length d.marker) line) in
    let (rs, w') = flush d.patterns file worker w in
    let skipped = parse_lines d file worker (suc n) ls w in
    let flushed = parse_lines d file worker (suc n) ls w' in
    let noted = parse_lines d file worker (suc n) ls (note d.patterns (suc n) comment w) in
    if d.skips line then skipped else if is_prefix d.marker line then noted else rs ++ flushed

-- A file that cannot be opened is an error.
unfoldable pub parse_file : Dialect → Text → Text → Option (List Text) → Scanned
parse_file d worker file none = ([], record { file = file; line = 0; problem = cannot_open } ∷ [])
parse_file d worker file (some lines) = (parse_lines d file worker 0 lines nothing, [])

abbrev pub never {ℓ} : {A : Type ℓ} → Text → Option A
never t = none

unfoldable pub go_dialect :
    (Text → Option (Text × Text)) → (Text → Option Text) → (Text → Option Text) → Dialect
go_dialect route validate auth = record {
  marker = lit "//";
  skips = λ l. false;
  patterns = record { route_re = route; page_re = never; validate_re = validate; auth_re = auth };
}

unfoldable pub py_dialect :
    (Text → Option (Text × Text)) → (Text → Option Text) → (Text → Option Text) → Dialect
py_dialect route validate auth = record {
  marker = lit "#";
  skips = is_prefix (lit "class ");
  patterns = record { route_re = route; page_re = never; validate_re = validate; auth_re = auth };
}

unfoldable pub ts_dialect : Patterns → Dialect
ts_dialect p = record { marker = lit "//"; skips = λ l. false; patterns = p }

-- The walk over the files of a directory that have the extension of the language.
unfoldable pub parse_files : Dialect → Text → List (Text × Option (List Text)) → Scanned
parse_files d worker [] = ([], [])
parse_files d worker ((file, lines) ∷ fs) =
    joined (parse_file d worker file lines) (parse_files d worker fs)

abbrev pub parse_go_files :
    (Text → Option (Text × Text))
    → (Text → Option Text)
    → (Text → Option Text)
    → Text
    → List (Text × Option (List Text))
    → Scanned
parse_go_files route validate auth = parse_files (go_dialect route validate auth)

abbrev pub parse_py_files :
    (Text → Option (Text × Text))
    → (Text → Option Text)
    → (Text → Option Text)
    → Text
    → List (Text × Option (List Text))
    → Scanned
parse_py_files route validate auth = parse_files (py_dialect route validate auth)

abbrev pub parse_ts_files : Patterns → Text → List (Text × Option (List Text)) → Scanned
parse_ts_files p = parse_files (ts_dialect p)
