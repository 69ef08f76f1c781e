-- ===== src/Scanner/Pages.antt =====
-- The parser of pages of scanner/tsx_parser.go over the lines of a file. The regular expressions and
-- `strconv.Unquote` are outside.
use vyx.Base.{ℕ, suc, Bool, not, ◌&&◌, List, [], ◌∷◌, Option, none, some, if◌then◌else◌, Text, lit}
use vyx.Route.{is_empty, split}
use vyx.Redact.{is_prefix}
use vyx.Scanner.{Route, cannot_open, empty_page, Scanned, joined}
use vyx.Scanner.Parsing.{trim_space}

pub record PagePatterns : Type 0 where
  pub page_re : Text → Option Text
  pub auth_re : Text → Option Text
  pub unquote : Text → Option Text

abbrev pub role_of : (Text → Option Text) → Text → List Text → List Text
role_of unquote part roles = elim (unquote part) [
  | some r ↦ r ∷ roles
  | none ↦ if is_empty part then roles else part ∷ roles
]

unfoldable pub parse_role_list : (Text → Option Text) → List Text → List Text
parse_role_list unquote [] = []
parse_role_list unquote (p ∷ ps) = role_of unquote (trim_space p) (parse_role_list unquote ps)

abbrev pub page : Text → Text → ℕ → Text → Route
page file worker n path = record {
  path = path;
  method = lit "GET";
  worker_id = worker;
  auth_roles = [];
  validate = [];
  type = lit "page";
  file = file;
  line = n;
}

abbrev pub flushed : Option Route → Scanned → Scanned
flushed none s = s
flushed (some r) (rs, es) = (r ∷ rs, es)

-- A page annotation with this path begins a page; an empty path is an error.
abbrev pub begins : Text → Text → ℕ → Text → (Option Route → Scanned) → Scanned
begins file worker n path next =
    if is_empty path
    then joined ([], record { file = file; line = n; problem = empty_page } ∷ []) (next none)
    else next (some (page file worker n path))

abbrev pub is_code : Text → Bool
is_code line = not (is_empty (trim_space line)) && not (is_prefix (lit "//") (trim_space line))

-- Another line: roles for the page that waits, or code that ends it.
abbrev pub goes_on :
    PagePatterns → Text → Option Text → Option Route → (Option Route → Scanned) → Scanned
goes_on p line auth none next = next none
goes_on p line (some roles) (some r) next =
    next (some (record r { auth_roles = parse_role_list p.unquote (split 44 roles) }))
goes_on p line none (some r) next =
    if is_code line then flushed (some r) (next none) else next (some r)

abbrev pub page_line :
    PagePatterns
    → Text
    → Text
    → ℕ
    → Text
    → Option Text
    → Option Route
    → (Option Route → Scanned)
    → Scanned
page_line p file worker n line (some path) waiting next =
    flushed waiting (begins file worker n (trim_space path) next)
page_line p file worker n line none waiting next = goes_on p line (p.auth_re line) waiting next

unfoldable pub parse_page_lines :
    PagePatterns → Text → Text → ℕ → List Text → Option Route → Scanned
parse_page_lines p file worker n [] waiting = flushed waiting ([], [])
parse_page_lines p file worker n (l ∷ ls) waiting =
    page_line p file worker (suc n) l (p.page_re l) waiting
      (parse_page_lines p file worker (suc n) ls)

unfoldable pub parse_tsx_file : PagePatterns → Text → Text → Option (List Text) → Scanned
parse_tsx_file p worker file none =
    ([], record { file = file; line = 0; problem = cannot_open } ∷ [])
parse_tsx_file p worker file (some lines) = parse_page_lines p file worker 0 lines none

unfoldable pub parse_tsx_files : PagePatterns → Text → List (Text × Option (List Text)) → Scanned
parse_tsx_files p worker [] = ([], [])
parse_tsx_files p worker ((file, lines) ∷ fs) =
    joined (parse_tsx_file p worker file lines) (parse_tsx_files p worker fs)
