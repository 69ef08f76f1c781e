-- ===== src/Examples/Sources.antt =====
-- Annotated sources of workers, and what their processes write.
use vyx.Logs.{raw_entry, new, entries_of}
use vyx.Logs.Ring.{Event, pushes, subscribes, run, pushed, latest}
use vyx.Logs.Latest.{entries_of-run}
use vyx.Base.{
  inl, inr, ℕ, List, ◌++◌, ◌≡◌, refl, false, [], ◌∷◌, none, some, lit, Text, length, if◌then◌else◌,
}
use vyx.Route.{split, non_empty, is_empty}
use vyx.ClientIp.{trim_left_space, trim_right_space}
use vyx.Process.{pipe_log}
use vyx.Process.Lines.{concat, pipe_log-split}
use vyx.Redact.{redact}
use vyx.Redact.Masks.{Masks}
use vyx.Redact.Masking.{redact-Ends}
use vyx.Scanner
use vyx.Scanner.{AnnotationError}
use vyx.Scanner.Parsing.{Dialect, Patterns, ts_dialect, trim_space, parse_lines, nothing, roles_in}
use vyx.Scanner.Pending.{IsCode, IsComment, Says, comment_of, orphan_auth}
use vyx.Redact.{is_prefix}

pipe_log-split_example :
    pipe_log [] (lit "a" ∷ (b'b' ∷ 10 ∷ []) ∷ lit "c" ∷ [])
    ≡ non_empty (split 10 (concat (lit "a" ∷ (b'b' ∷ 10 ∷ []) ∷ lit "c" ∷ [])))
pipe_log-split_example = pipe_log-split (lit "a" ∷ (b'b' ∷ 10 ∷ []) ∷ lit "c" ∷ [])

redact-Ends_example :
    (r : Text) × (redact (lit "password=a") ≡ some r)
    × Masks (lit "password=a") r
    × (length r ≡ length (lit "password=a"))
redact-Ends_example = redact-Ends (lit "password=a")

abbrev health : Scanner.Route
health = record {
  path = lit "/health";
  method = lit "GET";
  worker_id = lit "go:api";
  auth_roles = lit "user" ∷ [];
  validate = [];
  type = lit "api";
  file = lit "main.go";
  line = 3;
}

-- Patterns that know one annotation of each kind by its first letters.
abbrev patterns : Patterns
patterns = record {
  route_re = λ t. if is_prefix (lit "@R") t then some (lit "get", lit "/o") else none;
  page_re = λ t. none;
  validate_re = λ t. none;
  auth_re = λ t. if is_prefix (lit "@A") t then some (lit "\"admin\"") else none;
}

abbrev dialect : Dialect
dialect = ts_dialect patterns

abbrev auth_line : Text
auth_line = lit "// @Auth"

abbrev code_line : Text
code_line = lit "x = 1"

abbrev route_line : Text
route_line = lit "  // @Route"

is_code : IsCode dialect code_line
unfolding ts_dialect trim_space trim_left_space trim_right_space is_prefix
is_code = record { read = refl; plain = refl }

auth-IsComment : IsComment dialect auth_line
unfolding ts_dialect trim_space trim_left_space trim_right_space is_prefix
auth-IsComment = record { read = refl; marked = refl }

route-IsComment : IsComment dialect route_line
unfolding ts_dialect trim_space trim_left_space trim_right_space is_prefix
route-IsComment = record { read = refl; marked = refl }

annotated : Says dialect (comment_of dialect auth_line) none none none (some (lit "\"admin\""))
unfolding ts_dialect trim_space trim_left_space trim_right_space is_prefix
annotated = record { route = refl; page = refl; validate = refl; auth = refl }

routed :
    (is_empty (comment_of dialect auth_line) ≡ false)
    × (dialect.patterns.route_re (comment_of dialect route_line) ≡ some (lit "get", lit "/o"))
    × (is_empty (comment_of dialect route_line) ≡ false)
unfolding ts_dialect trim_space trim_left_space trim_right_space is_prefix
routed = (refl, refl, refl)

orphan_auth_example :
    (r : Scanner.Route) × (k : ℕ) × (parse_lines dialect
        (lit "f")
        (lit "w")
        0
        (auth_line
          ∷ ((code_line ∷ code_line ∷ []) ++ (route_line ∷ ([] ++ code_line ∷ auth_line ∷ []))))
        nothing
      ≡ r ∷ parse_lines dialect (lit "f") (lit "w") k (auth_line ∷ []) nothing)
    × (r.path ≡ trim_space (lit "/o"))
    × (r.auth_roles ≡ roles_in (split 44 (lit "\"admin\"")))
orphan_auth_example =
    orphan_auth dialect (lit "f") (lit "w") 0 auth_line route_line code_line (lit "\"admin\"")
      (lit "get") (lit "/o") (code_line ∷ code_line ∷ []) [] (auth_line ∷ []) auth-IsComment
      annotated routed.0 (inr (inl is_code), (inr (inl is_code), tt)) route-IsComment routed.1
      routed.2 tt is_code

abbrev logged : List Event
logged =
    pushes (raw_entry (lit "api") (lit "starting") 1)
    ∷ subscribes 4
    ∷ pushes (raw_entry (lit "api") (lit "listening") 2)
    ∷ pushes (raw_entry (lit "ml") (lit "ready") 3)
    ∷ []

entries_of-run_example : entries_of (run logged (new (some 2))) ≡ some (latest 2 (pushed logged))
entries_of-run_example = entries_of-run (some 2) logged
