-- ===== src/Scanner.antt =====
-- The annotation scanner of scanner/: its types, the validator of validator.go and the generator of
-- generator.go. A message of an error is its kind, and the lists of files that the parsers walk are
-- arguments.
pub mod Parsing
pub mod Pages
pub mod Validity
pub mod Pending
use vyx.Base.{
  ℕ, zero, suc, Bool, true, false, not, ◌&&◌, ◌||◌, List, [], ◌∷◌, ◌++◌, Option, none, some,
  if◌then◌else◌, ◌==◌, Text, lit, str_eq, Dict, lookup, insert, is_some,
}
use vyx.Route.{is_empty}
use vyx.Dispatcher.{member}

pub record Route : Type 0 where
  pub path : Text
  pub method : Text
  pub worker_id : Text
  pub auth_roles : List Text
  pub validate : Text
  pub type : Text
  pub file : Text
  pub line : ℕ

pub data Problem : Type 0 where
  unknown_method bad_path duplicate no_validate no_auth : Problem
  cannot_open no_annotation empty_page : Problem

pub record AnnotationError : Type 0 where
  pub file : Text
  pub line : ℕ
  pub problem : Problem

abbrev pub valid_methods : List Text
valid_methods =
    lit "GET"
    ∷ lit "POST"
    ∷ lit "PUT"
    ∷ lit "PATCH"
    ∷ lit "DELETE"
    ∷ lit "HEAD"
    ∷ lit "OPTIONS"
    ∷ []

abbrev pub starts_with_slash : Text → Bool
starts_with_slash [] = false
starts_with_slash (c ∷ s) = c == b'/'

abbrev pub has_body : Text → Bool
has_body m = str_eq m (lit "POST") || str_eq m (lit "PUT") || str_eq m (lit "PATCH")

abbrev pub is_page : Route → Bool
is_page r = str_eq r.type (lit "page")

-- A problem if the test says so, before others.
abbrev pub when : Bool → Problem → List Problem → List Problem
when true p ps = p ∷ ps
when false p ps = ps

unfoldable pub validate_route : Route → List Problem
validate_route r =
    when (has_body r.method && is_empty r.validate) no_validate
      (when (is_empty r.auth_roles && not (is_page r)) no_auth [])

abbrev pub key_of : Route → Text
key_of r = r.method ++ b' ' ∷ r.path

-- What the loop of `Validate` finds for one route, given the keys that it has seen.
unfoldable pub problems_of : List Text → Route → List Problem
problems_of seen r = when (not (member r.method valid_methods)) unknown_method (
    when (not (starts_with_slash r.path)) bad_path
      (when (member (key_of r) seen) duplicate (validate_route r)))

unfoldable pub located : Route → List Problem → List AnnotationError
located r [] = []
located r (p ∷ ps) = record { file = r.file; line = r.line; problem = p } ∷ located r ps

unfoldable pub validate_from : List Text → List Route → List AnnotationError
validate_from seen [] = []
validate_from seen (r ∷ rs) = located r (problems_of seen r) ++ validate_from (key_of r ∷ seen) rs

-- `Validate`; its list of warnings is always empty.
unfoldable pub validate : List Route → List AnnotationError
validate rs = validate_from [] rs

abbrev pub Scanned : Type 0
Scanned = List Route × List AnnotationError

-- What is scanned from a directory, where one is given.
abbrev pub scanned : Option Scanned → Scanned
scanned none = ([], [])
scanned (some s) = s

abbrev pub joined : Scanned → Scanned → Scanned
joined (rs, es) (qs, ds) = (rs ++ qs, es ++ ds)

-- `Generate` up to the writing of the file: the errors, or the routes that go into it.
pub data Generated : Type 0 where
  refused : List AnnotationError → Generated
  route_map : List Route → Generated

abbrev pub generated : List Route → List AnnotationError → Generated
generated rs [] = route_map rs
generated rs (e ∷ es) = refused (e ∷ es)

unfoldable pub generate :
    Option Scanned → Option Scanned → Option Scanned → Option Scanned → Generated
generate go ts py frontend =
    let (routes, errs) =
      joined (joined (joined (scanned go) (scanned ts)) (scanned py)) (scanned frontend) in
    generated routes (errs ++ validate routes)
