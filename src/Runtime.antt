-- ===== src/Runtime.antt =====
-- The provisioning of language runtimes, core/infrastructure/runtime/runtime.go. `Host` is what the
-- file system and the commands answer; the messages of the logger are left out. White space is that
-- of ASCII.
pub mod Decisions
use vyx.Base.{
  ℕ, Bool, true, false, not, ◌&&◌, ◌||◌, List, [], ◌∷◌, ◌++◌, Option, none, some, if◌then◌else◌,
  Text, lit, str_eq,
}
use vyx.Route.{is_empty, onto_head, non_empty}
use vyx.ClientIp.{is_space}
use vyx.Redact.{is_prefix}

pub data Runtime : Type 0 where
  node python go unknown : Runtime

-- `strings.Fields`.
unfoldable pub split_spaces : Text → List Text
split_spaces [] = [] ∷ []
split_spaces (c ∷ s) =
    let rest = split_spaces s in if is_space c then [] ∷ rest else onto_head c rest

unfoldable pub fields : Text → List Text
fields s = non_empty (split_spaces s)

abbrev pub is_one_of : Text → List Text → Bool
is_one_of t [] = false
is_one_of t (x ∷ xs) = str_eq t x || is_one_of t xs

unfoldable pub detect_first : Text → Runtime
detect_first first =
    if str_eq first (lit "node")
    then node
    else if is_one_of first (lit "python" ∷ lit "python3" ∷ lit "pypy" ∷ [])
    then python
    else if str_eq first (lit "go")
    then go
    else if is_one_of first (lit "npm" ∷ lit "npx" ∷ [])
    then node
    else if is_one_of first (lit "pip" ∷ lit "uv" ∷ [])
    then python
    else if is_prefix (lit "node") first
    then node
    else if is_prefix (lit "python") first
    then python
    else if is_prefix (lit "go") first
    then go
    else unknown

abbrev pub detect_in : List Text → Runtime
detect_in [] = unknown
detect_in (first ∷ parts) = detect_first first

unfoldable pub detect : Text → Runtime
detect command = detect_in (fields command)

unfoldable pub default_version : Runtime → Text
default_version node = lit "20"
default_version python = lit "3.12"
default_version go = lit "1.21"
default_version unknown = []

-- The first field of a command; `none` where there is none and the source panics.
abbrev pub unless_go : List Text → Option Bool
unless_go [] = none
unless_go (first ∷ parts) = some (not (str_eq first (lit "go")))

-- The first argument says whether VYX_SKIP_RUNTIME is 1.
unfoldable pub needs_provisioning : Bool → Text → Option Bool
needs_provisioning skips command =
    if skips
    then some false
    else if is_empty command
    then some false
    else unless_go (fields command)

-- What is done to the host, each of which may fail.
pub data Action : Type 0 where
  download_fnm download_uv : Text → Action
  fnm_install fnm_use : Text → Text → Action
  uv_install : Text → Text → Action

pub record Host : Type 0 where
  pub exists : Text → Bool
  pub glob : Text → List Text
  pub go_in_path : Option Text
  pub works : Action → Bool

pub data RuntimeError : Type 0 where
  fails : Action → RuntimeError
  python_missing go_missing not_installed unsupported : RuntimeError

abbrev pub Ensured : Type 0
Ensured = List Action × Option RuntimeError

-- One action, and what comes after it if it works.
unfoldable pub acts : Host → Action → Ensured → Ensured
acts h a next = if h.works a then (a ∷ next.0, next.1) else (a ∷ [], some (fails a))

abbrev pub unless_exists : Host → Text → Action → Ensured → Ensured
unless_exists h path a next = if h.exists path then next else acts h a next

abbrev pub or_dir : Text → Text
or_dir dir = if is_empty dir then lit ".vyx" else dir

infixl 20 ◌/◌
◌/◌ : Text → Text → Text
dir / name = dir ++ b'/' ∷ name

abbrev pub or_default : Runtime → Text → Text
or_default rt version = if is_empty version then default_version rt else version

unfoldable pub ensure_node : Host → Text → Text → Ensured
unfolding ◌/◌
ensure_node h version dir =
    let runtimes = dir / lit "runtimes" in
    let fnm_dir = runtimes / lit "fnm" in
    let node_dir = runtimes / lit "node" in
    let binary = node_dir / (b'v' ∷ version) / lit "bin" / lit "node" in
    unless_exists h (fnm_dir / lit "fnm") (download_fnm fnm_dir) (
      if h.exists binary
      then ([], none)
      else acts h (fnm_install version node_dir) (acts h (fnm_use version node_dir) ([], none)))

-- The interpreters of a version, and those of any.
unfoldable pub pattern_of : Text → Text → Text
unfolding ◌/◌
pattern_of dir version = dir / (lit "cpython-" ++ version ++ b'*' ∷ []) / lit "bin" / lit "python3"

abbrev pub found_python : Host → Text → Text → Bool
found_python h dir version =
    not (is_empty (h.glob (pattern_of dir version))) || not (is_empty (h.glob (pattern_of dir [])))

abbrev pub python_dir : Text → Text
python_dir dir = dir ++ lit "/runtimes/python"

abbrev pub uv_dir : Text → Text
uv_dir dir = dir ++ lit "/runtimes/uv"

unfoldable pub ensure_python : Host → Text → Text → Ensured
ensure_python h version dir = unless_exists h (uv_dir dir ++ lit "/uv") (download_uv (uv_dir dir)) (
    acts h (uv_install version (python_dir dir))
      ([], if found_python h (python_dir dir) version then none else some python_missing))

abbrev pub in_path : Option Text → Option RuntimeError
in_path none = some go_missing
in_path (some path) = none

unfoldable pub ensure : Host → Runtime → Text → Text → Ensured
ensure h node version dir = ensure_node h (or_default node version) (or_dir dir)
ensure h python version dir = ensure_python h (or_default python version) (or_dir dir)
ensure h go version dir = ([], in_path h.go_in_path)
ensure h unknown version dir = ([], some unsupported)

-- `Resolve`, with `none` for its error: the first binary of any version.
abbrev pub first_of : List Text → Option Text
first_of [] = none
first_of (m ∷ ms) = some m

unfoldable pub resolve : Host → Runtime → Text → Option Text
unfolding ◌/◌
resolve h node dir =
    first_of (h.glob (or_dir dir / lit "runtimes" / lit "node" / lit "v*" / lit "bin" / lit "node"))
resolve h python dir = first_of (h.glob (pattern_of (python_dir (or_dir dir)) []))
resolve h go dir = h.go_in_path
resolve h unknown dir = none
