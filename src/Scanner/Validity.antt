-- ===== src/Scanner/Validity.antt =====
-- What the validator and the generator of scanner/ let through.
use vyx.Base.{◌≡◌, true, false, not, ◌&&◌, List, [], ◌∷◌, Option, Text}
use vyx.Route.{is_empty}
use vyx.Dispatcher.{member}
use vyx.Scanner.{
  Route, valid_methods, starts_with_slash, has_body, is_page, key_of, validate, Scanned, scanned,
  joined,
}

-- A known method, a path from the root, a schema where there is a body, and roles unless it is a
-- page.
pub record Acceptable (r : Route) : Type 0 where
  pub known : member r.method valid_methods ≡ true
  pub rooted : starts_with_slash r.path ≡ true
  pub with_schema : (has_body r.method && is_empty r.validate) ≡ false
  pub with_roles : (is_empty r.auth_roles && not (is_page r)) ≡ false

-- No route has the method and path of an earlier one, nor a key in the list.
abbrev pub Fresh : List Text → List Route → Type 0
Fresh seen [] = Unit
Fresh seen (r ∷ rs) = (member (key_of r) seen ≡ false) × Fresh (key_of r ∷ seen) rs

abbrev pub all_scanned : Option Scanned → Option Scanned → Option Scanned → Option Scanned → Scanned
all_scanned go ts py frontend =
    joined (joined (joined (scanned go) (scanned ts)) (scanned py)) (scanned frontend)
