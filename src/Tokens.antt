-- ===== src/Tokens.antt =====
-- The validator of tokens of core/infrastructure/gateway/jwt.go. `parse` is `jwt.ParseWithClaims` of
-- the library, which verifies the signature with the key that it is given for the method of the
-- token, and `none` its error.
use vyx.Base.{
  ℕ, ◌≡◌, ◌↔◌, ◌≤◌, ap, sym, ◌∙◌, arith, Bool, true, false, not, ◌&&◌, ◌||◌, refl, List, [], Option,
  none, some, if◌then◌else◌, ltb, Text, str_eq,
}
use mathlib.Core.Path.{fun_ext}
use vyx.Route.{is_empty}
use vyx.Dispatcher.{Claims, member}

pub record VyxClaims : Type 0 where
  pub sub : Text
  pub roles : List Text
  pub issuer : Text
  pub audience : List Text
  pub not_before : Option ℕ

pub record JwtValidator : Type 0 where
  pub secret : Text
  pub issuer : Text
  pub audience : Text

unfoldable pub new_jwt_validator_with_claims : Text → Text → Text → JwtValidator
new_jwt_validator_with_claims secret issuer audience = record {
  secret = secret;
  issuer = issuer;
  audience = audience;
}

unfoldable pub new_jwt_validator : Text → JwtValidator
unfolding new_jwt_validator_with_claims
new_jwt_validator secret = new_jwt_validator_with_claims secret [] []

-- The function that gives the library a key: none unless the method is an HMAC.
abbrev pub key_of : JwtValidator → Bool → Option Text
key_of v true = some v.secret
key_of v false = none

abbrev pub too_early : ℕ → Option ℕ → Bool
too_early now none = false
too_early now (some t) = ltb now t

pub data Validated : Type 0 where
  accepted : Claims → Validated
  parse_error not_authorized : Validated

abbrev pub check_claims : JwtValidator → ℕ → VyxClaims → Validated
check_claims v now c =
    if not (is_empty v.issuer) && not (str_eq c.issuer v.issuer)
    then not_authorized
    else if not (is_empty v.audience) && not (member v.audience c.audience)
    then not_authorized
    else if too_early now c.not_before
    then not_authorized
    else accepted (record { user_id = c.sub; roles = c.roles })

abbrev pub check_parsed : JwtValidator → ℕ → Option VyxClaims → Validated
check_parsed v now none = parse_error
check_parsed v now (some c) = check_claims v now c

unfoldable pub validate :
    ((Bool → Option Text) → Text → Option VyxClaims) → JwtValidator → ℕ → Text → Validated
validate parse v now token = check_parsed v now (parse (key_of v) token)

-- What is asked of the claims of a token beyond its signature.
pub record Fits (v : JwtValidator) (now : ℕ) (c : VyxClaims) : Type 0 where
  pub issued : (is_empty v.issuer || str_eq c.issuer v.issuer) ≡ true
  pub addressed : (is_empty v.audience || member v.audience c.audience) ≡ true
  pub in_time : ((t : ℕ) → c.not_before ≡ some t → t ≤ now)

in_time-too_early :
    (now : ℕ) (o : Option ℕ) → (too_early now o ≡ false) ↔ ((t : ℕ) → o ≡ some t → t ≤ now)
in_time-too_early now none = (λ h t e. cc, λ h. refl)
in_time-too_early now (some n) = (λ h t e. ground arith, λ h. let k = h n refl in ground arith)

-- The key for a token: the secret, and for the methods of HMAC only.
abbrev pub HmacOnly : JwtValidator → (Bool → Option Text) → Type 0
HmacOnly v key = (key true ≡ some v.secret) × (key false ≡ none)

check_claims-Fits :
    (v : JwtValidator) (now : ℕ) (c : VyxClaims) (k : Claims)
    → (check_claims v now c ≡ accepted k)
      ↔ (Fits v now c × (k ≡ record { user_id = c.sub; roles = c.roles }))
check_claims-Fits v now c k =
    let (fwd, bwd) = in_time-too_early now c.not_before in
    (
      λ h.
          let issued : (is_empty v.issuer || str_eq c.issuer v.issuer) ≡ true = ground arith in
          let addressed : (is_empty v.audience || member v.audience c.audience) ≡ true =
            ground arith in
          let early : too_early now c.not_before ≡ false = ground arith in
          let same : k ≡ record { user_id = c.sub; roles = c.roles } = ground arith in
          (record { issued = issued; addressed = addressed; in_time = fwd early }, same),
      λ h.
          let issued : (is_empty v.issuer || str_eq c.issuer v.issuer) ≡ true = h.0.issued in
          let addressed : (is_empty v.audience || member v.audience c.audience) ≡ true =
            h.0.addressed in
          let early : too_early now c.not_before ≡ false = bwd h.0.in_time in
          let same : k ≡ record { user_id = c.sub; roles = c.roles } = h.1 in ground arith,
    )

-- A token is accepted, with these claims, exactly if the library accepts it with a key that is the
-- secret where the method of the token is an HMAC and missing for any other method, its issuer is
-- the expected one, its audience has the expected one, where these are configured, and the time
-- before which it is not valid, where it has one, is not in the future.
pub validate-Fits :
    (parse : (Bool → Option Text) → Text → Option VyxClaims) (v : JwtValidator) (now : ℕ)
    (token : Text) (k : Claims)
    → (validate parse v now token ≡ accepted k) ↔ (
        (key : Bool → Option Text) × HmacOnly v key
        × (c : VyxClaims) × (parse key token ≡ some c)
        × Fits v now c
        × (k ≡ record { user_id = c.sub; roles = c.roles }))
unfolding validate
validate-Fits parse v now token k = (there (parse (key_of v) token) refl, back)
  where
    there :
        (o : Option VyxClaims)
        → parse (key_of v) token ≡ o
        → check_parsed v now o ≡ accepted k
        → (key : Bool → Option Text) × HmacOnly v key
          × (c : VyxClaims) × (parse key token ≡ some c)
          × Fits v now c
          × (k ≡ record { user_id = c.sub; roles = c.roles })
    there none e h = cc
    there (some c) e h =
        let (f, same) = (check_claims-Fits v now c k).0 h in (key_of v, (refl, refl), c, e, f, same)

    same_key : (key : Bool → Option Text) → HmacOnly v key → key ≡ key_of v
    same_key key h = fun_ext (λ b. elim b as (λ x. key x ≡ key_of v x) [ true ↦ h.0 | false ↦ h.1 ])

    back :
        ((key : Bool → Option Text) × HmacOnly v key
          × (c : VyxClaims) × (parse key token ≡ some c)
          × Fits v now c
          × (k ≡ record { user_id = c.sub; roles = c.roles }))
        → check_parsed v now (parse (key_of v) token) ≡ accepted k
    back (key, only, c, e, f, same) =
        let there' : parse (key_of v) token ≡ some c =
          ap (λ g. parse g token) (sym (same_key key only)) ∙ e in
        rw there' ((check_claims-Fits v now c k).1 (f, same))
