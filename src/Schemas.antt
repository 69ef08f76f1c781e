-- ===== src/Schemas.antt =====
-- The validator of bodies of core/infrastructure/gateway/schema.go, with its cache of compiled
-- schemas. Outside are the directory, the library for JSON schemas and the parser of JSON: `compile`
-- is the file's schema, `none` where it is missing or wrong, `parse` gives the object in a body, and
-- `check` the error of the library.
use vyx.Base.{
  ◌≡◌, sym, ap, ◌∙◌, arith, Bool, true, false, List, [], ◌∷◌, Option, none, some, if◌then◌else◌,
  Text, str_eq, str_eq_iff, Dict, lookup, insert, lookup-insert, Option-cases, inl, inr,
}

pub record Cause : Type 0 where
  pub location : Text
  pub message : Text

-- An error of the library with the errors that caused it, or another one.
pub data LibraryError : Type 0 where
  of_schema : List Cause → Cause → LibraryError
  other : Text → LibraryError

abbrev pub or_one : List Cause → Cause → List Cause
or_one [] c = c ∷ []
or_one (d ∷ ds) c = d ∷ ds

-- The details of the structured error.
unfoldable pub to_validation_error : LibraryError → List Cause
to_validation_error (of_schema causes c) = or_one causes c
to_validation_error (other text) = record { location = []; message = text } ∷ []

pub data Verdict : Type 0 where
  valid no_schema no_object : Verdict
  invalid : List Cause → Verdict

module _ {Schema Object : Type 0} (compile : Text → Option Schema) (parse : Text → Option Object)
    (check : Schema → Object → Option LibraryError) where
  pub record SchemaValidator : Type 0 where
    pub cached : Dict Schema

  unfoldable pub new_schema_validator : SchemaValidator
  new_schema_validator = record { cached = [] }

  abbrev pub compiled : Text → SchemaValidator → Option Schema → Option Schema × SchemaValidator
  compiled name v none = (none, v)
  compiled name v (some s) = (some s, record { cached = insert name s v.cached })

  unfoldable pub compile_cached : Text → SchemaValidator → Option Schema × SchemaValidator
  compile_cached name v = compiled name v (compile name)

  abbrev pub or_compile : Text → SchemaValidator → Option Schema → Option Schema × SchemaValidator
  or_compile name v (some s) = (some s, v)
  or_compile name v none = compile_cached name v

  unfoldable pub get_schema : Text → SchemaValidator → Option Schema × SchemaValidator
  get_schema name v = or_compile name v (lookup name v.cached)

  -- `WarmUp` over the names of the files in the directory; its result is whether all compile.
  unfoldable pub warm_up : List Text → SchemaValidator → Bool × SchemaValidator
  warm_up [] v = (true, v)
  warm_up (name ∷ names) v =
      let (s, v₁) = compile_cached name v in
      let (rest, v₂) = warm_up names v₁ in (elim s [ none ↦ false | some _ ↦ rest ], v₂)

  unfoldable pub invalidate_cache : SchemaValidator → SchemaValidator
  invalidate_cache v = record { cached = [] }

  abbrev pub verdict_of : Option LibraryError → Verdict
  verdict_of none = valid
  verdict_of (some e) = invalid (to_validation_error e)

  abbrev pub check_object : Schema → Option Object → Verdict
  check_object s none = no_object
  check_object s (some o) = verdict_of (check s o)

  abbrev pub check_body : Option Schema → Text → Verdict
  check_body none body = no_schema
  check_body (some s) body = check_object s (parse body)

  unfoldable pub validate : Text → Text → SchemaValidator → Verdict × SchemaValidator
  validate name body v = let (s, v') = get_schema name v in (check_body s body, v')

  pub data Event : Type 0 where
    warms : List Text → Event
    invalidates : Event
    validates : Text → Text → Event

  unfoldable pub step : Event → SchemaValidator → SchemaValidator
  step (warms names) v = (warm_up names v).1
  step invalidates v = invalidate_cache v
  step (validates name body) v = (validate name body v).1

  unfoldable pub run : List Event → SchemaValidator → SchemaValidator
  run [] v = v
  run (e ∷ es) v = run es (step e v)

  -- Every schema in the cache is the one of its file.
  abbrev pub Faithful : SchemaValidator → Type 0
  Faithful v = (name : Text) (s : Schema) → lookup name v.cached ≡ some s → compile name ≡ some s

  compile_cached-Faithful :
      (name : Text) (v : SchemaValidator) → Faithful v → Faithful (compile_cached name v).1
  unfolding compile_cached
  compile_cached-Faithful name v f j s e = elim (Option-cases (compile name)) [
    | inl n ↦ f j s (rw n at e)
    | inr (t, h) ↦
        let e' : (if str_eq name j then some t else lookup j v.cached) ≡ some s =
          sym (lookup-insert name j t v.cached) ∙ rw h at e in
        ground (arith, str_eq_iff name j, f j s)
  ]

  compile_cached_result :
      (name : Text) (v : SchemaValidator) → (compile_cached name v).0 ≡ compile name
  unfolding compile_cached
  compile_cached_result name v = ground arith

  get_schema-Faithful :
      (name : Text) (v : SchemaValidator)
      → Faithful v
      → Faithful (get_schema name v).1 × ((get_schema name v).0 ≡ compile name)
  unfolding get_schema
  get_schema-Faithful name v f = elim (Option-cases (lookup name v.cached)) [
    | inl n ↦ rw n (compile_cached-Faithful name v f, compile_cached_result name v)
    | inr (s, h) ↦ rw h (f, sym (f name s h))
  ]

  warm_up-Faithful :
      (names : List Text) (v : SchemaValidator) → Faithful v → Faithful (warm_up names v).1
  unfolding warm_up
  warm_up-Faithful [] v f = f
  warm_up-Faithful (name ∷ names) v f =
      warm_up-Faithful names (compile_cached name v).1 (compile_cached-Faithful name v f)

  step-Faithful : (e : Event) (v : SchemaValidator) → Faithful v → Faithful (step e v)
  unfolding step validate invalidate_cache lookup
  step-Faithful (warms names) v f = warm_up-Faithful names v f
  step-Faithful invalidates v f = λ name s e. cc
  step-Faithful (validates name body) v f = (get_schema-Faithful name v f).0

  run-Faithful : (es : List Event) (v : SchemaValidator) → Faithful v → Faithful (run es v)
  unfolding run
  run-Faithful [] v f = f
  run-Faithful (e ∷ es) v f = run-Faithful es (step e v) (step-Faithful e v f)

  -- After any warming, invalidating and validating over a directory that does not change, the
  -- verdict on a body is the one with a schema compiled afresh.
  pub validate-run :
      (es : List Event) (name body : Text)
      → (validate name body (run es new_schema_validator)).0 ≡ check_body (compile name) body
  unfolding validate new_schema_validator lookup
  validate-run es name body =
      let f = run-Faithful es new_schema_validator (λ n s e. cc) in
      ap (λ s. check_body s body) (get_schema-Faithful name (run es new_schema_validator) f).1
