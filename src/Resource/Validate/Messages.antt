-- ===== src/Resource/Validate/Messages.antt =====
-- What `validate_json` of include/nexran.h reports.
use mathlib.Core.List.{append-nil, append_assoc}
use nexran.Base.{
  String, ◌≡◌, refl, ap, ◌∙◌, true, false, List, [], ◌∷◌, ◌++◌, Option, none, some, Option-cases,
  inl, inr,
}
use nexran.Resource.Json.{Json}
use nexran.Resource.Error.{add_error}
use nexran.Resource.Schema.{Schema, HttpMethod}
use nexran.Resource.Validate.{
  Verdict, reject, scan, keys_of, required_problem, optional_problem, disallowed_problem,
  enum_problem, validate_parts, validate_json,
}

-- The messages for the keys that are at fault.
unfoldable pub problems {ℓ} : {A : Type ℓ} → (A → Option String) → List A → List String
problems problem [] = []
problems problem (k ∷ ks) = elim (problem k) [
  | none ↦ problems problem ks
  | some message ↦ message ∷ problems problem ks
]

-- The verdict that a list of messages makes: true exactly when there is none.
abbrev pub verdict : List String → Verdict
verdict [] = record { retval = true; ae = none }
verdict (m ∷ ms) = record {
  retval = false;
  ae = some (record { http_status = 400; messages = m ∷ ms });
}

reject-verdict :
    (message : String) (ms : List String)
    → reject message (verdict ms) ≡ verdict (ms ++ message ∷ [])
unfolding add_error
reject-verdict message [] = refl
reject-verdict message (m ∷ ms) = refl

scan-verdict {ℓ} :
    {A : Type ℓ} (problem : A → Option String) (ks : List A) (ms : List String)
    → scan false problem ks (verdict ms) ≡ (verdict (ms ++ problems problem ks), false)
unfolding scan problems
scan-verdict problem [] ms = rw append-nil
scan-verdict problem (k ∷ ks) ms = elim (Option-cases (problem k)) [
  | inl e ↦ rw (e, scan, problems) (scan-verdict problem ks ms)
  | inr (message, e) ↦
      rw (e, scan, problems, reject-verdict message ms)
        (scan-verdict problem ks (ms ++ message ∷ [])
          ∙ ap (λ l. (verdict l, false)) (append_assoc ms (message ∷ []) (problems problem ks)))
]

module _ (json : Json) where
  open json use {Value}

  -- Everything that is wrong with a request body.
  unfoldable pub faults : Schema → HttpMethod → Value → List String
  faults schema m obj =
      ((problems (required_problem json schema obj) (keys_of (schema.required m))
          ++ problems (optional_problem json schema obj) (keys_of (schema.optional m)))
        ++ problems (disallowed_problem json obj) (keys_of (schema.disallowed m)))
      ++ problems (enum_problem json obj) schema.property_enums

  validate_parts-verdict :
      (schema : Schema) (m : HttpMethod) (obj : Value)
      → validate_parts json false schema m obj (verdict []) ≡ (verdict (faults schema m obj), false)
  unfolding validate_parts faults
  validate_parts-verdict schema m obj = rw (
    scan-verdict (required_problem json schema obj) (keys_of (schema.required m)) [],
    scan-verdict (optional_problem json schema obj) (keys_of (schema.optional m)),
    scan-verdict (disallowed_problem json obj) (keys_of (schema.disallowed m)),
    scan-verdict (enum_problem json obj) schema.property_enums,
  )

  -- With no immediate abort a body is accepted exactly when it has no fault, and otherwise the one
  -- error has status 400 and all the messages: the required properties, then the optional, the
  -- disallowed and the enumerations.
  pub validate_json-verdict :
      (schema : Schema) (m : HttpMethod) (obj : Value)
      → schema.immediate_abort ≡ false
      → validate_json json schema m obj none ≡ verdict (faults schema m obj)
  unfolding validate_json
  validate_json-verdict schema m obj e =
      ap (λ abort. (validate_parts json abort schema m obj (verdict [])).0) e
      ∙ ap (λ r. r.0) (validate_parts-verdict schema m obj)
