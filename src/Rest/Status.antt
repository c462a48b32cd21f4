-- ===== src/Rest/Status.antt =====
-- What the handlers of src/restserver.cc answer.
use nexran.Base.{
  Bool, nat_beq, ◌||◌, ◌&&◌, ◌≡◌, refl, sym, ap, ◌∙◌, ℕ, String, true, false, List, [], ◌∷◌, Option,
  none, some, arith, string_key,
}
use nexran.Resource.Json.{Json}
use nexran.Resource.Error.{AppError, Result, ok, err, fault}
use nexran.Resource.Schema.{Schema, HttpMethod}
use nexran.Resource.Validate.{validate_json}
use nexran.Resource.Validate.Messages.{verdict, faults, validate_json-verdict}
use nexran.Resource.Policy
use nexran.Resource.Policy.{Policy}
use nexran.Resource.Slice
use nexran.Resource.Slice.{Slice, create_policy}
use nexran.Resource.Ue
use nexran.Resource.Ue.{Ue}
use nexran.Resource.NodeB
use nexran.Resource.NodeB.{NodeB, new_nodeb, build_name}

abbrev pub is_client_error : ℕ → Bool
is_client_error n = nat_beq n 400 || nat_beq n 403 || nat_beq n 404

abbrev pub has_messages : List String → Bool
has_messages [] = false
has_messages (m ∷ ms) = true

abbrev pub explains : Option AppError → Bool
explains none = false
explains (some ae) = is_client_error ae.http_status && has_messages ae.messages

-- A failure sets `*ae`, with a status of the client's errors and a message.
abbrev pub is_reported {ℓ} : {A : Type ℓ} → Result A → Bool
is_reported (ok a) = true
is_reported (err e) = explains e
is_reported fault = true

verdict-explains :
    (ms : List String) → (verdict ms).retval ≡ false → explains (verdict ms).ae ≡ true
verdict-explains [] h = absurd (ground (arith, h))
verdict-explains (m ∷ ms) h = refl

module _ (json : Json) where
  open json use {Value}

  validate_json-explains :
      (schema : Schema) (m : HttpMethod) (d : Value)
      → schema.immediate_abort ≡ false
      → (validate_json json schema m d none).retval ≡ false
      → explains (validate_json json schema m d none).ae ≡ true
  validate_json-explains schema m d e h =
      let v = validate_json-verdict json schema m d e in
      ap (λ w. explains w.ae) v
      ∙ verdict-explains (faults json schema m d) (ap (λ w. w.retval) (sym v) ∙ h)

  Policy_update-reported : (d : Value) (p : Policy) → is_reported (Policy.update json d p) ≡ true
  unfolding Policy.update
  Policy_update-reported d p = ground arith

  pub NodeB_update-reported : (d : Value) (nb : NodeB) → is_reported (NodeB.update json d nb) ≡ true
  unfolding NodeB.update NodeB.schema
  NodeB_update-reported d nb =
      ground (arith, validate_json-explains NodeB.schema HttpMethod.put d refl)

  pub Slice_update-reported : (d : Value) (s : Slice) → is_reported (Slice.update json d s) ≡ true
  unfolding Slice.update Slice.schema
  Slice_update-reported d s = ground (
    arith,
    validate_json-explains Slice.schema HttpMethod.put d refl,
    Policy_update-reported (json.member d "allocation_policy") s.allocation_policy,
  )

  pub Ue_update-reported : (d : Value) (u : Ue) → is_reported (Ue.update json d u) ≡ true
  unfolding Ue.update Ue.schema
  Ue_update-reported d u = ground (arith, validate_json-explains Ue.schema HttpMethod.put d refl)

  pub NodeB_create-reported :
      (address : ℕ) (d : Value) → is_reported (NodeB.create json address d) ≡ true
  unfolding NodeB.create NodeB.schema new_nodeb build_name
  NodeB_create-reported address d =
      ground (arith, validate_json-explains NodeB.schema HttpMethod.post d refl)

  pub Slice_create-reported :
      (address : ℕ) (d : Value) → is_reported (Slice.create json address d) ≡ true
  unfolding Slice.create Slice.schema create_policy
  Slice_create-reported address d =
      ground (arith, validate_json-explains Slice.schema HttpMethod.post d refl)

  pub Ue_create-reported :
      (address : ℕ) (garbage : Bool) (d : Value)
      → is_reported (Ue.create json address garbage d) ≡ true
  unfolding Ue.create Ue.schema
  Ue_create-reported address garbage d =
      ground (arith, validate_json-explains Ue.schema HttpMethod.post d refl)
