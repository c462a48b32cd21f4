-- ===== src/Resource/Validate.antt =====
-- `Resource<T>::validate_value` and `Resource<T>::validate_json` of include/nexran.h.
pub mod Messages
pub mod Acceptable
use nexran.Base.{
  String, Bool, true, false, not, ◌&&◌, ◌||◌, List, [], ◌∷◌, Option, none, some, if◌then◌else◌,
  ◌==◌, string_key,
}
use nexran.Base.Map.{find}
use nexran.Resource.Json.{Json}
use nexran.Resource.Error.{AppError, add_error}
use nexran.Resource.Schema.{Schema, HttpMethod, JsonType}
use Prim.Native.String.{◌++◌}

-- `retval` and `*ae`.
pub record Verdict : Type 0 where
  pub retval : Bool
  pub ae : Option AppError

abbrev pub reject : String → Verdict → Verdict
reject message v = record { retval = false; ae = add_error 400 message v.ae }

abbrev pub contains_string : String → List String → Bool
contains_string s [] = false
contains_string s (t ∷ ts) = s == t || contains_string s ts

-- The loop that the four parts of `validate_json` share: `problem` gives the message for a key that
-- is at fault. The second result says that the function returned at once.
unfoldable pub scan {ℓ} :
    {A : Type ℓ} → Bool → (A → Option String) → List A → Verdict → Verdict × Bool
scan abort problem [] v = (v, false)
scan abort problem (k ∷ ks) v = elim (problem k) [
  | none ↦ scan abort problem ks v
  | some message ↦
      let rest = scan abort problem ks (reject message v) in
      if abort then (reject message v, true) else rest
]

-- A part is skipped after an immediate return.
abbrev pub then_scan : Verdict × Bool → (Verdict → Verdict × Bool) → Verdict × Bool
then_scan (v, true) part = (v, true)
then_scan (v, false) part = part v

abbrev pub keys_of : Option (List String) → List String
keys_of none = []
keys_of (some ks) = ks

module _ (json : Json) where
  open json use {
    Value, is_string, is_int, is_uint, is_float, is_object, is_array, is_bool, has_member, member,
    get_string,
  }

  unfoldable pub has_type : JsonType → Value → Bool
  has_type JsonType.string v = is_string v
  has_type JsonType.int v = is_int v
  has_type JsonType.uint v = is_uint v
  has_type JsonType.float v = is_float v
  has_type JsonType.object v = is_object v
  has_type JsonType.array v = is_array v
  has_type JsonType.bool v = is_bool v

  unfoldable pub validate_value : Schema → String → Value → Bool
  unfolding has_type
  validate_value schema k v = elim (find k schema.property_types) [
    | none ↦ false
    | some t ↦ has_type t v
  ]

  unfoldable pub required_problem : Schema → Value → String → Option String
  required_problem schema obj k =
      if not (has_member obj k)
      then some ("missing required property: " ++ k)
      else if not (validate_value schema k (member obj k))
      then some ("invalid type for property: " ++ k)
      else none

  unfoldable pub optional_problem : Schema → Value → String → Option String
  optional_problem schema obj k =
      if not (has_member obj k)
      then none
      else if not (validate_value schema k (member obj k))
      then some ("invalid type for property: " ++ k)
      else none

  unfoldable pub disallowed_problem : Value → String → Option String
  disallowed_problem obj k = if has_member obj k then some ("invalid property: " ++ k) else none

  unfoldable pub enum_problem : Value → String × List String → Option String
  enum_problem obj (k, values) =
      if has_member obj k
        && is_string (member obj k)
        && not (contains_string (get_string (member obj k)) values)
      then some ("invalid enum value for property: " ++ k)
      else none

  -- The four parts in order, with the value of `T::propertyErrorImmediateAbort`.
  unfoldable pub validate_parts : Bool → Schema → HttpMethod → Value → Verdict → Verdict × Bool
  unfolding scan
  validate_parts abort schema m obj start =
      let r1 = scan abort (required_problem schema obj) (keys_of (schema.required m)) start in
      let r2 =
        then_scan r1 (scan abort (optional_problem schema obj) (keys_of (schema.optional m))) in
      let r3 = then_scan r2 (scan abort (disallowed_problem obj) (keys_of (schema.disallowed m))) in
      then_scan r3 (scan abort (enum_problem obj) schema.property_enums)

  unfoldable pub validate_json : Schema → HttpMethod → Value → Option AppError → Verdict
  unfolding validate_parts
  validate_json schema m obj ae =
      (validate_parts schema.immediate_abort schema m obj (record { retval = true; ae = ae })).0
