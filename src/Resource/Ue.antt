-- ===== src/Resource/Ue.antt =====
-- `Ue` of include/nexran.h and src/ue.cc.
use nexran.Base.{
  ℕ, String, Bool, false, not, List, [], ◌∷◌, Option, none, some, if◌then◌else◌, ◌==◌, string_key,
}
use nexran.Resource.Json.{Json, read_string}
use nexran.Resource.Error.{Result, ok, err, raise, ◌>>=◌}
use nexran.Resource.Writer.{Token, start_object, end_object, str, bool}
use nexran.Resource.Schema.{Schema, JsonType, HttpMethod}
use nexran.Resource.Validate.{validate_json}

-- `address` stands for the object's identity, which pointers to it name.
pub record Ue : Type 0 where
  pub address : ℕ
  pub imsi : String
  pub tmsi : String
  pub crnti : String
  pub connected : Bool
  pub bound_slice : String

unfoldable pub required : HttpMethod → Option (List String)
required HttpMethod.post = some ("imsi" ∷ [])
required m = none

unfoldable pub optional : HttpMethod → Option (List String)
optional HttpMethod.post = some ("tmsi" ∷ [])
optional m = none

unfoldable pub disallowed : HttpMethod → Option (List String)
disallowed HttpMethod.post = some ("crnti" ∷ "status" ∷ [])
disallowed HttpMethod.put = some ("crnti" ∷ "status" ∷ [])
disallowed m = none

unfoldable pub schema : Schema
unfolding required optional disallowed
schema = record {
  property_types =
      ("crnti", JsonType.string)
      ∷ ("imsi", JsonType.string)
      ∷ ("status", JsonType.object)
      ∷ ("tmsi", JsonType.string)
      ∷ [];
  property_enums = [];
  required = required;
  optional = optional;
  disallowed = disallowed;
  immediate_abort = false;
}

-- Neither constructor sets `connected`: it is what the memory holds, `garbage`.
unfoldable pub new_ue : ℕ → Bool → String → String → String → Ue
new_ue address garbage imsi tmsi crnti = record {
  address = address;
  imsi = imsi;
  tmsi = tmsi;
  crnti = crnti;
  connected = garbage;
  bound_slice = "";
}

unfoldable pub is_bound : Ue → Bool
is_bound ue = not (ue.bound_slice == "")

-- `bind_slice` and `unbind_slice` have no `return` on the path that does the work: `none` is that they
-- return no value. They are taken to come back all the same, since no caller looks at the value.
unfoldable pub bind_slice : String → Ue → Ue × Option Bool
unfolding is_bound
bind_slice slice_name ue =
    if is_bound ue then (ue, some false) else (record ue { bound_slice = slice_name }, none)

unfoldable pub unbind_slice : Ue → Ue × Option Bool
unfolding is_bound
unbind_slice ue =
    if not (is_bound ue) then (ue, some false) else (record ue { bound_slice = "" }, none)

unfoldable pub serialize : Ue → List Token
serialize ue =
    start_object
    ∷ str "imsi"
    ∷ str ue.imsi
    ∷ str "tmsi"
    ∷ str ue.tmsi
    ∷ str "crnti"
    ∷ str ue.crnti
    ∷ str "status"
    ∷ start_object
    ∷ str "connected"
    ∷ bool ue.connected
    ∷ end_object
    ∷ end_object
    ∷ []

module _ (json : Json) where
  open json use {Value, is_object, has_member, member}

  unfoldable pub create : ℕ → Bool → Value → Result Ue
  unfolding new_ue
  create address garbage d =
      if not (is_object d)
      then raise 400 "request is not an object"
      else let v = validate_json json schema HttpMethod.post d none in
        if not v.retval
        then err v.ae
        else if has_member d "tmsi"
        then (do
          imsi ← read_string json (member d "imsi")
          tmsi ← read_string json (member d "tmsi")
          ok (new_ue address garbage imsi tmsi ""))
        else (do imsi ← read_string json (member d "imsi"); ok (new_ue address garbage imsi "" ""))

  -- `strcmp` reads "imsi" whatever its type is.
  abbrev pub check_imsi : Value → Ue → Result (Unit {0})
  check_imsi d ue = if not (has_member d "imsi") then ok tt else (do
    imsi ← read_string json (member d "imsi")
    if ue.imsi == imsi then ok tt else raise 403 "cannot modify immutable property: imsi")

  abbrev pub update_tmsi : Value → Ue → Result Ue
  update_tmsi d ue =
      if not (has_member d "tmsi")
      then ok ue
      else (do tmsi ← read_string json (member d "tmsi"); ok (record ue { tmsi = tmsi }))

  unfoldable pub update : Value → Ue → Result Ue
  update d ue =
      if not (is_object d)
      then raise 400 "request is not an object"
      else let v = validate_json json schema HttpMethod.put d none in
        if not v.retval then err v.ae else (do _ ← check_imsi d ue; update_tmsi d ue)
