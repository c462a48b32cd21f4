-- ===== src/Rest/Crashes.antt =====
-- Which requests can crash a handler of src/restserver.cc: those with a value on which an assertion of
-- rapidjson fails, and those for a node whose name is too long for the buffer of src/nodeb.cc.
use nexran.Base.{
  ◌≡◌, ◌≢◌, refl, ℕ, ◌%◌, ◌^◌, String, Bool, true, not, ◌&&◌, ◌||◌, none, arith, leb, string_key,
  if◌then◌else◌, Bool-cases, inl, inr,
}
use Prim.Native.String.{len}
use nexran.Base.Map.{find}
use nexran.Resource.Json.{Json}
use nexran.Resource.Error.{fault}
use nexran.Resource.Schema.{HttpMethod, JsonType}
use nexran.Resource.Validate.{validate_json}
use nexran.Resource.Validate.Acceptable.{validate_json-IsAcceptable, IsTyped-find}
use nexran.Resource.Policy.Throttle.{update-ne-fault}
use nexran.Resource.Slice
use nexran.Resource.Slice.{Slice, create_policy}
use nexran.Resource.Ue
use nexran.Resource.Ue.{Ue}
use nexran.Resource.NodeB
use nexran.Resource.NodeB.{
  NodeB, new_nodeb, build_name, formatted_name, type_string_to_type, required, optional,
}

module _ (json : Json) where
  open json use {
    Value, is_string, is_int, is_bool, has_member, member, get_string, get_int, get_uint,
  }

  -- A member that is there and is not of the type that the code reads it with.
  abbrev pub is_wrong : (Value → Bool) → Value → String → Bool
  is_wrong test obj k = has_member obj k && not (test (member obj k))

  -- The name that the code makes of a node's properties has 128 characters at least.
  abbrev pub name_is_long : Value → Bool
  name_is_long d = leb 128 (
      len (
        formatted_name (type_string_to_type (get_string (member d "type")))
          (get_string (member d "mcc")) (get_string (member d "mnc")) (get_int (member d "id"))
          ((if has_member d "id_len" then get_uint (member d "id_len") else 20) % 2 ^ 8)))

  abbrev pub policy_is_wrong : Value → Bool
  policy_is_wrong p =
      is_wrong is_bool p "throttle"
      || is_wrong is_int p "throttle_threshold"
      || is_wrong is_int p "throttle_period"
      || is_wrong is_int p "throttle_share"

  pub NodeB_create-fault :
      (address : ℕ) (d : Value) → NodeB.create json address d ≡ fault → name_is_long d ≡ true
  unfolding NodeB.create NodeB.schema required optional new_nodeb build_name find
  NodeB_create-fault address d h =
      let (to, _) = validate_json-IsAcceptable json NodeB.schema HttpMethod.post d refl in
      elim (Bool-cases (validate_json json NodeB.schema HttpMethod.post d none).retval) [
        | inr n ↦ absurd (ground (arith, h))
        | inl y ↦
            let a = to y in
            let ((_, t), rest) = a.required in
            let ((_, i), rest2) = rest in
            let ((_, c), rest3) = rest2 in
            let ((_, n), _) = rest3 in
            let (l, _) = a.optional in
            let typed = IsTyped-find json NodeB.schema d in
            let t' = typed "type" JsonType.string refl t in
            let i' = typed "id" JsonType.int refl i in
            let c' = typed "mcc" JsonType.string refl c in
            let n' = typed "mnc" JsonType.string refl n in
            let l' =
              λ (p : has_member d "id_len" ≡ true). typed "id_len" JsonType.uint refl (l p) in
            ground (arith, h, l')
      ]

  pub Slice_create-fault :
      (address : ℕ) (d : Value)
      → Slice.create json address d ≡ fault
      → has_member d "allocation_policy" && policy_is_wrong (member d "allocation_policy") ≡ true
  unfolding Slice.create Slice.schema Slice.required create_policy find
  Slice_create-fault address d h =
      let (to, _) = validate_json-IsAcceptable json Slice.schema HttpMethod.post d refl in
      elim (Bool-cases (validate_json json Slice.schema HttpMethod.post d none).retval) [
        | inr n ↦ absurd (ground (arith, h))
        | inl y ↦
            let ((_, n), _) = (to y).required in
            let n' = IsTyped-find json Slice.schema d "name" JsonType.string refl n in
            ground (arith, h)
      ]

  pub Ue_create-ne-fault :
      (address : ℕ) (garbage : Bool) (d : Value) → Ue.create json address garbage d ≢ fault
  unfolding Ue.create Ue.schema Ue.required Ue.optional find
  Ue_create-ne-fault address garbage d =
      let (to, _) = validate_json-IsAcceptable json Ue.schema HttpMethod.post d refl in
      elim (Bool-cases (validate_json json Ue.schema HttpMethod.post d none).retval) [
        | inr n ↦ ground arith
        | inl y ↦
            let a = to y in
            let ((_, i), _) = a.required in
            let (t, _) = a.optional in
            let i' = IsTyped-find json Ue.schema d "imsi" JsonType.string refl i in
            let t' = λ (p : has_member d "tmsi" ≡ true).
              IsTyped-find json Ue.schema d "tmsi" JsonType.string refl (t p) in
            ground (arith, t')
      ]

  pub NodeB_update-ne-fault : (d : Value) (nb : NodeB) → NodeB.update json d nb ≢ fault
  unfolding NodeB.update
  NodeB_update-ne-fault d nb = ground arith

  pub Slice_update-ne-fault : (d : Value) (s : Slice) → Slice.update json d s ≢ fault
  unfolding Slice.update
  Slice_update-ne-fault d s =
      ground (arith, update-ne-fault json (member d "allocation_policy") s.allocation_policy)

  pub Ue_update-fault :
      (d : Value) (u : Ue)
      → Ue.update json d u ≡ fault
      → is_wrong is_string d "imsi" || is_wrong is_string d "tmsi" ≡ true
  unfolding Ue.update
  Ue_update-fault d u h = ground (arith, h)
