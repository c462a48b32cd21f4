-- ===== src/Resource/Slice.antt =====
-- `Slice` of include/nexran.h and src/slice.cc.
use nexran.Base.{
  ℕ, String, Bool, true, false, not, ◌||◌, List, [], ◌∷◌, ◌++◌, Option, none, some, if◌then◌else◌,
  string_key,
}
use nexran.Base.Int.{ℤ, pos, minus_one}
use nexran.Base.Map.{Map, contains, put, erase}
use nexran.Resource.Json.{Json, read_string, read_int, read_bool}
use nexran.Resource.Error.{Result, ok, err, raise, ◌>>=◌}
use nexran.Resource.Pointer.{Ref}
use nexran.Resource.Writer.{
  Token, start_object, end_object, start_array, end_array, str, key_tokens,
}
use nexran.Resource.Schema.{Schema, JsonType, HttpMethod}
use nexran.Resource.Validate.{validate_json}
use nexran.Resource.Policy
use nexran.Resource.Policy.{
  Policy, new_policy, default_policy, share_is_malformed, flag_is_malformed,
}
use nexran.Resource.Ue.{Ue}

pub record Slice : Type 0 where
  pub address : ℕ
  pub name : String
  pub allocation_policy : Policy
  pub ues : Map String Ref

unfoldable pub required : HttpMethod → Option (List String)
required HttpMethod.post = some ("name" ∷ [])
required m = none

unfoldable pub disallowed : HttpMethod → Option (List String)
disallowed HttpMethod.put = some ("name" ∷ [])
disallowed m = none

unfoldable pub schema : Schema
unfolding required disallowed
schema = record {
  property_types = ("allocation_policy", JsonType.object) ∷ ("name", JsonType.string) ∷ [];
  property_enums = [];
  required = required;
  optional = λ m. none;
  disallowed = disallowed;
  immediate_abort = false;
}

unfoldable pub new_slice : ℕ → String → Policy → Slice
new_slice address name policy = record {
  address = address;
  name = name;
  allocation_policy = policy;
  ues = [];
}

unfoldable pub bind_ue : Ue → Slice → Slice × Bool
bind_ue ue s = if contains ue.imsi s.ues then (s, false) else (
  record s { ues = put ue.imsi (record { name = ue.imsi; address = ue.address }) s.ues },
  true,
)

unfoldable pub unbind_ue : String → Slice → Slice × Bool
unbind_ue imsi s =
    if not (contains imsi s.ues) then (s, false) else (record s { ues = erase imsi s.ues }, true)

unfoldable pub serialize : Slice → List Token
unfolding key_tokens
serialize s =
    start_object
      ∷ str "name"
      ∷ str s.name
      ∷ str "allocation_policy"
      ∷ Policy.serialize s.allocation_policy
    ++ str "ues" ∷ start_array ∷ key_tokens s.ues
    ++ end_array ∷ end_object ∷ []

module _ (json : Json) where
  open json use {Value, is_object, has_member, member, get_int}

  -- The optional numbers and flags that `create` reads with no test of their type.
  abbrev pub int_or : Value → String → ℤ → Result ℤ
  int_or obj k default = if has_member obj k then read_int json (member obj k) else ok default

  abbrev pub bool_or : Value → String → Bool → Result Bool
  bool_or obj k default = if has_member obj k then read_bool json (member obj k) else ok default

  abbrev pub policy_is_malformed : Value → Bool
  policy_is_malformed obj =
      not (is_object obj)
      || share_is_malformed json obj
      || flag_is_malformed json obj "auto_equalize"

  unfoldable pub create_policy : Value → Result Policy
  unfolding new_policy
  create_policy obj =
      if policy_is_malformed obj then raise 400 "malformed allocation_policy property" else do
        auto_equalize ← bool_or obj "auto_equalize" false
        throttle ← bool_or obj "throttle" false
        threshold ← int_or obj "throttle_threshold" minus_one
        period ← int_or obj "throttle_period" (pos 1800)
        throttle_share ← int_or obj "throttle_share" (pos 128)
        ok (
            new_policy (get_int (member obj "share")) auto_equalize throttle threshold period
              throttle_share)

  unfoldable pub create : ℕ → Value → Result Slice
  unfolding new_slice create_policy default_policy
  create address d =
      if not (is_object d)
      then raise 400 "request is not an object"
      else let v = validate_json json schema HttpMethod.post d none in
        if not v.retval then err v.ae else (do
          policy ←
              (if has_member d "allocation_policy"
                then create_policy (member d "allocation_policy")
                else ok default_policy)
          name ← read_string json (member d "name")
          ok (new_slice address name policy))

  unfoldable pub update : Value → Slice → Result Slice
  update d s =
      if not (is_object d)
      then raise 400 "request is not an object"
      else let v = validate_json json schema HttpMethod.put d none in
        if not v.retval
        then err v.ae
        else if not (has_member d "allocation_policy")
        then ok s
        else if not (is_object (member d "allocation_policy"))
        then raise 400 "malformed allocation_policy property"
        else (do
          policy ← Policy.update json (member d "allocation_policy") s.allocation_policy
          ok (record s { allocation_policy = policy }))
