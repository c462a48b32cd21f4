-- ===== src/Resource/NodeB.antt =====
-- `NodeB` of include/nexran.h and src/nodeb.cc.
use nexran.Base.{
  ℕ, ◌-◌, ◌^◌, ◌%◌, String, Bool, true, false, not, ◌||◌, List, [], ◌∷◌, ◌++◌, Option, none, some,
  if◌then◌else◌, leb, nat_beq, ◌==◌, string_key,
}
use Prim.Native.String.{len, ◌++◌ as append}
use nexran.Base.Int.{ℤ, pos, negsuc, minus_one}
use nexran.Base.Map.{Map, contains, put, erase}
use nexran.Base.Text.{hex06}
use nexran.Resource.Json.{Json, read_string, read_int, read_uint}
use nexran.Resource.Error.{Result, ok, err, fault, raise, ◌>>=◌}
use nexran.Resource.Pointer.{Ref}
use nexran.Resource.Writer.{
  Token, start_object, end_object, start_array, end_array, str, int, uint, bool, key_tokens,
}
use nexran.Resource.Schema.{Schema, JsonType, HttpMethod}
use nexran.Resource.Validate.{validate_json}
use nexran.Resource.Slice.{Slice}

-- `NodeB::Type`; `end` is `__END__`, which `type_string_to_type` returns for an unknown name.
pub data NodeType : Type 0 where
  unknown gnb gnb_cu_up gnb_du en_gnb enb ng_enb end : NodeType

pub record NodeB : Type 0 where
  pub address : ℕ
  pub name : String
  pub node_type : NodeType
  pub mcc : String
  pub mnc : String
  pub id : ℤ
  pub id_len : ℕ
  pub connected : Bool
  pub total_prbs : ℤ
  pub slices : Map String Ref

unfoldable pub type_to_type_string : NodeType → String
type_to_type_string unknown = "unknown"
type_to_type_string gnb = "gNB"
type_to_type_string gnb_cu_up = "gNB-CU-UP"
type_to_type_string gnb_du = "gNB-DU"
type_to_type_string en_gnb = "en-gNB"
type_to_type_string enb = "eNB"
type_to_type_string ng_enb = "ng-eNB"
type_to_type_string end = "invalid"

-- The loop over `type_string_map`.
unfoldable pub type_string_to_type : String → NodeType
type_string_to_type ts =
    if ts == "unknown"
    then unknown
    else if ts == "gNB"
    then gnb
    else if ts == "gNB-CU-UP"
    then gnb_cu_up
    else if ts == "gNB-DU"
    then gnb_du
    else if ts == "en-gNB"
    then en_gnb
    else if ts == "eNB"
    then enb
    else if ts == "ng-eNB"
    then ng_enb
    else end

unfoldable pub get_name_prefix : NodeType → ℕ → String
get_name_prefix unknown id_len = "unknown"
get_name_prefix gnb id_len = "gnB"
get_name_prefix gnb_cu_up id_len = "gnB"
get_name_prefix gnb_du id_len = "gnB"
get_name_prefix en_gnb id_len = "en_gnB"
get_name_prefix enb id_len =
    if nat_beq id_len 0 || nat_beq id_len 20
    then "enB_macro"
    else if nat_beq id_len 18
    then "enB_shortmacro"
    else if nat_beq id_len 21
    then "enB_longmacro"
    else "invalid"
get_name_prefix ng_enb id_len =
    if nat_beq id_len 0 || nat_beq id_len 20
    then "ng_enB_macro"
    else if nat_beq id_len 18
    then "ng_enB_shortmacro"
    else if nat_beq id_len 21
    then "ng_enB_longmacro"
    else "invalid"
get_name_prefix end id_len = "invalid"

abbrev pub mnc_prefix : String → String
mnc_prefix mnc = if nat_beq (len mnc) 1 then "00" else if nat_beq (len mnc) 2 then "0" else ""

-- The bit pattern of an `int32_t`, which `%x` prints.
abbrev pub pattern32 : ℤ → ℕ
pattern32 (pos n) = n % 2 ^ 32
pattern32 (negsuc n) = (2 ^ 32 - 1) - n % 2 ^ 32

-- The whole text that the format describes.
unfoldable pub formatted_name : NodeType → String → String → ℤ → ℕ → String
unfolding get_name_prefix
formatted_name t mcc mnc id id_len =
    append
      (append
        (append
          (append (append (append (append (get_name_prefix t id_len) "_") mcc) "_")
            (mnc_prefix mnc))
          mnc)
        "_")
      (hex06 (pattern32 id))

-- `snprintf` returns the length of the whole text; `buf[rc] = '\0'` is out of bounds from 128 on.
unfoldable pub build_name : NodeType → String → String → ℤ → ℕ → Result String
unfolding formatted_name
build_name t mcc mnc id id_len =
    let text = formatted_name t mcc mnc id id_len in if leb 128 (len text) then fault else ok text

unfoldable pub new_nodeb : ℕ → NodeType → String → String → ℤ → ℕ → Result NodeB
unfolding build_name
new_nodeb address t mcc mnc id id_len = do
  name ← build_name t mcc mnc id id_len
  ok (record {
    address = address;
    name = name;
    node_type = t;
    mcc = mcc;
    mnc = mnc;
    id = id;
    id_len = id_len;
    connected = false;
    total_prbs = minus_one;
    slices = [];
  })

unfoldable pub required : HttpMethod → Option (List String)
required HttpMethod.post = some ("type" ∷ "id" ∷ "mcc" ∷ "mnc" ∷ [])
required m = none

unfoldable pub optional : HttpMethod → Option (List String)
optional HttpMethod.post = some ("id_len" ∷ [])
optional m = none

unfoldable pub disallowed : HttpMethod → Option (List String)
disallowed HttpMethod.post = some ("name" ∷ "status" ∷ "config" ∷ [])
disallowed HttpMethod.put =
    some ("type" ∷ "id" ∷ "id_len" ∷ "mcc" ∷ "mnc" ∷ "name" ∷ "status" ∷ "config" ∷ [])
disallowed m = none

unfoldable pub schema : Schema
unfolding required optional disallowed
schema = record {
  property_types =
      ("config", JsonType.object)
      ∷ ("id", JsonType.int)
      ∷ ("id_len", JsonType.uint)
      ∷ ("mcc", JsonType.string)
      ∷ ("mnc", JsonType.string)
      ∷ ("name", JsonType.string)
      ∷ ("status", JsonType.object)
      ∷ ("type", JsonType.string)
      ∷ [];
  property_enums = ("type", "gNB" ∷ "gNB-CU-UP" ∷ "gNB-DU" ∷ "en-gNB" ∷ "eNB" ∷ "ng-eNB" ∷ []) ∷ [];
  required = required;
  optional = optional;
  disallowed = disallowed;
  immediate_abort = false;
}

unfoldable pub bind_slice : Slice → NodeB → NodeB × Bool
bind_slice s nb = if contains s.name nb.slices then (nb, false) else (
  record nb { slices = put s.name (record { name = s.name; address = s.address }) nb.slices },
  true,
)

unfoldable pub unbind_slice : String → NodeB → NodeB × Bool
unbind_slice slice_name nb =
    if not (contains slice_name nb.slices)
    then (nb, false)
    else (record nb { slices = erase slice_name nb.slices }, true)

unfoldable pub is_slice_bound : String → NodeB → Bool
is_slice_bound slice_name nb = contains slice_name nb.slices

unfoldable pub serialize : NodeB → List Token
unfolding type_to_type_string key_tokens
serialize nb =
    start_object
      ∷ str "name"
      ∷ str nb.name
      ∷ str "type"
      ∷ str (type_to_type_string nb.node_type)
      ∷ str "id"
      ∷ int nb.id
      ∷ str "id_len"
      ∷ uint nb.id_len
      ∷ str "status"
      ∷ start_object
      ∷ str "connected"
      ∷ bool nb.connected
      ∷ end_object
      ∷ str "config"
      ∷ start_object
      ∷ str "total_prbs"
      ∷ int nb.total_prbs
      ∷ end_object
      ∷ str "slices"
      ∷ start_array
      ∷ key_tokens nb.slices
    ++ end_array ∷ end_object ∷ []

module _ (json : Json) where
  open json use {Value, is_object, has_member, member}

  unfoldable pub create : ℕ → Value → Result NodeB
  unfolding new_nodeb type_string_to_type
  create address d =
      if not (is_object d)
      then raise 400 "request is not an object"
      else let v = validate_json json schema HttpMethod.post d none in
        if not v.retval then err v.ae else (do
          id_len ← (if has_member d "id_len" then read_uint json (member d "id_len") else ok 20)
          ts ← read_string json (member d "type")
          mcc ← read_string json (member d "mcc")
          mnc ← read_string json (member d "mnc")
          id ← read_int json (member d "id")
          new_nodeb address (type_string_to_type ts) mcc mnc id (id_len % 2 ^ 8))

  unfoldable pub update : Value → NodeB → Result NodeB
  update d nb =
      if not (is_object d)
      then raise 400 "request is not an object"
      else let v = validate_json json schema HttpMethod.put d none in
        if not v.retval then err v.ae else ok nb
