-- ===== src/Examples.antt =====
-- Concrete inputs for the properties: a JSON value, a platform that sends everything, an arithmetic
-- in thousandths in place of floats, and a small database.
pub mod App
pub mod Equalize
pub mod Kpm
pub mod Resource
pub mod E2ap
pub mod E2sm
pub mod Rest
pub mod Group
pub mod Dispatch
pub mod Config
pub mod Process
pub mod Trace
pub mod Program
use nexran.Base.{
  suc, ℕ, String, Bool, true, false, List, [], ◌∷◌, Option, none, some, if◌then◌else◌, ◌==◌,
  string_key, nat_beq, ◌≡◌, ◌≢◌, arith,
}
use nexran.Base.Int.{ℤ, pos, negsuc, ◌-ℤ◌, ◌+ℤ◌, ◌*ℤ◌, div_ℤ, ltb_ℤ, beq_ℤ, to_u64}
use Prim.Native.String.{len}
use nexran.Resource.Json.{Json}
use nexran.Resource.Policy.{Policy}
use nexran.Resource.Ue.{Ue}
use nexran.Resource.Slice.{Slice}
use nexran.Resource.NodeB.{NodeB, gnb}
use nexran.Kpm.Metrics.{EntityMetrics, MetricsIndex, leading}
use nexran.E2ap.Types.{ControlRequest, SubscriptionDeleteRequest}
use nexran.E2ap.Encode.{encode_control, encode_subscription_delete}
use nexran.E2ap.State.{Platform}
use nexran.App.Equalize.Float.{FloatOps}

-- An object is its members in a row, and an array its elements.
pub data JsonValue : Type 0 where
  text : String → JsonValue
  number : ℤ → JsonValue
  flag : Bool → JsonValue
  no_members : JsonValue
  with_member : String → JsonValue → JsonValue → JsonValue
  no_elements : JsonValue
  with_element : JsonValue → JsonValue → JsonValue

abbrev is_text : JsonValue → Bool
is_text (text s) = true
is_text _ = false

abbrev is_number : JsonValue → Bool
is_number (number n) = true
is_number _ = false

abbrev is_flag : JsonValue → Bool
is_flag (flag b) = true
is_flag _ = false

abbrev is_members : JsonValue → Bool
is_members no_members = true
is_members (with_member k v w) = true
is_members _ = false

abbrev is_elements : JsonValue → Bool
is_elements no_elements = true
is_elements (with_element v w) = true
is_elements _ = false

abbrev has : JsonValue → String → Bool
has (with_member k v w) j = let rest = has w j in if k == j then true else rest
has _ j = false

abbrev get : JsonValue → String → JsonValue
get (with_member k v w) j = let rest = get w j in if k == j then v else rest
get _ j = no_members

abbrev text_of : JsonValue → String
text_of (text s) = s
text_of _ = ""

abbrev number_of : JsonValue → ℤ
number_of (number n) = n
number_of _ = pos 0

abbrev flag_of : JsonValue → Bool
flag_of (flag b) = b
flag_of _ = false

abbrev pub json : Json
json = record {
  Value = JsonValue;
  is_string = is_text;
  is_int = is_number;
  is_uint = is_number;
  is_float = λ v. false;
  is_object = is_members;
  is_array = is_elements;
  is_bool = is_flag;
  has_member = has;
  member = get;
  get_string = text_of;
  get_int = number_of;
  get_uint = λ v. to_u64 (number_of v);
  get_bool = flag_of;
}

abbrev pub platform : Platform
platform = record {
  codec = record {
    controls = record { encode_header = λ id. some (1 ∷ []); encode_message = λ m. some (2 ∷ []) };
    aper_encode = λ pdu. some (3 ∷ []);
    encode_trigger = λ period. some (4 ∷ []);
  };
  send_message = λ m. true;
  hash = len;
}

pub encodes : (req : ControlRequest) → encode_control platform.codec req ≢ none
unfolding encode_control
encodes req = ground arith

pub encodes_delete :
    (req : SubscriptionDeleteRequest) → encode_subscription_delete platform.codec req ≢ none
unfolding encode_subscription_delete
encodes_delete req = ground arith

abbrev quotient : ℤ → ℤ → ℤ
quotient a (pos n) = if nat_beq n 0 then pos 0 else div_ℤ (a *ℤ pos 1000) n
quotient a (negsuc n) = div_ℤ (a *ℤ negsuc 999) (suc n)

abbrev pub thousandths : FloatOps
thousandths = record {
  Float = ℤ;
  of_int = λ n. n *ℤ pos 1000;
  of_u64 = λ n. pos n *ℤ pos 1000;
  add = λ a b. a +ℤ b;
  sub = λ a b. a -ℤ b;
  mul = λ a b. div_ℤ (a *ℤ b) 1000;
  div = quotient;
  less = ltb_ℤ;
  equal = beq_ℤ;
  to_int = λ a. div_ℤ a 1000;
  to_word = λ a. to_u64 (div_ℤ a 1000);
  zero = pos 0;
  c15 = pos 150;
  c05 = pos 50;
  minus_c05 = negsuc 49;
}

abbrev pub node : NodeB
node = record {
  address = 7;
  name = "gnB_001_001_000001";
  node_type = gnb;
  mcc = "001";
  mnc = "001";
  id = pos 1;
  id_len = 20;
  connected = false;
  total_prbs = negsuc 0;
  slices = [];
}

-- Equalised, throttled at 1000 bytes, and not throttling.
abbrev pub policy : Policy
policy = record {
  share = pos 512;
  auto_equalize = true;
  throttle = true;
  throttle_threshold = pos 1000;
  throttle_period = pos 60;
  throttle_share = pos 128;
  is_throttling = false;
  throttle_end = pos 0;
  throttle_saved_share = negsuc 0;
  metrics = record {
    period = pos 60;
    queue = leading (pos 100) 1500 20 10 5 ∷ [];
    totals = leading (pos 0) 1500 20 10 5;
  };
}

abbrev pub fast : Slice
fast = record { address = 2; name = "fast"; allocation_policy = policy; ues = [] }

abbrev pub phone : Ue
phone = record {
  address = 3;
  imsi = "001";
  tmsi = "";
  crnti = "";
  connected = false;
  bound_slice = "";
}

pub fast_is_named : fast.name ≢ ""
fast_is_named e = ground (arith, (string_key.beq_iff "fast" "").1 e)
