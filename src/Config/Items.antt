-- ===== src/Config/Items.antt =====
-- `nexran::Config`: its items, as the constructor makes them. include/config.h and src/config.cc.
use nexran.Base.{
  ℕ, String, Bool, true, false, List, [], ◌∷◌, ◌++◌, Option, none, some, ◌≡◌, ◌↔◌, nat_beq, ltb,
  Key, arith,
}
use nexran.Base.Int.{ℤ, pos}
use nexran.Base.Map.{Map}

pub data ItemName : Type 0 where
  xapp_name xapp_id host port log_level admin_host admin_port rmr_nowait : ItemName

pub data ItemType : Type 0 where
  boolean string integer : ItemType

-- The union, by the member that was written last; `s none` is a null pointer.
pub data ItemValue : Type 0 where
  b : Bool → ItemValue
  s : Option String → ItemValue
  i : ℤ → ItemValue

pub record Item : Type 0 where
  pub type : ItemType
  pub short_option_name : ℕ
  pub long_option_name : Option String
  pub env_name : Option String
  pub required : Bool
  pub help : String
  pub default_value : Option ItemValue
  pub value_set : Bool
  pub value : ItemValue

unfoldable pub new_item : ItemType → ℕ → String → String → Bool → Option ItemValue → String → Item
new_item type short long env required default_value help = record {
  type = type;
  short_option_name = short;
  long_option_name = some long;
  env_name = some env;
  required = required;
  help = help;
  default_value = default_value;
  value_set = false;
  value = s none;
}

-- The number of a name, by which the map sorts.
abbrev pub number : ItemName → ℕ
number xapp_name = 1
number xapp_id = 2
number host = 3
number port = 4
number log_level = 5
number admin_host = 6
number admin_port = 7
number rmr_nowait = 8

same_number : (m n : ItemName) → number m ≡ number n → m ≡ n
same_number m n h = ground arith

pub number_iff : (m n : ItemName) → (nat_beq (number m) (number n) ≡ true) ↔ (m ≡ n)
number_iff m n = ground (arith, same_number m n)

instance abbrev pub item_key : Key ItemName
item_key = record {
  beq = λ m n. nat_beq (number m) (number n);
  beq_iff = number_iff;
  before = λ m n. ltb (number m) (number n);
}

abbrev pub Config : Type 0
Config = Map ItemName Item

-- `Config::Config`.
unfoldable pub new_config : Config
unfolding new_item
new_config =
    (xapp_name, new_item string b'n' "xapp-name" "XAPP_NAME" true none "The name of the xApp.")
    ∷ (xapp_id, new_item string b'x' "xapp-id" "XAPP_ID" true none "The ID of the xApp.")
    ∷ (
      host,
      new_item string b'H' "host" "HOST" false (some (s (some "0.0.0.0")))
          "The local IP on which the RMR service listens.",
    )
    ∷ (
      port,
      new_item integer b'p' "port" "PORT" false (some (i (pos 4560)))
          "The RMR listen port (default 4560)",
    )
    ∷ (
      log_level,
      new_item string b'l' "log-level" "LOG_LEVEL" false (some (s (some "warn")))
          "The name of the xApp.",
    )
    ∷ (
      admin_host,
      new_item string b'A' "admin-host" "ADMIN_HOST" false (some (s (some "0.0.0.0")))
          "The local IP on which the northbound interface listens.",
    )
    ∷ (
      admin_port,
      new_item integer b'a' "admin-port" "ADMIN_PORT" false (some (i (pos 8000)))
          "The northbound interface listen port.",
    )
    ∷ (
      rmr_nowait,
      new_item boolean b'R' "rmr-nowait" "RMR_NOWAIT" false (some (b false))
          "Do not wait for RMR route established (waits by default).",
    )
    ∷ []

-- What the constructor hands to `getopt_long`: the letters, each with a colon unless it is a flag,
-- and the long options, with 2 for an optional argument.
unfoldable pub optstr : Config → List ℕ
optstr [] = []
optstr ((name, item) ∷ m) =
    item.short_option_name
      ∷ (elim item.type [ boolean ↦ [] | string ↦ b':' ∷ [] | integer ↦ b':' ∷ [] ])
    ++ optstr m

pub record LongOption : Type 0 where
  pub name : String
  pub has_arg : ℕ
  pub val : ℕ

abbrev pub argument_kind : ItemType → ℕ
argument_kind boolean = 0
argument_kind string = 2
argument_kind integer = 2

unfoldable pub long_options : Config → List LongOption
long_options [] = record { name = "help"; has_arg = 0; val = b'h' } ∷ []
long_options ((name, item) ∷ m) = elim item.long_option_name [
  | none ↦ long_options m
  | some long ↦
      record { name = long; has_arg = argument_kind item.type; val = item.short_option_name }
      ∷ long_options m
]
