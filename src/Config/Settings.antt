-- ===== src/Config/Settings.antt =====
-- `nexran::xAppSettings`, include/config.h and src/config.cc, and what `App::register_xapp` of
-- src/nexran.cc sends of them.
pub mod Sources
use nexran.Base.{
  ℕ, String, Bool, true, false, ◌&&◌, List, [], ◌∷◌, Option, none, some, if◌then◌else◌, ◌==◌,
  string_key, ◌≡◌, ◌↔◌, nat_beq, ltb, Key, arith,
}
use Prim.Native.String.{◌++◌ as append}
use nexran.Base.Map.{Map, find, put}
use nexran.Base.Text.{to_string}
use nexran.Resource.Json.{Json, read_string, read_int}
use nexran.Resource.Error.{Result, ok, err, fault, ◌>>=◌}

pub data ConfigName : Type 0 where
  xapp_id xapp_name version rmr_src_id rmr_port http_port config_file config_str : ConfigName

abbrev pub number : ConfigName → ℕ
number xapp_id = 0
number xapp_name = 1
number version = 2
number rmr_src_id = 3
number rmr_port = 4
number http_port = 5
number config_file = 6
number config_str = 7

same_number : (m n : ConfigName) → number m ≡ number n → m ≡ n
same_number m n h = ground arith

pub number_iff : (m n : ConfigName) → (nat_beq (number m) (number n) ≡ true) ↔ (m ≡ n)
number_iff m n = ground (arith, same_number m n)

instance abbrev pub name_key : Key ConfigName
name_key = record {
  beq = λ m n. nat_beq (number m) (number n);
  beq_iff = number_iff;
  before = λ m n. ltb (number m) (number n);
}

abbrev pub Settings : Type 0
Settings = Map ConfigName String

-- `operator[]`: a name that is missing reads as the empty text.
unfoldable pub setting : ConfigName → Settings → String
unfolding find
setting name m = elim (find name m) [ none ↦ "" | some t ↦ t ]

-- `if(config_names_map[name].empty()) config_names_map[name] = value;`
unfoldable pub put_default : ConfigName → String → Settings → Settings
unfolding setting put
put_default name value m = if setting name m == "" then put name value m else m

-- The constructor.
unfoldable pub new_settings : Settings
unfolding put_default
new_settings = put_default config_file "/nexran/etc/nexran-config-file.json" (
    put_default http_port "8000" (
      put_default rmr_port "4560" (
        put_default version "0.2.1"
          (put_default xapp_name "nexran" (put_default xapp_id "nexran" [])))))

unfoldable pub put_env : Option String → ConfigName → Settings → Settings
unfolding put
put_env none name m = m
put_env (some value) name m = put name value m

unfoldable pub load_settings_from_env : (String → Option String) → Settings → Settings
unfolding put_env
load_settings_from_env getenv m = put_env (getenv "RMR_SRC_ID") rmr_src_id (
    put_env (getenv "CONFIG_FILE") config_file (
      put_env (getenv "RMR_PORT") rmr_port
        (put_env (getenv "XAPP_ID") xapp_id (put_env (getenv "XAPP_NAME") xapp_name m))))

-- What the loader of the descriptor uses of rapidjson and the file system: the document of a file
-- that can be opened, `Pointer::Get`, the elements of an array, and the text of a document.
pub record Documents (json : Json) : Type 1 where
  pub read_file : String → Option json.Value
  pub pointer : String → json.Value → Option json.Value
  pub elements : json.Value → List json.Value
  pub to_text : json.Value → String

module _ (json : Json) (documents : Documents json) where
  open json use {Value, is_object, is_array, has_member, member}
  open documents use {read_file, pointer, elements, to_text}

  -- The setting that the port of a name goes to.
  unfoldable pub port_setting : String → Option ConfigName
  port_setting name =
      if name == "rmr-data" then some rmr_port else if name == "nbi" then some http_port else none

  unfoldable pub load_named : Option ConfigName → Value → Settings → Result Settings
  unfolding put to_string
  load_named none port m = ok m
  load_named (some to) port m = read_int json port >>= λ p. ok (put to (to_string p) m)

  abbrev pub has_port : Value → Bool
  has_port el = has_member el "name" && has_member el "port"

  -- One element of the array; `HasMember` asserts that it is an object.
  unfoldable pub load_port : Value → Settings → Result Settings
  unfolding load_named port_setting
  load_port el m =
      let found =
        read_string json (member el "name")
        >>= (λ name. load_named (port_setting name) (member el "port") m) in
      if is_object el then (if has_port el then found else ok m) else fault

  unfoldable pub load_ports : List Value → Settings → Result Settings
  unfolding load_port
  load_ports [] m = ok m
  load_ports (el ∷ els) m = load_port el m >>= load_ports els

  unfoldable pub load_version : Option Value → Settings → Result Settings
  unfolding put
  load_version none m = ok m
  load_version (some v) m = read_string json v >>= (λ t. ok (put version t m))

  -- `GetArray` asserts that the value is an array.
  unfoldable pub load_messaging : Option Value → Settings → Result Settings
  unfolding load_ports
  load_messaging none m = ok m
  load_messaging (some v) m = if is_array v then load_ports (elements v) m else fault

  unfoldable pub load_document : Value → Settings → Result Settings
  unfolding load_version load_messaging
  load_document doc m = load_version (pointer "/version" doc) m >>= λ m1.
      load_messaging (pointer "/messaging/ports" doc) m1 >>= λ m2.
      ok (put config_str (to_text doc) m2)

  -- `loadxAppDescriptorSettings`.
  unfoldable pub load_descriptor : Settings → Result Settings
  unfolding load_document setting
  load_descriptor m = elim (read_file (setting config_file m)) [
    | none ↦ ok m
    | some doc ↦ load_document doc m
  ]

  -- As `main` makes them.
  unfoldable pub load_settings : (String → Option String) → Result Settings
  unfolding new_settings load_settings_from_env load_descriptor
  load_settings getenv = load_descriptor (load_settings_from_env getenv new_settings)

abbrev endpoint : Settings → ConfigName → String
endpoint m port = append (setting rmr_src_id m) (append ":" (setting port m))

-- The members of the body of a registration, which a deregistration repeats.
unfoldable pub registration : Settings → List (String × String)
unfolding setting
registration m =
    ("appName", setting xapp_name m)
    ∷ ("appVersion", setting version m)
    ∷ ("configPath", setting config_file m)
    ∷ ("appInstanceName", setting xapp_id m)
    ∷ ("httpEndpoint", endpoint m http_port)
    ∷ ("rmrEndpoint", endpoint m rmr_port)
    ∷ ("config", setting config_str m)
    ∷ []
