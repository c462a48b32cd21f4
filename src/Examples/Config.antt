-- ===== src/Examples/Config.antt =====
-- The properties of the configuration: the xApp's name and a port from the command line, its ID and the
-- flag from the environment, and a descriptor that gives the port of RMR.
use nexran.Base.{
  String, true, false, List, [], ◌∷◌, Option, none, some, if◌then◌else◌, ◌==◌, string_key, ◌≡◌,
  refl, inl, inr, All, arith,
}
use nexran.Base.Int.{pos}
use nexran.Base.Map.{find}
use nexran.Resource.Error.{Result, ok}
use nexran.Config.Items.{ItemName, integer, ItemValue, Config, Item, item_key, new_config, new_item}
use nexran.Config.Parse.{Opt, parse_argv, parse_env, lookup, load}
use nexran.Config.Parse.Values.{expected}
use nexran.Config.Parse.Load.{load-lookup}
use nexran.Config.Parse.Types.{HasArgument, has_type, load-HasType}
use nexran.Config.Parse.Given.{load-is_given}
use nexran.Config.Settings.{Settings, Documents, load_settings, registration}
use nexran.Config.Settings.Sources.{load_settings-registration}
use nexran.Examples.{
  JsonValue, json, text, number, no_members, with_member, no_elements, with_element,
}

abbrev pub getenv : String → Option String
getenv name =
    if name == "XAPP_ID"
    then some "x1"
    else if name == "RMR_NOWAIT"
    then some "1"
    else if name == "RMR_SRC_ID"
    then some "nexran-rmr"
    else none

abbrev pub opts : List Opt
opts = (b'n', some "nexran") ∷ (b'a', some "8080") ∷ (b'a', some "9000") ∷ (b'R', none) ∷ []

abbrev got : Result Config → Config
got (ok c) = c
got _ = new_config

unfoldable pub parsed : Config
unfolding parse_argv new_config
parsed = got (parse_argv opts new_config)

unfoldable pub config : Config
unfolding load new_config
config = got (load getenv opts new_config)

config_loaded : load getenv opts new_config ≡ ok config
unfolding config load new_config
config_loaded = refl

pub opts-HasArgument : All HasArgument opts
opts-HasArgument = (
  inl (λ e. ground (arith, e)),
  (inl (λ e. ground (arith, e)), (inl (λ e. ground (arith, e)), (inr refl, tt))),
)

abbrev port_item : Item
port_item =
    new_item integer b'a' "admin-port" "ADMIN_PORT" false (some (ItemValue.i (pos 8000)))
      "The northbound interface listen port."

load-lookup_example : lookup ItemName.admin_port config ≡ ok (some (ItemValue.i (pos 9000)))
unfolding config load new_config new_item find expected
load-lookup_example = load-lookup getenv opts config ItemName.admin_port port_item refl refl

load-HasType_example :
    (v : Option ItemValue) × (lookup ItemName.admin_port config ≡ ok v)
    × (has_type integer v ≡ true)
unfolding new_config new_item find
load-HasType_example =
    load-HasType getenv opts config ItemName.admin_port port_item opts-HasArgument config_loaded
      refl

load-is_given_example : load getenv opts new_config ≡ ok (parse_env getenv parsed)
unfolding parsed parse_argv new_config
load-is_given_example = load-is_given getenv opts parsed refl

abbrev elements_of : JsonValue → List JsonValue
elements_of (with_element v w) = v ∷ elements_of w
elements_of _ = []

abbrev entry : String → JsonValue
entry name = with_member "name" (text name) (with_member "port" (number (pos 4562)) no_members)

abbrev pub documents : Documents json
documents = record {
  read_file =
      λ path. some (with_element (entry "http") (with_element (entry "rmr-data") no_elements));
  pointer = λ path doc. if path == "/messaging/ports" then some doc else none;
  elements = elements_of;
  to_text = λ doc. "{}";
}

abbrev got_settings : Result Settings → Settings
got_settings (ok m) = m
got_settings _ = []

unfoldable pub settings : Settings
unfolding load_settings
settings = got_settings (load_settings json documents getenv)

load_settings-registration_example :
    (find "rmrEndpoint" (registration settings) ≡ some "nexran-rmr:4562")
    × (find "httpEndpoint" (registration settings) ≡ some "nexran-rmr:8000")
unfolding settings load_settings
load_settings-registration_example = load_settings-registration json documents getenv settings refl
