-- ===== src/Config/Parse.antt =====
-- How `nexran::Config` reads the command line and the environment, src/config.cc. `getopt_long` is the
-- C library's: what it returns before -1 is a list of option letters, each with `optarg`.
pub mod Values
pub mod Load
pub mod Types
pub mod Given
use nexran.Base.{
  ℕ, String, Bool, true, false, not, ◌&&◌, ◌||◌, List, [], ◌∷◌, Option, none, some, is_some,
  if◌then◌else◌, nat_beq,
}
use nexran.Base.Map.{Map, find}
use nexran.Base.Text.{atoi}
use nexran.Resource.Error.{Result, ok, err, fault, ◌>>=◌}
use nexran.Config.Items.{
  ItemName, ItemType, boolean, string, integer, ItemValue, b, s, i, Item, Config, item_key,
}

-- An option letter, and its argument or a null pointer.
abbrev pub Opt : Type 0
Opt = ℕ × Option String

-- `std::atoi` of a null pointer crashes.
unfoldable pub argv_value : ItemType → Option String → Result ItemValue
unfolding atoi
argv_value boolean optarg = ok (b true)
argv_value string optarg = ok (s optarg)
argv_value integer none = fault
argv_value integer (some t) = ok (i (atoi t))

abbrev pub set_value : ItemValue → Item → Item
set_value v item = record item { value = v; value_set = true }

-- The loop over the items: the first with the letter takes the argument.
unfoldable pub set_option : Opt → Config → Result Config
unfolding argv_value
set_option o [] = err none
set_option o ((name, item) ∷ m) =
    let rest = set_option o m >>= (λ m'. ok ((name, item) ∷ m')) in
    if nat_beq o.0 item.short_option_name
    then argv_value item.type o.1 >>= (λ v. ok ((name, set_value v item) ∷ m))
    else rest

-- `err none` is `false`, for help or an unknown option.
unfoldable pub parse_argv : List Opt → Config → Result Config
unfolding set_option
parse_argv [] m = ok m
parse_argv (o ∷ opts) m =
    if nat_beq o.0 b'h' then err none else (set_option o m >>= parse_argv opts)

-- `not item->value.b`: the union is zero until something is written, and an item of this type holds
-- no other member.
abbrev pub flipped : ItemValue → ItemValue
flipped (b x) = b (not x)
flipped _ = b true

unfoldable pub env_value : ItemType → String → ItemValue → ItemValue
unfolding atoi
env_value boolean val old = flipped old
env_value string val old = s (some val)
env_value integer val old = i (atoi val)

unfoldable pub set_env : (String → Option String) → Item → Item
unfolding env_value
set_env getenv item = elim item.env_name [
  | none ↦ item
  | some env ↦ elim (getenv env) [
    | none ↦ item
    | some val ↦ set_value (env_value item.type val item.value) item
  ]
]

-- Every type is known, so this never returns false.
unfoldable pub parse_env : (String → Option String) → Config → Config
unfolding set_env
parse_env getenv [] = []
parse_env getenv ((name, item) ∷ m) = (name, set_env getenv item) ∷ parse_env getenv m

unfoldable pub validate : Config → Bool
validate [] = true
validate ((name, item) ∷ m) =
    not (item.required && not (item.value_set || is_some item.default_value)) && validate m

-- `operator[]`; the result may be a null pointer.
unfoldable pub lookup : ItemName → Config → Result (Option ItemValue)
unfolding find
lookup name m = elim (find name m) [
  | none ↦ fault
  | some item ↦ ok (if item.value_set then some item.value else item.default_value)
]

-- What `main` does with a new configuration before it goes on, or exits with a failure.
unfoldable pub load : (String → Option String) → List Opt → Config → Result Config
unfolding parse_argv parse_env validate
load getenv opts m =
    parse_argv opts m >>= λ m'. let c = parse_env getenv m' in if validate c then ok c else err none
