-- ===== src/Config/Parse/Values.antt =====
-- What each item of the configuration holds once the command line and the environment are read.
use nexran.Base.Text.{atoi}
use nexran.Base.Int.{pos}
use nexran.Base.{Option-cases}
use nexran.Base.{
  ℕ, String, Bool, true, false, not, is_some, List, [], ◌∷◌, Option, none, some, if◌then◌else◌,
  nat_beq, ◌≡◌, ◌≢◌, refl, sym, ap, ◌∙◌, inl, inr, Bool-cases, All, arith, nat_beq_iff,
}
use nexran.Base.Map.{map_values, map_values-map_values, map_values-id}
use mathlib.Core.Path.{subst}
use nexran.Resource.Error.{ok, bind-ok}
use nexran.Config.Items.{
  ItemName, ItemType, boolean, string, integer, ItemValue, b, s, i, Item, Config, item_key,
}
use nexran.Config.Parse.{
  Opt, argv_value, set_value, set_option, parse_argv, env_value, set_env, parse_env,
}

-- What an argument says to an item. A number has an argument, or the program crashes.
unfoldable pub arg_value : ItemType → Option String → ItemValue
unfolding atoi
arg_value boolean optarg = b true
arg_value string optarg = s optarg
arg_value integer none = i (pos 0)
arg_value integer (some t) = i (atoi t)

argv_value-arg_value :
    (type : ItemType) (a : Option String) (v : ItemValue)
    → argv_value type a ≡ ok v
    → v ≡ arg_value type a
unfolding argv_value arg_value
argv_value-arg_value type a v h = ground arith

-- One option, at one item.
abbrev pub touch : Opt → Item → Item
touch o item =
    if nat_beq o.0 item.short_option_name then set_value (arg_value item.type o.1) item else item

abbrev pub touch_all : List Opt → Item → Item
touch_all [] item = item
touch_all (o ∷ opts) item = touch_all opts (touch o item)

-- No two items have the same letter.
abbrev pub HasLetter : ℕ → ItemName × Item → Type 0
HasLetter c x = c ≢ x.1.short_option_name

abbrev pub Distinct : Config → Type 0
Distinct [] = Unit
Distinct ((name, item) ∷ m) = All (HasLetter item.short_option_name) m × Distinct m

map_values-touch_id : (o : Opt) (m : Config) → All (HasLetter o.0) m → map_values (touch o) m ≡ m
map_values-touch_id o [] a = refl
map_values-touch_id o ((name, item) ∷ m) a = ground (arith, map_values-touch_id o m a.1, a.0)

touch_letter : (o : Opt) (item : Item) → (touch o item).short_option_name ≡ item.short_option_name
touch_letter o item = ground arith

All-HasLetter-touch :
    (o : Opt) (c : ℕ) (m : Config)
    → All (HasLetter c) m
    → All (HasLetter c) (map_values (touch o) m)
All-HasLetter-touch o c [] a = tt
All-HasLetter-touch o c ((name, item) ∷ m) a =
    (λ e. a.0 (e ∙ touch_letter o item), All-HasLetter-touch o c m a.1)

Distinct-touch : (o : Opt) (m : Config) → Distinct m → Distinct (map_values (touch o) m)
Distinct-touch o [] d = tt
Distinct-touch o ((name, item) ∷ m) d = (
  rw (touch_letter o item) (All-HasLetter-touch o item.short_option_name m d.0),
  Distinct-touch o m d.1,
)

-- An option that is known changes the item of its letter and no other.
set_option-touch :
    (o : Opt) (m m' : Config) → Distinct m → set_option o m ≡ ok m' → m' ≡ map_values (touch o) m
unfolding set_option
set_option-touch o [] m' d h = absurd (ground (arith, h))
set_option-touch o ((name, item) ∷ m) m' d h =
    elim (Bool-cases (nat_beq o.0 item.short_option_name)) [
      | inl y ↦
          let (v, e, g) =
            bind-ok (argv_value item.type o.1) (λ v. ok ((name, set_value v item) ∷ m)) m'
              (ground (arith, h)) in
          let same = (nat_beq_iff o.0 item.short_option_name).0 y in
          ground (
            arith,
            argv_value-arg_value item.type o.1 v e,
            map_values-touch_id o m (subst (λ c. All (HasLetter c) m) (sym same) d.0),
          )
      | inr n ↦
          let (m1, e, g) =
            bind-ok (set_option o m) (λ m1. ok ((name, item) ∷ m1)) m' (ground (arith, h)) in
          ground (arith, set_option-touch o m m1 d.1 e)
    ]

pub parse_argv-touch_all :
    (opts : List Opt) (m m' : Config)
    → Distinct m
    → parse_argv opts m ≡ ok m'
    → m' ≡ map_values (touch_all opts) m
unfolding parse_argv
parse_argv-touch_all [] m m' d h = ground (arith, h, map_values-id m)
parse_argv-touch_all (o ∷ opts) m m' d h =
    let (m1, e, g) = bind-ok (set_option o m) (parse_argv opts) m' (ground (arith, h)) in
    let first = set_option-touch o m m1 d e in
    let second =
      parse_argv-touch_all opts m1 m' (subst Distinct (sym first) (Distinct-touch o m d)) g in
    second
    ∙ ap (map_values (touch_all opts)) first
    ∙ map_values-map_values (touch o) (touch_all opts) m

pub parse_env-map_values :
    (getenv : String → Option String) (m : Config)
    → parse_env getenv m ≡ map_values (set_env getenv) m
unfolding parse_env
parse_env-map_values getenv [] = refl
parse_env-map_values getenv ((name, item) ∷ m) =
    ap (λ l. (name, set_env getenv item) ∷ l) (parse_env-map_values getenv m)

-- The argument of the last option with a letter.
abbrev pub last_arg : ℕ → List Opt → Option (Option String)
last_arg c [] = none
last_arg c (o ∷ opts) = elim (last_arg c opts) [
  | some a ↦ some a
  | none ↦ if nat_beq o.0 c then some o.1 else none
]

pub touch_all-last_arg :
    (opts : List Opt) (item : Item)
    → touch_all opts item ≡ (elim (last_arg item.short_option_name opts) [
      | none ↦ item
      | some a ↦ set_value (arg_value item.type a) item
    ])
touch_all-last_arg [] item = refl
touch_all-last_arg (o ∷ opts) item = ground (arith, touch_all-last_arg opts (touch o item))

-- What a variable says to an item; a flag that the command line has given is taken back.
unfoldable pub variable_value : ItemType → String → Bool → ItemValue
unfolding atoi
variable_value boolean val given = b (not given)
variable_value string val given = s (some val)
variable_value integer val given = i (atoi val)

abbrev pub variable : (String → Option String) → Item → Option String
variable getenv item = elim item.env_name [ none ↦ none | some env ↦ getenv env ]

-- Where an item's value comes from: the environment before the command line, the last option of its
-- letter before the others, and the default at the end.
unfoldable pub expected : (String → Option String) → List Opt → Item → Option ItemValue
unfolding arg_value variable_value
expected getenv opts item =
    let given = last_arg item.short_option_name opts in
    elim (variable getenv item) [
      | some val ↦ some (variable_value item.type val (is_some given))
      | none ↦ elim given [ some a ↦ some (arg_value item.type a) | none ↦ item.default_value ]
    ]

abbrev pub current : Item → Option ItemValue
current item = if item.value_set then some item.value else item.default_value

-- An item that nothing has set yet holds the value that is expected of it.
pub set_env-expected :
    (getenv : String → Option String) (opts : List Opt) (item : Item)
    → item.value_set ≡ false
    → item.value ≡ s none
    → current (set_env getenv (touch_all opts item)) ≡ expected getenv opts item
unfolding set_env env_value expected
set_env-expected getenv opts item u n =
    rw (touch_all-last_arg opts item) (elim (Option-cases (last_arg item.short_option_name opts)) [
      | inl e ↦ rw e (ground arith)
      | inr (a, e) ↦ rw e (ground arith)
    ])
