-- ===== src/Config/Parse/Given.antt =====
-- When `main` of src/main.cc goes on with a configuration: what has to be given.
use mathlib.Core.Path.{ap₂}
use nexran.Base.{
  String, Bool, true, false, not, ◌&&◌, ◌||◌, is_some, List, [], ◌∷◌, Option, none, if◌then◌else◌,
  ◌≡◌, refl, ap, ◌∙◌, inl, inr, Option-cases, All, arith,
}
use nexran.Base.Map.{map_values, map_values-map_values}
use nexran.Resource.Error.{ok, err}
use nexran.Config.Items.{string, Item, Config, item_key, new_config, new_item}
use nexran.Config.Parse.{Opt, parse_argv, set_env, parse_env, validate, load}
use nexran.Config.Parse.Values.{
  touch_all, parse_argv-touch_all, parse_env-map_values, last_arg, variable, touch_all-last_arg,
}
use nexran.Config.Parse.Load.{IsFresh, new_config-Distinct, new_config-IsFresh, set_env-kept}

-- Whether a variable or an option sets an item.
abbrev pub is_given : (String → Option String) → List Opt → Item → Bool
is_given getenv opts item =
    is_some (variable getenv item) || is_some (last_arg item.short_option_name opts)

set_env-is_given :
    (getenv : String → Option String) (opts : List Opt) (item : Item)
    → item.value_set ≡ false
    → (set_env getenv (touch_all opts item)).value_set ≡ is_given getenv opts item
unfolding set_env
set_env-is_given getenv opts item u =
    rw (touch_all-last_arg opts item) (elim (Option-cases (last_arg item.short_option_name opts)) [
      | inl e ↦ rw e (ground arith)
      | inr (a, e) ↦ rw e (ground arith)
    ])

abbrev pub xapp_name_item : Item
xapp_name_item = new_item string b'n' "xapp-name" "XAPP_NAME" true none "The name of the xApp."

abbrev pub xapp_id_item : Item
xapp_id_item = new_item string b'x' "xapp-id" "XAPP_ID" true none "The ID of the xApp."

is_ready : Item → Bool
is_ready item = not (item.required && not (item.value_set || is_some item.default_value))

is_ready-is_given :
    (getenv : String → Option String) (opts : List Opt) (item : Item)
    → item.value_set ≡ false
    → is_ready (set_env getenv (touch_all opts item))
      ≡ not item.required || is_some item.default_value || is_given getenv opts item
unfolding is_ready
is_ready-is_given getenv opts item u =
    let k = set_env-kept getenv opts item in
    let g = set_env-is_given getenv opts item u in ground (arith, k, g)

abbrev every : (Item → Bool) → Config → Bool
every p [] = true
every p ((name, item) ∷ m) = p item && every p m

abbrev wanted : (String → Option String) → List Opt → Item → Bool
wanted getenv opts item =
    not item.required || is_some item.default_value || is_given getenv opts item

validate-every :
    (getenv : String → Option String) (opts : List Opt) (m : Config)
    → All IsFresh m
    → validate (map_values (λ item. set_env getenv (touch_all opts item)) m)
      ≡ every (wanted getenv opts) m
unfolding validate is_ready
validate-every getenv opts [] a = refl
validate-every getenv opts ((name, item) ∷ m) a =
    ap₂ ◌&&◌ (is_ready-is_given getenv opts item a.0.0) (validate-every getenv opts m a.1)

every-new_config :
    (getenv : String → Option String) (opts : List Opt)
    → every (wanted getenv opts) new_config
      ≡ (is_given getenv opts xapp_name_item && is_given getenv opts xapp_id_item)
unfolding new_config new_item
every-new_config getenv opts = ground arith

-- Where the command line can be read, the program goes on exactly if a variable or an option gives
-- the xApp's name, and a variable or an option its ID.
pub load-is_given :
    (getenv : String → Option String) (opts : List Opt) (m : Config)
    → parse_argv opts new_config ≡ ok m
    → load getenv opts new_config ≡ (
        if is_given getenv opts xapp_name_item && is_given getenv opts xapp_id_item
        then ok (parse_env getenv m)
        else err none)
unfolding load
load-is_given getenv opts m h =
    let c = parse_env getenv m in
    let read : validate c ≡ every (wanted getenv opts) new_config =
      ap validate (
        parse_env-map_values getenv m
        ∙ ap (map_values (set_env getenv))
            (parse_argv-touch_all opts new_config m new_config-Distinct h)
        ∙ map_values-map_values (touch_all opts) (set_env getenv) new_config)
      ∙ validate-every getenv opts new_config new_config-IsFresh in
    rw h (ap (λ t. if t then ok c else err none) (read ∙ every-new_config getenv opts))
