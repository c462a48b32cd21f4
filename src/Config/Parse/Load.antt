-- ===== src/Config/Parse/Load.antt =====
-- What the configuration holds when `main` goes on, src/main.cc and src/config.cc.
use mathlib.Core.Option
use nexran.Base.{
  String, true, false, List, Option, none, some, if◌then◌else◌, ◌≡◌, ap, ◌∙◌, inl, inr,
  Option-cases, All, arith,
}
use nexran.Base.Map.{find, find-All, map_values, find-map_values, map_values-map_values}
use nexran.Resource.Error.{ok, err, bind-ok}
use nexran.Config.Items.{ItemName, s, Item, Config, item_key, new_config, new_item}
use nexran.Config.Parse.{Opt, parse_argv, set_env, parse_env, validate, lookup, load}
use nexran.Config.Parse.Values.{
  touch_all, Distinct, parse_argv-touch_all, parse_env-map_values, expected, set_env-expected,
  last_arg, touch_all-last_arg,
}

-- Nothing has set an item of a new configuration.
abbrev pub IsFresh : ItemName × Item → Type 0
IsFresh x = (x.1.value_set ≡ false) × (x.1.value ≡ s none)

pub new_config-Distinct : Distinct new_config
unfolding new_config new_item
new_config-Distinct = omega arith

pub new_config-IsFresh : All IsFresh new_config
unfolding new_config new_item
new_config-IsFresh = ground arith

pub load-map_values :
    (getenv : String → Option String) (opts : List Opt) (c : Config)
    → load getenv opts new_config ≡ ok c
    → (c ≡ map_values (λ item. set_env getenv (touch_all opts item)) new_config)
      × (validate c ≡ true)
unfolding load
load-map_values getenv opts c h =
    let (m, e, g) =
      bind-ok (parse_argv opts new_config)
        (λ m. let c = parse_env getenv m in if validate c then ok c else err none) c h in
    let same : c ≡ parse_env getenv m = ground (arith, g) in
    (
      same
          ∙ parse_env-map_values getenv m
          ∙ ap (map_values (set_env getenv))
              (parse_argv-touch_all opts new_config m new_config-Distinct e)
          ∙ map_values-map_values (touch_all opts) (set_env getenv) new_config,
      ground (arith, g),
    )

pub load-found :
    (getenv : String → Option String) (opts : List Opt) (c : Config) (name : ItemName) (item : Item)
    → load getenv opts new_config ≡ ok c
    → find name new_config ≡ some item
    → find name c ≡ some (set_env getenv (touch_all opts item))
load-found getenv opts c name item h f =
    ap (find name) (load-map_values getenv opts c h).0
    ∙ find-map_values _ name new_config
    ∙ ap (Option.map _) f

-- A configuration that is loaded gives each item the value that its variable, the last option of its
-- letter, or its default says, in this order.
pub load-lookup :
    (getenv : String → Option String) (opts : List Opt) (c : Config) (name : ItemName) (item : Item)
    → load getenv opts new_config ≡ ok c
    → find name new_config ≡ some item
    → lookup name c ≡ ok (expected getenv opts item)
unfolding lookup
load-lookup getenv opts c name item h f =
    let fresh = find-All IsFresh new_config name item new_config-IsFresh f in
    rw (load-found getenv opts c name item h f, lookup)
      (ap ok (set_env-expected getenv opts item fresh.0 fresh.1))

pub set_env-kept :
    (getenv : String → Option String) (opts : List Opt) (item : Item)
    → let x = set_env getenv (touch_all opts item) in
      (x.required ≡ item.required) × (x.default_value ≡ item.default_value)
unfolding set_env
set_env-kept getenv opts item =
    rw (touch_all-last_arg opts item) (elim (Option-cases (last_arg item.short_option_name opts)) [
      | inl e ↦ rw e (ground arith)
      | inr (a, e) ↦ rw e (ground arith)
    ])
