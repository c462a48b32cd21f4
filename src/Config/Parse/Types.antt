-- ===== src/Config/Parse/Types.antt =====
-- The types of what the configuration holds, src/config.cc.
use nexran.Base.{
  ℕ, String, Bool, true, false, not, ◌&&◌, ◌||◌, is_some, List, [], ◌∷◌, Option, none, some, ◌≡◌,
  ◌≢◌, refl, ap, ◌∙◌, ◌⊎◌, inl, inr, Option-cases, All, arith,
}
use nexran.Base.Map.{find, find-All}
use nexran.Resource.Error.{ok}
use nexran.Config.Items.{
  ItemName, ItemType, boolean, string, integer, ItemValue, b, s, i, Item, Config, item_key,
  new_config, new_item,
}
use nexran.Config.Parse.{Opt, set_env, validate, lookup, load}
use nexran.Config.Parse.Values.{
  touch_all, current, expected, set_env-expected, last_arg, variable, variable_value, arg_value,
}
use nexran.Config.Parse.Load.{
  IsFresh, new_config-IsFresh, load-map_values, load-found, load-lookup, set_env-kept,
}

-- A value of an item's type: reading it by that member of the union is no mistake, and a text is no
-- null pointer.
abbrev pub has_type : ItemType → Option ItemValue → Bool
has_type boolean (some (b x)) = true
has_type string (some (s (some t))) = true
has_type integer (some (i n)) = true
has_type _ _ = false

-- An option has an argument, or is the one flag.
abbrev pub HasArgument : Opt → Type 0
HasArgument o = (o.1 ≢ none) ⊎ (o.0 ≡ b'R')

last_arg-ne-null :
    (letter : ℕ) (opts : List Opt)
    → letter ≢ b'R'
    → All HasArgument opts
    → last_arg letter opts ≢ some none
last_arg-ne-null letter [] n a = ground arith
last_arg-ne-null letter (o ∷ opts) n (inl y, a) = ground (arith, last_arg-ne-null letter opts n a)
last_arg-ne-null letter (o ∷ opts) n (inr y, a) = ground (arith, last_arg-ne-null letter opts n a)

variable_value_type :
    (type : ItemType) (val : String) (given : Bool)
    → has_type type (some (variable_value type val given)) ≡ true
unfolding variable_value
variable_value_type type val given = ground arith

arg_value_type :
    (type : ItemType) (a : Option String)
    → (type ≡ string → a ≢ none)
    → has_type type (some (arg_value type a)) ≡ true
unfolding arg_value
arg_value_type boolean a h = refl
arg_value_type string none h = absurd (h refl refl)
arg_value_type string (some t) h = refl
arg_value_type integer none h = refl
arg_value_type integer (some t) h = refl

HasType-expected :
    (getenv : String → Option String) (opts : List Opt) (item : Item)
    → (item.type ≡ string → last_arg item.short_option_name opts ≢ some none)
    → (item.default_value ≢ none → has_type item.type item.default_value ≡ true)
    → expected getenv opts item ≢ none
    → has_type item.type (expected getenv opts item) ≡ true
unfolding expected
HasType-expected getenv opts item a d n = elim (Option-cases (variable getenv item)) [
  | inr (val, e) ↦ rw (e, expected) (variable_value_type item.type val _)
  | inl e ↦ elim (Option-cases (last_arg item.short_option_name opts)) [
    | inr (x, f) ↦ rw (e, f, expected) (arg_value_type item.type x (λ q r. a q (f ∙ ap some r)))
    | inl f ↦ rw (e, f, expected) (d (λ z. n (rw (e, f, expected) z)))
  ]
]

-- An item is required or has a default of its type; only a flag goes by the letter R.
pub record IsWellMade (x : ItemName × Item) : Type 0 where
  pub complete : x.1.required ≡ not (is_some x.1.default_value)
  pub typed : x.1.default_value ≢ none → has_type x.1.type x.1.default_value ≡ true
  pub letter : x.1.type ≡ string → x.1.short_option_name ≢ b'R'

new_config-IsWellMade : All IsWellMade new_config
unfolding new_config new_item
new_config-IsWellMade = ground arith

abbrev IsProvided : ItemName × Item → Type 0
IsProvided x = not (x.1.required && not (x.1.value_set || is_some x.1.default_value)) ≡ true

validate-IsProvided : (m : Config) → validate m ≡ true → All IsProvided m
unfolding validate
validate-IsProvided [] h = tt
validate-IsProvided ((name, item) ∷ m) h =
    (ground (arith, h), validate-IsProvided m (ground (arith, h)))

current-ne-none :
    (x item : Item)
    → (x.required ≡ item.required) × (x.default_value ≡ item.default_value)
    → not (x.required && not (x.value_set || is_some x.default_value)) ≡ true
    → item.required ≡ not (is_some item.default_value)
    → current x ≢ none
current-ne-none x item k q c = ground arith

-- If every option but the flag has an argument, a configuration that is loaded holds a value of its
-- type for every item; none is missing.
pub load-HasType :
    (getenv : String → Option String) (opts : List Opt) (c : Config) (name : ItemName) (item : Item)
    → All HasArgument opts
    → load getenv opts new_config ≡ ok c
    → find name new_config ≡ some item
    → (v : Option ItemValue) × (lookup name c ≡ ok v) × (has_type item.type v ≡ true)
load-HasType getenv opts c name item a h f =
    let made = find-All IsWellMade new_config name item new_config-IsWellMade f in
    let fresh = find-All IsFresh new_config name item new_config-IsFresh f in
    (
      expected getenv opts item,
      load-lookup getenv opts c name item h f,
      HasType-expected getenv opts item (λ q. last_arg-ne-null _ opts (made.letter q) a) made.typed
          (λ e.
            current-ne-none (set_env getenv (touch_all opts item)) item
              (set_env-kept getenv opts item)
              (find-All IsProvided c name _
                (validate-IsProvided c (load-map_values getenv opts c h).1)
                (load-found getenv opts c name item h f))
              made.complete (set_env-expected getenv opts item fresh.0 fresh.1 ∙ e)),
    )
