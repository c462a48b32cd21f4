-- ===== src/Config/Usage.antt =====
-- `Config::usage` of src/config.cc: the bytes that it prints.
use nexran.Base.{
  ℕ, String, Bool, true, false, List, [], ◌∷◌, ◌++◌, none, some, if◌then◌else◌, ◌≡◌, refl,
}
use nexran.Base.Text.{codes}
use nexran.Config.Items.{string, xapp_id, Item, Config, new_item}

unfoldable pub usage_item : Item → List ℕ
usage_item item =
    codes "  -"
    ++ item.short_option_name
      ∷ (elim item.long_option_name [ none ↦ [] | some name ↦ codes ", --" ++ codes name ])
    ++ codes "\t\t"
    ++ codes item.help
    ++ codes "\n"

-- One of the two loops over the items.
unfoldable pub usage_items : Bool → Config → List ℕ
unfolding usage_item
usage_items mandatory [] = []
usage_items mandatory ((name, item) ∷ m) =
    let rest = usage_items mandatory m in
    if mandatory
    then (if item.required then usage_item item ++ rest else rest)
    else (if item.required then rest else usage_item item ++ rest)

unfoldable pub usage : String → Config → List ℕ
unfolding usage_items
usage progname m =
    codes "Usage: "
    ++ codes progname
    ++ codes " [OPTION]\n"
    ++ codes "\n"
    ++ codes "Mandatory arguments:\n"
    ++ usage_items true m
    ++ codes "\n"
    ++ codes "Optional arguments:\n"
    ++ usage_items false m

usage_example :
    usage "nexran" ((xapp_id, new_item string b'x' "xapp-id" "XAPP_ID" true none "The ID.") ∷ [])
    ≡ codes
        "Usage: nexran [OPTION]\n\nMandatory arguments:\n  -x, --xapp-id\t\tThe ID.\n\nOptional arguments:\n"
unfolding usage new_item
usage_example = refl
