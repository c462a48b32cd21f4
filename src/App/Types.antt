-- ===== src/App/Types.antt =====
-- The state of `App`: the database of resources and the request tracker. Each operation holds
-- `App::mutex` from its first look at the database to its end, so an operation is one step.
use nexran.Base.{ℕ, String, []}
use nexran.Base.Map.{Map}
use nexran.E2ap.State.{E2ap, new_e2ap}
use nexran.Resource.Error.{Result}
use nexran.Resource.Ue.{Ue}
use nexran.Resource.Slice.{Slice, new_slice}
use nexran.Resource.NodeB.{NodeB}
use nexran.Resource.Policy.{default_policy}
use nexran.Base.{string_key}
use nexran.Base.Map.{put}

pub data ResourceType : Type 0 where
  nodeb_resource slice_resource ue_resource : ResourceType

pub data Resource : Type 0 where
  nodeb : NodeB → Resource
  slice : Slice → Resource
  ue : Ue → Resource

-- `db` has one map for each resource type.
pub record App : Type 0 where
  pub nodebs : Map String NodeB
  pub slices : Map String Slice
  pub ues : Map String Ue
  pub e2ap : E2ap

-- The operation's new state, and how it ends.
abbrev pub Outcome : Type 0 → Type 0
Outcome A = App × Result A

-- The constructor.
unfoldable pub new_app : App
unfolding new_e2ap
new_app = record { nodebs = []; slices = []; ues = []; e2ap = new_e2ap }

-- `App::init`, which adds the slice "default"; `address` is where it lies. `main` does not call it.
unfoldable pub init : ℕ → App
unfolding new_app new_slice default_policy
init address = record new_app {
  slices = put "default" (new_slice address "default" default_policy) [];
}

unfoldable pub rtype_to_label : ResourceType → String
rtype_to_label nodeb_resource = "nodeb"
rtype_to_label slice_resource = "slice"
rtype_to_label ue_resource = "ue"

unfoldable pub rtype_to_label_plural : ResourceType → String
rtype_to_label_plural nodeb_resource = "nodebs"
rtype_to_label_plural slice_resource = "slices"
rtype_to_label_plural ue_resource = "ues"
