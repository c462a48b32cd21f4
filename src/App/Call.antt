-- ===== src/App/Call.antt =====
-- The methods of `App` that the handlers of src/restserver.cc call to change the database.
pub mod Failure
use nexran.Base.{String, ◌≢◌}
use nexran.Resource.Json.{Json}
use nexran.Resource.Error.{Result, ok, err, fault}
use nexran.E2ap.State.{Platform}
use nexran.App.Types.{App, Outcome, Resource, ResourceType}
use nexran.App.Store.{add, del, update}
use nexran.App.Bind.{bind_slice_nodeb, unbind_slice_nodeb, bind_ue_slice, unbind_ue_slice}
use nexran.App.Linked.Store.{IsNew}

module _ (platform : Platform) (json : Json) where
  open json use {Value}

  pub data Call : Type 0 where
    adding : Resource → Call
    deleting : ResourceType → String → Call
    updating : ResourceType → String → Value → Call
    binding_slice unbinding_slice binding_ue unbinding_ue : String → String → Call

  -- The call's result without what it prints.
  abbrev pub discard : {A : Type 0} → Outcome A → Outcome (Unit {0})
  discard (app, ok a) = (app, ok tt)
  discard (app, err e) = (app, err e)
  discard (app, fault) = (app, fault)

  unfoldable pub run : Call → App → Outcome (Unit {0})
  unfolding add del update bind_slice_nodeb unbind_slice_nodeb bind_ue_slice unbind_ue_slice
  run (adding r) app = discard (add platform r app)
  run (deleting rt rname) app = del platform rt rname app
  run (updating rt rname d) app = update platform json rt rname d app
  run (binding_slice slice_name nodeb_name) app =
      bind_slice_nodeb platform slice_name nodeb_name app
  run (unbinding_slice slice_name nodeb_name) app =
      unbind_slice_nodeb platform slice_name nodeb_name app
  run (binding_ue imsi slice_name) app = bind_ue_slice platform imsi slice_name app
  run (unbinding_ue imsi slice_name) app = unbind_ue_slice platform imsi slice_name app

  -- What the handlers pass: a new resource is made by a `create`, and a name in a path is not empty.
  pub data IsAllowed : Call → Type 0 where
    adds : (r : Resource) → IsNew r → IsAllowed (adding r)
    deletes : (rt : ResourceType) (rname : String) → IsAllowed (deleting rt rname)
    updates : (rt : ResourceType) (rname : String) (d : Value) → IsAllowed (updating rt rname d)
    binds_slice : (s nb : String) → IsAllowed (binding_slice s nb)
    unbinds_slice : (s nb : String) → IsAllowed (unbinding_slice s nb)
    binds_ue : (u s : String) → s ≢ "" → IsAllowed (binding_ue u s)
    unbinds_ue : (u s : String) → IsAllowed (unbinding_ue u s)
