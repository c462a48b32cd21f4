-- ===== src/Examples/App.antt =====
-- The properties of `App` at the small database.
use nexran.Base.{◌≡◌, ◌≢◌, refl, [], ◌∷◌, some, string_key}
use nexran.Base.Map.{find, put, erase}
use nexran.Resource.Error.{ok, fault, raise}
use nexran.Resource.Ue.{Ue, is_bound, bind_slice as bind_ue_to}
use nexran.Resource.Slice.{Slice, new_slice, bind_ue}
use nexran.Resource.Policy.{default_policy}
use nexran.Resource.NodeB.{NodeB, is_slice_bound, bind_slice}
use nexran.App.Types.{App, init, nodeb, slice, ue, slice_resource, ue_resource}
use nexran.App.Store.{add, del, del_slice}
use nexran.App.Bind.{bind_slice_nodeb, unbind_slice_nodeb, bind_ue_slice, unbind_ue_slice}
use nexran.App.Bind.Stale.{bind_slice_nodeb-unbind, unbind_ue_slice-stale, del_slice-stale}
use nexran.App.Linked.{IsConsistent}
use nexran.App.Linked.Store.{IsNew}
use nexran.App.Linked.Unbind.{Unbound}
use nexran.App.Linked.DeleteSlice.{del_slice_lem}
use nexran.App.Call.{run, adds, binds_slice, binds_ue, adding, binding_slice, binding_ue}
use nexran.App.Reach.{Reach, initial, step, call_step, Reach-IsConsistent, Reach-del-ne-fault}
use nexran.Examples.{fast_is_named, json, platform, thousandths, node, fast, phone}

-- One node, one slice and one UE, all bound.
abbrev app0 : App
app0 = init 1

abbrev app1 : App
app1 = (run platform json (adding (nodeb node)) app0).0

abbrev app2 : App
app2 = (run platform json (adding (slice fast)) app1).0

abbrev app3 : App
app3 = (run platform json (adding (ue phone)) app2).0

abbrev app4 : App
app4 = (run platform json (binding_slice "fast" "gnB_001_001_000001") app3).0

abbrev app5 : App
app5 = (run platform json (binding_ue "001" "fast") app4).0

app5-Reach : Reach platform json thousandths app5
app5-Reach =
    step app4 app5
      (step app3 app4
        (step app2 app3
          (step app1 app2
            (step app0 app1 (initial 1)
              (call_step (adding (nodeb node)) app0 (adds (nodeb node) (IsNew.new_nodeb node))))
            (call_step (adding (slice fast)) app1 (adds (slice fast) (IsNew.new_slice fast refl))))
          (call_step (adding (ue phone)) app2 (adds (ue phone) (IsNew.new_ue phone))))
        (call_step (binding_slice "fast" "gnB_001_001_000001") app3
          (binds_slice "fast" "gnB_001_001_000001")))
      (call_step (binding_ue "001" "fast") app4 (binds_ue "001" "fast" fast_is_named))

Reach-IsConsistent_example : IsConsistent app5
Reach-IsConsistent_example = Reach-IsConsistent platform json thousandths app5 app5-Reach

Reach-del-ne-fault_example : (del platform slice_resource "fast" app5).1 ≢ fault
Reach-del-ne-fault_example =
    Reach-del-ne-fault platform json thousandths slice_resource "fast" app5 app5-Reach

-- What `app5` holds.
abbrev bound_fast : Slice
bound_fast = record fast { ues = ("001", record { name = "001"; address = 3 }) ∷ [] }

abbrev bound_phone : Ue
bound_phone = record phone { bound_slice = "fast" }

abbrev bound_node : NodeB
bound_node = record node { slices = ("fast", record { name = "fast"; address = 2 }) ∷ [] }

fast_found : find "fast" app5.slices ≡ some bound_fast
unfolding run add bind_slice_nodeb bind_ue_slice find put init new_slice default_policy bind_ue
    bind_slice is_bound
fast_found = refl

phone_found : find "001" app5.ues ≡ some bound_phone
unfolding run add bind_slice_nodeb bind_ue_slice find put init new_slice default_policy bind_ue
    bind_slice is_bound bind_ue_to
phone_found = refl

node_found : find "gnB_001_001_000001" app5.nodebs ≡ some bound_node
unfolding run add bind_slice_nodeb bind_ue_slice find put init new_slice default_policy bind_ue
    bind_slice is_bound
node_found = refl

app4_fast_found : find "fast" app4.slices ≡ some fast
unfolding run add bind_slice_nodeb find put init new_slice default_policy bind_slice
app4_fast_found = refl

unbind_ue_slice-stale_example :
    let (app', done) = unbind_ue_slice platform "001" "fast" app5 in
    (done ≡ ok tt)
    × ((bind_ue_slice platform "001" "fast" app').1 ≡ raise 403 "ue already bound to slice")
    × ((del platform ue_resource "001" app').1 ≡ raise 404 "ue not bound to this slice")
unfolding find
unbind_ue_slice-stale_example =
    unbind_ue_slice-stale platform "001" "fast" "fast" bound_fast bound_fast bound_phone app5
      (Reach-IsConsistent platform json thousandths app5 app5-Reach) fast_found phone_found refl
      fast_found

del_slice-stale_example :
    let app' = (add platform (slice fast) (del platform slice_resource "fast" app5).0).0 in
    (bind_slice_nodeb platform "fast" "gnB_001_001_000001" app').1
    ≡ raise 403 "slice already bound to nodeb"
unfolding is_slice_bound find
del_slice-stale_example =
    del_slice-stale platform "fast" "gnB_001_001_000001" bound_fast fast bound_node app5
      (Reach-IsConsistent platform json thousandths app5 app5-Reach) fast_found node_found refl refl

node_found_unbound : find "gnB_001_001_000001" app3.nodebs ≡ some node
unfolding run add find put init
node_found_unbound = refl

fast_found_unbound : find "fast" app3.slices ≡ some fast
unfolding run add find put init new_slice default_policy
fast_found_unbound = refl

bind_slice_nodeb-unbind_example :
    let (bound, done) = bind_slice_nodeb platform "fast" "gnB_001_001_000001" app3 in
    let (after, undone) = unbind_slice_nodeb platform "fast" "gnB_001_001_000001" bound in
    (done ≡ ok tt)
    × (undone ≡ ok tt)
    × ((nb' : NodeB) × (find "gnB_001_001_000001" after.nodebs ≡ some nb')
        × (is_slice_bound "fast" nb' ≡ is_slice_bound "fast" node))
unfolding is_slice_bound find
bind_slice_nodeb-unbind_example =
    bind_slice_nodeb-unbind platform "fast" "gnB_001_001_000001" "fast" fast node app3
      fast_found_unbound node_found_unbound refl refl

del_slice_lem_example :
    let r = del_slice platform "fast" bound_fast app5 in
    (r.1 ≡ ok tt)
    × (r.0.slices ≡ erase "fast" app5.slices)
    × Unbound bound_fast.ues app5.ues r.0.ues
    × IsConsistent r.0
del_slice_lem_example =
    del_slice_lem platform "fast" bound_fast app5 fast_found
      (Reach-IsConsistent platform json thousandths app5 app5-Reach)
