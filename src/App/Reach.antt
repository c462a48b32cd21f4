-- ===== src/App/Reach.antt =====
-- The states that `App` reaches: its methods, as the handlers of src/restserver.cc call them, and the
-- E2 messages, in any order. Each holds `App::mutex`, so a run is a sequence of whole calls.
use nexran.Base.{refl, ◌≢◌, ℕ, String, arith, string_key}
use nexran.Base.Map.{find}
use nexran.Base.Int.{ℤ}
use nexran.Kpm.Report.{KpmReport}
use nexran.App.Equalize.Float.{FloatOps}
use nexran.App.Equalize.Handle.{handle_kpm}
use nexran.App.Equalize.Effects.{handle_kpm-IsConsistent}
use nexran.Resource.Json.{Json}
use nexran.Resource.Error.{ok, err, fault}
use nexran.Resource.Slice.{new_slice}
use nexran.Resource.Policy.{default_policy}
use nexran.E2ap.State.{Platform, E2ap, new_e2ap}
use nexran.App.Types.{App, Outcome, new_app, init, ResourceType}
use nexran.App.Store.{add, del}
use nexran.App.Call.{
  Call, run, discard, IsAllowed, adds, deletes, updates, binds_slice, unbinds_slice, binds_ue,
  unbinds_ue,
}
use nexran.App.Linked.{IsConsistent, put_slice-IsConsistent}
use nexran.App.Linked.Store.{add-IsConsistent}
use nexran.App.Linked.Delete.{del-IsConsistent, del-ne-fault}
use nexran.App.Linked.Update.{update-IsConsistent}
use nexran.App.Linked.Bind.{
  bind_slice_nodeb-IsConsistent, unbind_slice_nodeb-IsConsistent, bind_ue_slice-IsConsistent,
  unbind_ue_slice-IsConsistent,
}

module _ (platform : Platform) (json : Json) (ops : FloatOps) where
  open json use {Value}

  -- A call of the REST interface, a KPM report, or a message of E2 with any effect on the request tracker.
  pub data Step : App → App → Type 0 where
    call_step :
        (c : Call platform json) (app : App)
        → IsAllowed platform json c
        → Step app (run platform json c app).0
    kpm_step :
        (now : ℤ) (report : KpmReport) (app : App)
        → Step app (handle_kpm platform ops now report app)
    e2_step : (e : E2ap) (app : App) → Step app (record app { e2ap = e })

  pub data Reach : App → Type 0 where
    start : Reach new_app
    initial : (address : ℕ) → Reach (init address)
    step : (app app' : App) → Reach app → Step app app' → Reach app'

  discard-IsConsistent :
      {A : Type 0} (o : Outcome A) → IsConsistent o.0 → IsConsistent (discard platform json o).0
  discard-IsConsistent (app, ok a) c = c
  discard-IsConsistent (app, err e) c = c
  discard-IsConsistent (app, fault) c = c

  new_app-IsConsistent : IsConsistent new_app
  unfolding new_app find
  new_app-IsConsistent = record {
    nodebs_named = λ n v h. absurd (ground arith);
    slices_named = λ n v h. absurd (ground arith);
    ues_named = λ n v h. absurd (ground arith);
    linked = λ n v h. absurd (ground arith);
  }

  init-IsConsistent : (address : ℕ) → IsConsistent (init address)
  unfolding init new_slice
  init-IsConsistent address =
      put_slice-IsConsistent "default" (new_slice address "default" default_policy) new_e2ap new_app
        new_app-IsConsistent refl tt

  run-IsConsistent :
      (c : Call platform json) (app : App)
      → IsAllowed platform json c
      → IsConsistent app
      → IsConsistent (run platform json c app).0
  unfolding run
  run-IsConsistent _ app (adds r i) c =
      discard-IsConsistent (add platform r app) (add-IsConsistent platform r app i c)
  run-IsConsistent _ app (deletes rt rname) c = del-IsConsistent platform rt rname app c
  run-IsConsistent _ app (updates rt rname d) c = update-IsConsistent json platform rt rname d app c
  run-IsConsistent _ app (binds_slice s nb) c = bind_slice_nodeb-IsConsistent platform s nb app c
  run-IsConsistent _ app (unbinds_slice s nb) c =
      unbind_slice_nodeb-IsConsistent platform s nb app c
  run-IsConsistent _ app (binds_ue u s named) c =
      bind_ue_slice-IsConsistent platform u s app named c
  run-IsConsistent _ app (unbinds_ue u s) c = unbind_ue_slice-IsConsistent platform u s app c

  Step-IsConsistent : (app app' : App) → Step app app' → IsConsistent app → IsConsistent app'
  Step-IsConsistent _ _ (call_step call app i) c = run-IsConsistent call app i c
  Step-IsConsistent _ _ (kpm_step now report app) c =
      handle_kpm-IsConsistent platform ops now report app c
  Step-IsConsistent _ _ (e2_step e app) c = record {
    nodebs_named = c.nodebs_named;
    slices_named = c.slices_named;
    ues_named = c.ues_named;
    linked = c.linked;
  }

  -- Every state that the calls lead to from a new one, empty or with the slice that `init` adds, is
  -- consistent: no entry of a slice's UEs dangles, and each object stands under its own name.
  pub Reach-IsConsistent : (app : App) → Reach app → IsConsistent app
  Reach-IsConsistent _ start = new_app-IsConsistent
  Reach-IsConsistent _ (initial address) = init-IsConsistent address
  Reach-IsConsistent _ (step app app' r s) = Step-IsConsistent app app' s (Reach-IsConsistent app r)

  -- In such a state no deletion follows a dangling pointer.
  pub Reach-del-ne-fault :
      (rt : ResourceType) (rname : String) (app : App)
      → Reach app
      → (del platform rt rname app).1 ≢ fault
  Reach-del-ne-fault rt rname app r = del-ne-fault platform rt rname app (Reach-IsConsistent app r)
