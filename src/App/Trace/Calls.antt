-- ===== src/App/Trace/Calls.antt =====
-- The calls of the REST interface, src/nexran.cc, as rows of operations on the tracker.
use nexran.Base.{
  String, Bool, true, false, [], ◌∷◌, Option, none, some, not, ◌||◌, string_key, if◌then◌else◌,
}
use nexran.Base.Map.{find, contains}
use nexran.E2sm.Types.{Control, slice_status, slice_delete, slice_ue_bind, slice_ue_unbind}
use nexran.Resource.Json.{Json}
use nexran.Resource.Error.{Result, ok, err, fault}
use nexran.Resource.Ue
use nexran.Resource.Ue.{Ue, is_bound}
use nexran.Resource.Slice
use nexran.Resource.Slice.{Slice, unbind_ue, bind_ue}
use nexran.Resource.NodeB
use nexran.Resource.NodeB.{NodeB, bind_slice, unbind_slice}
use nexran.E2ap.State.{Platform}
use nexran.App.Types.{
  App, Outcome, Resource, nodeb, slice, ue, ResourceType, nodeb_resource, slice_resource,
  ue_resource,
}
use nexran.App.Equalize.Float.{FloatOps}
use nexran.App.Send.{send_control, send_to_bound, share_control}
use nexran.App.Store.{add, del, del_ue, del_slice, del_nodeb, update, finish, unbind_all_ues, names}
use nexran.App.Bind.{bind_slice_nodeb, unbind_slice_nodeb, bind_ue_slice, unbind_ue_slice}
use nexran.App.Call.{
  Call, adding, deleting, updating, binding_slice, unbinding_slice, binding_ue, unbinding_ue, run,
  discard,
}
use nexran.App.Dispatch.{Decoders}
use nexran.App.Trace.{
  Moves, none_yet, later, controls, subscribes, one, Moves_trans, send_to_bound-Moves,
  delete_slices-Moves, delete_all_subscriptions-Moves,
}

module _ (platform : Platform) (json : Json) (ops : FloatOps) (decoders : Decoders) where
  -- What a call does to the tracker.
  abbrev pub Does : App → App → Type 0
  Does app app' = Moves platform ops decoders app.e2ap app'.e2ap

  found :
      {A V : Type 0} (o : Option V) (app : App) (x : Outcome A) (f : V → Outcome A)
      → Does app x.0
      → ((v : V) → Does app (f v).0)
      → Does app (elim o as (λ z. Outcome A) [ none ↦ x | some v ↦ f v ]).0
  found none app x f n s = n
  found (some v) app x f n s = s v

  pub tested :
      {A : Type 0} (b : Bool) (app : App) (x y : Outcome A)
      → Does app x.0
      → Does app y.0
      → Does app (if b then x else y).0
  tested true app x y m n = m
  tested false app x y m n = n

  asks :
      (control : Control) (meid : String) (app : App)
      → Moves platform ops decoders app.e2ap (send_control platform control meid app.e2ap)
  asks control meid app = one platform ops decoders app.e2ap _ (controls control meid app.e2ap)

  asks_bound :
      (slice_name : String) (control : Control) (app : App)
      → Moves platform ops decoders app.e2ap
          (send_to_bound platform slice_name control app.nodebs app.e2ap)
  asks_bound slice_name control app =
      send_to_bound-Moves platform ops decoders slice_name control app.nodebs app.e2ap

  left :
      {A : Type 0} (r : Result A) (app app' : App) (f : A → App)
      → ((a : A) → Does app (f a))
      → Does app app'
      → Does app
          (elim r as (λ z. Outcome (Unit {0})) [
            | ok a ↦ (f a, ok tt)
            | err ae ↦ (app', err ae)
            | fault ↦ (app', fault)
          ]).0
  left (ok a) app app' f d d' = d a
  left (err ae) app app' f d d' = d'
  left fault app app' f d d' = d'

  add-Moves : (r : Resource) (app : App) → Does app (add platform r app).0
  unfolding add
  add-Moves (nodeb nb) app = tested (contains nb.name app.nodebs) app _ _ none_yet (
      later (send_control platform (slice_status []) nb.name app.e2ap) _
        (asks (slice_status []) nb.name app) (subscribes nb.name _))
  add-Moves (slice s) app = tested (contains s.name app.slices) app _ _ none_yet none_yet
  add-Moves (ue u) app = tested (contains u.imsi app.ues) app _ _ none_yet none_yet

  del_ue-Moves : (rname : String) (u : Ue) (app : App) → Does app (del_ue platform rname u app).0
  unfolding del_ue
  del_ue-Moves rname u app = tested (not (is_bound u)) app _ _ none_yet (
      found (find u.bound_slice app.slices) app _ _ none_yet (λ s.
        tested (not (unbind_ue u.imsi s).1) app _ _ none_yet
          (asks_bound u.bound_slice (slice_ue_unbind u.bound_slice (u.imsi ∷ [])) app)))

  del_slice-Moves :
      (rname : String) (s : Slice) (app : App) → Does app (del_slice platform rname s app).0
  unfolding del_slice
  del_slice-Moves rname s app =
      let asked = asks_bound rname (slice_delete (rname ∷ [])) app in
      left (unbind_all_ues s.ues app.ues) app _ _ (λ ues. asked) asked

  del_nodeb-Moves :
      (rname : String) (nb : NodeB) (app : App) → Does app (del_nodeb platform rname nb app).0
  unfolding del_nodeb
  del_nodeb-Moves rname nb app =
      Moves_trans platform ops decoders app.e2ap _ _
        (delete_slices-Moves platform ops decoders (names nb.slices) nb.name app.e2ap)
        (delete_all_subscriptions-Moves platform ops decoders rname _)

  del-Moves :
      (rt : ResourceType) (rname : String) (app : App) → Does app (del platform rt rname app).0
  unfolding del
  del-Moves ue_resource rname app =
      found (find rname app.ues) app _ _ none_yet (λ u. del_ue-Moves rname u app)
  del-Moves slice_resource rname app =
      found (find rname app.slices) app _ _ none_yet (λ s. del_slice-Moves rname s app)
  del-Moves nodeb_resource rname app =
      found (find rname app.nodebs) app _ _ none_yet (λ nb. del_nodeb-Moves rname nb app)

  finished :
      {A : Type 0} (r : Result A) (app : App) (f : A → App)
      → ((a : A) → Does app (f a))
      → Does app (finish platform json app f r).0
  finished (ok a) app f d = d a
  finished (err ae) app f d = none_yet
  finished fault app f d = none_yet

  update-Moves :
      (rt : ResourceType) (rname : String) (d : json.Value) (app : App)
      → Does app (update platform json rt rname d app).0
  unfolding update
  update-Moves ue_resource rname d app =
      found (find rname app.ues) app _ _ none_yet
        (λ u. finished (Ue.update json d u) app _ (λ u'. none_yet))
  update-Moves slice_resource rname d app =
      found (find rname app.slices) app _ _ none_yet (λ s.
        finished (Slice.update json d s) app _ (λ s'. asks_bound rname (share_control s') app))
  update-Moves nodeb_resource rname d app =
      found (find rname app.nodebs) app _ _ none_yet
        (λ nb. finished (NodeB.update json d nb) app _ (λ nb'. none_yet))

  bind_slice_nodeb-Moves :
      (s nb : String) (app : App) → Does app (bind_slice_nodeb platform s nb app).0
  unfolding bind_slice_nodeb
  bind_slice_nodeb-Moves slice_name nodeb_name app =
      found (find slice_name app.slices) app _ _ none_yet λ s.
        found (find nodeb_name app.nodebs) app _ _ none_yet λ nb.
          tested (not (bind_slice s nb).1) app _ _ none_yet (asks (share_control s) nb.name app)

  unbind_slice_nodeb-Moves :
      (s nb : String) (app : App) → Does app (unbind_slice_nodeb platform s nb app).0
  unfolding unbind_slice_nodeb
  unbind_slice_nodeb-Moves slice_name nodeb_name app =
      found (find slice_name app.slices) app _ _ none_yet λ s.
        found (find nodeb_name app.nodebs) app _ _ none_yet λ nb.
          tested (not (unbind_slice slice_name nb).1) app _ _ none_yet
            (asks (slice_delete (slice_name ∷ [])) nb.name app)

  bind_ue_slice-Moves : (u s : String) (app : App) → Does app (bind_ue_slice platform u s app).0
  unfolding bind_ue_slice
  bind_ue_slice-Moves imsi slice_name app = found (find slice_name app.slices) app _ _ none_yet λ s.
      found (find imsi app.ues) app _ _ none_yet λ u.
        tested (is_bound u || not (bind_ue u s).1) app _ _ none_yet
          (asks_bound slice_name (slice_ue_bind s.name (u.imsi ∷ [])) app)

  unbind_ue_slice-Moves : (u s : String) (app : App) → Does app (unbind_ue_slice platform u s app).0
  unfolding unbind_ue_slice
  unbind_ue_slice-Moves imsi slice_name app =
      found (find slice_name app.slices) app _ _ none_yet λ s.
        found (find imsi app.ues) app _ _ none_yet λ u.
          tested (not (unbind_ue imsi s).1) app _ _ none_yet
            (asks_bound slice_name (slice_ue_unbind s.name (imsi ∷ [])) app)

  dropped :
      {A : Type 0} (app : App) (o : Outcome A) → Does app o.0 → Does app (discard platform json o).0
  dropped app (app', ok a) m = m
  dropped app (app', err e) m = m
  dropped app (app', fault) m = m

  pub run-Moves : (c : Call platform json) (app : App) → Does app (run platform json c app).0
  unfolding run
  run-Moves (adding r) app = dropped app (add platform r app) (add-Moves r app)
  run-Moves (deleting rt rname) app = del-Moves rt rname app
  run-Moves (updating rt rname d) app = update-Moves rt rname d app
  run-Moves (binding_slice s nb) app = bind_slice_nodeb-Moves s nb app
  run-Moves (unbinding_slice s nb) app = unbind_slice_nodeb-Moves s nb app
  run-Moves (binding_ue u s) app = bind_ue_slice-Moves u s app
  run-Moves (unbinding_ue u s) app = unbind_ue_slice-Moves u s app
