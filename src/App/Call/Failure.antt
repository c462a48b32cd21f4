-- ===== src/App/Call/Failure.antt =====
-- Methods of `App` that fail, src/nexran.cc.
use nexran.Base.{
  ◌≡◌, ◌≢◌, ◌⊎◌, inl, inr, refl, String, [], ◌∷◌, Option, some, arith, string_key, Option-cases,
}
use nexran.Base.Map.{Map, find, put}
use nexran.Resource.Json.{Json}
use nexran.Resource.Error.{AppError, ok, err, fault, Result-cases}
use nexran.Resource.Pointer.{Ref}
use nexran.Resource.Ue
use nexran.Resource.Ue.{Ue}
use nexran.Resource.Slice.{Slice}
use nexran.E2ap.State.{Platform}
use nexran.App.Types.{App, Outcome, nodeb, slice, ue, nodeb_resource, slice_resource, ue_resource}
use nexran.App.Store.{
  add, del, del_ue, del_slice, del_nodeb, update, unbind_all_ues, unbind_through,
}
use nexran.App.Bind.{bind_slice_nodeb, unbind_slice_nodeb, bind_ue_slice, unbind_ue_slice}
use nexran.App.Linked.{IsConsistent}
use nexran.App.Linked.DeleteSlice.{del_slice_lem}
use nexran.App.Call.{
  Call, adding, deleting, updating, binding_slice, unbinding_slice, binding_ue, unbinding_ue, run,
}

module _ (platform : Platform) (json : Json) where
  -- The end of a call: a success, the state as it was, or the crash of a slice's deletion on a
  -- database that is not consistent.
  abbrev pub Ends : Call platform json → App → Outcome (Unit {0}) → Type 0
  Ends c app (app', result) =
      (result ≡ ok tt)
      ⊎ (app' ≡ app)
      ⊎ ((n : String) × (c ≡ deleting slice_resource n) × (result ≡ fault) × ¬ IsConsistent app)

  -- Unbinding a slice's UEs can crash, but it does not fail.
  unbind_all_ues-ne-err :
      (refs : Map String Ref) (ues : Map String Ue) (e : Option AppError)
      → unbind_all_ues refs ues ≢ err e
  unfolding unbind_all_ues unbind_through
  unbind_all_ues-ne-err [] ues e = ground arith
  unbind_all_ues-ne-err ((imsi, r) ∷ refs) ues e = elim (Option-cases (find r.name ues)) [
    | inl n ↦ ground arith
    | inr (u, y) ↦
        ground (arith, unbind_all_ues-ne-err refs (put r.name (Ue.unbind_slice u).0 ues) e)
  ]

  del_slice-Ends :
      (rname : String) (s : Slice) (app : App)
      → find rname app.slices ≡ some s
      → Ends (deleting slice_resource rname) app (del_slice platform rname s app)
  unfolding del_slice
  del_slice-Ends rname s app h = elim (Result-cases (unbind_all_ues s.ues app.ues)) [
    | inl (ues, y) ↦ inl (ground arith)
    | inr (inl (e, y)) ↦ absurd (unbind_all_ues-ne-err s.ues app.ues e y)
    | inr (inr y) ↦ inr (
        inr (
          rname,
          refl,
          ground arith,
          λ c. ground (arith, (del_slice_lem platform rname s app h c).0),
        ))
  ]

  pub run-unchanged : (c : Call platform json) (app : App) → Ends c app (run platform json c app)
  unfolding run add del del_ue del_nodeb update bind_slice_nodeb unbind_slice_nodeb bind_ue_slice
      unbind_ue_slice
  run-unchanged (adding (nodeb nb)) app = ground arith
  run-unchanged (adding (slice s)) app = ground arith
  run-unchanged (adding (ue u)) app = ground arith
  run-unchanged (deleting nodeb_resource rname) app = ground arith
  run-unchanged (deleting slice_resource rname) app = elim (Option-cases (find rname app.slices)) [
    | inl n ↦ rw (n, del) (inr (inl refl))
    | inr (s, y) ↦ rw (y, del) (del_slice-Ends rname s app y)
  ]
  run-unchanged (deleting ue_resource rname) app = ground arith
  run-unchanged (updating nodeb_resource rname d) app = ground arith
  run-unchanged (updating slice_resource rname d) app = ground arith
  run-unchanged (updating ue_resource rname d) app = ground arith
  run-unchanged (binding_slice s nb) app = ground arith
  run-unchanged (unbinding_slice s nb) app = ground arith
  run-unchanged (binding_ue u s) app = ground arith
  run-unchanged (unbinding_ue u s) app = ground arith
