-- ===== src/App/Linked/Update.antt =====
-- `update` of `App`, src/nexran.cc, on a consistent database.
use nexran.Base.{◌≡◌, ◌⊎◌, refl, ◌∙◌, String, inl, inr, Option, arith, string_key, Option-cases}
use nexran.Base.Map.{find}
use nexran.Resource.Json.{Json}
use nexran.Resource.Error.{AppError, Result, ok, err, fault}
use nexran.Resource.Ue
use nexran.Resource.Ue.{Ue, is_bound}
use nexran.Resource.Slice
use nexran.Resource.Slice.{Slice}
use nexran.Resource.NodeB
use nexran.Resource.NodeB.{NodeB}
use nexran.E2ap.State.{Platform}
use nexran.App.Types.{App, ResourceType, nodeb_resource, slice_resource, ue_resource}
use nexran.App.Send.{send_to_bound, share_control}
use nexran.App.Store.{update}
use nexran.App.Linked.{IsConsistent, put_slice-IsConsistent}
use nexran.App.Linked.Bind.{put_nodeb-IsConsistent, put_ue-IsConsistent}

Result-cases :
    {A : Type 0} (r : Result A)
    → ((a : A) × (r ≡ ok a)) ⊎ ((r ≡ fault) ⊎ ((e : Option AppError) × (r ≡ err e)))
Result-cases (ok a) = inl (a, refl)
Result-cases (err e) = inr (inr (e, refl))
Result-cases fault = inr (inl refl)

module _ (json : Json) where
  open json use {Value}

  -- An update leaves the name, the identity and the binding of a UE.
  pub Ue_update-keeps :
      (d : Value) (u v : Ue)
      → Ue.update json d u ≡ ok v
      → (v.imsi ≡ u.imsi) × (v.address ≡ u.address) × (v.bound_slice ≡ u.bound_slice)
  unfolding Ue.update
  Ue_update-keeps d u v h = ground arith

  pub Slice_update-keeps :
      (d : Value) (s t : Slice) → Slice.update json d s ≡ ok t → (t.name ≡ s.name) × (t.ues ≡ s.ues)
  unfolding Slice.update
  Slice_update-keeps d s t h = ground arith

  pub NodeB_update-keeps : (d : Value) (a b : NodeB) → NodeB.update json d a ≡ ok b → b ≡ a
  unfolding NodeB.update
  NodeB_update-keeps d a b h = ground arith

  module _ (platform : Platform) where
    -- An update keeps the database consistent, whichever way it ends.
    pub update-IsConsistent :
        (rt : ResourceType) (rname : String) (d : Value) (app : App)
        → IsConsistent app
        → IsConsistent (update platform json rt rname d app).0
    unfolding update is_bound
    update-IsConsistent nodeb_resource rname d app c = elim (Option-cases (find rname app.nodebs)) [
      | inl n ↦ rw (n, update) c
      | inr (nb, y) ↦ elim (Result-cases (NodeB.update json d nb)) [
        | inl (w, e) ↦
            rw (y, e, update)
              (put_nodeb-IsConsistent rname w app.e2ap app c
                (rw (NodeB_update-keeps d nb w e) (c.nodebs_named rname nb y)))
        | inr (inl e) ↦ rw (y, e, update) c
        | inr (inr (_, e)) ↦ rw (y, e, update) c
      ]
    ]
    update-IsConsistent slice_resource rname d app c = elim (Option-cases (find rname app.slices)) [
      | inl n ↦ rw (n, update) c
      | inr (s, y) ↦ elim (Result-cases (Slice.update json d s)) [
        | inl (w, e) ↦
            let (named, same) = Slice_update-keeps d s w e in
            rw (y, e, update)
              (put_slice-IsConsistent rname w
                (send_to_bound platform rname (share_control w) app.nodebs app.e2ap) app c
                (named ∙ c.slices_named rname s y) (rw same (c.linked rname s y)))
        | inr (inl e) ↦ rw (y, e, update) c
        | inr (inr (_, e)) ↦ rw (y, e, update) c
      ]
    ]
    update-IsConsistent ue_resource rname d app c = elim (Option-cases (find rname app.ues)) [
      | inl n ↦ rw (n, update) c
      | inr (u, y) ↦ elim (Result-cases (Ue.update json d u)) [
        | inl (v, e) ↦
            let (named, lies, to) = Ue_update-keeps d u v e in
            rw (y, e, update)
              (put_ue-IsConsistent rname v app c (named ∙ c.ues_named rname u y)
                (λ w h b. ground arith))
        | inr (inl e) ↦ rw (y, e, update) c
        | inr (inr (_, e)) ↦ rw (y, e, update) c
      ]
    ]
