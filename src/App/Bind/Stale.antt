-- ===== src/App/Bind/Stale.antt =====
-- What the bindings of src/nexran.cc leave behind.
use nexran.Base.{◌≡◌, refl, String, true, false, some, arith, string_key, Option-cases, inl, inr}
use nexran.Base.Map.{
  find, contains, put, erase, find-put, find-erase, find-put_same, find-All, beq_refl,
}
use nexran.Resource.Error.{ok, raise}
use nexran.Resource.Ue.{Ue, is_bound}
use nexran.Resource.Slice.{Slice, unbind_ue}
use nexran.Resource.NodeB.{NodeB, bind_slice, unbind_slice, is_slice_bound}
use nexran.E2ap.State.{Platform}
use nexran.App.Types.{App, ue_resource, slice_resource, slice}
use nexran.App.Store.{add, del, del_ue, del_slice}
use nexran.App.Bind.{bind_slice_nodeb, unbind_slice_nodeb, bind_ue_slice, unbind_ue_slice}
use nexran.App.Linked.DeleteSlice.{del_slice_lem}
use nexran.Resource.Pointer.{Ref}
use nexran.App.Linked.{Linked, IsConsistent}

module _ (platform : Platform) where
  -- A slice that a node has no entry for can be bound to it and unbound again: both calls succeed,
  -- and the node is then bound to the slices that it was bound to before.
  pub bind_slice_nodeb-unbind :
      (slice_name nodeb_name other : String) (s : Slice) (nb : NodeB) (app : App)
      → find slice_name app.slices ≡ some s
      → find nodeb_name app.nodebs ≡ some nb
      → is_slice_bound slice_name nb ≡ false
      → s.name ≡ slice_name
      → let (bound, done) = bind_slice_nodeb platform slice_name nodeb_name app in
        let (after, undone) = unbind_slice_nodeb platform slice_name nodeb_name bound in
        (done ≡ ok tt)
        × (undone ≡ ok tt)
        × ((nb' : NodeB) × (find nodeb_name after.nodebs ≡ some nb')
            × (is_slice_bound other nb' ≡ is_slice_bound other nb))
  unfolding bind_slice_nodeb unbind_slice_nodeb bind_slice unbind_slice is_slice_bound
  bind_slice_nodeb-unbind slice_name nodeb_name other s nb app hs hn free named =
      let r : Ref = record { name = s.name; address = s.address } in
      let nb1 = record nb { slices = put s.name r nb.slices } in
      let nb2 = record nb { slices = erase slice_name (put s.name r nb.slices) } in
      let nodebs1 = put nodeb_name nb1 app.nodebs in
      let f1 = find-put_same nodeb_name nodeb_name nb1 app.nodebs refl in
      let f2 = find-put_same nodeb_name nodeb_name nb2 nodebs1 refl in
      let e1 = find-put_same s.name slice_name r nb.slices named in
      (
        ground arith,
        ground (arith, f1, e1),
        (
          nb2,
          ground (arith, f1, f2, e1),
          ground (
            arith,
            find-erase slice_name other (put s.name r nb.slices),
            find-put s.name other r nb.slices,
            string_key.beq_iff slice_name other,
          ),
        ),
      )

  -- Unbinding a UE from a slice leaves the UE's own record of the slice: after the call has
  -- succeeded, the UE can be bound to no slice, and it cannot be deleted.
  pub unbind_ue_slice-stale :
      (imsi slice_name other : String) (s t : Slice) (u : Ue) (app : App)
      → IsConsistent app
      → find slice_name app.slices ≡ some s
      → find imsi app.ues ≡ some u
      → contains imsi s.ues ≡ true
      → find other app.slices ≡ some t
      → let (app', done) = unbind_ue_slice platform imsi slice_name app in
        (done ≡ ok tt)
        × ((bind_ue_slice platform imsi other app').1 ≡ raise 403 "ue already bound to slice")
        × ((del platform ue_resource imsi app').1 ≡ raise 404 "ue not bound to this slice")
  unfolding bind_ue_slice unbind_ue_slice del del_ue unbind_ue
  unbind_ue_slice-stale imsi slice_name other s t u app c hs hu listed ht =
      elim (Option-cases (find imsi s.ues)) [
        | inl n ↦ absurd (ground arith)
        | inr (r, y) ↦
            let l =
              find-All (Linked app.ues slice_name) s.ues imsi r (c.linked slice_name s hs) y in
            let to : u.bound_slice ≡ slice_name = ground (arith, l.found, l.to_slice) in
            let bound : is_bound u ≡ true = ground (arith, l.found, l.bound) in
            let s' = record s { ues = erase imsi s.ues } in
            ground (
              arith,
              to,
              bound,
              c.ues_named imsi u hu,
              find-put slice_name other s' app.slices,
              find-put slice_name slice_name s' app.slices,
              beq_refl slice_name,
              find-erase imsi imsi s.ues,
              beq_refl imsi,
            )
      ]

  -- Deleting a slice leaves the entries of the nodes that it is bound to: a new slice of the same
  -- name cannot be bound to them.
  pub del_slice-stale :
      (slice_name nodeb_name : String) (s new : Slice) (nb : NodeB) (app : App)
      → IsConsistent app
      → find slice_name app.slices ≡ some s
      → find nodeb_name app.nodebs ≡ some nb
      → is_slice_bound slice_name nb ≡ true
      → new.name ≡ slice_name
      → let app' = (add platform (slice new) (del platform slice_resource slice_name app).0).0 in
        (bind_slice_nodeb platform slice_name nodeb_name app').1
        ≡ raise 403 "slice already bound to nodeb"
  unfolding bind_slice_nodeb bind_slice is_slice_bound del del_slice add
  del_slice-stale slice_name nodeb_name s new nb app c hs hn bound named =
      let (done, gone, _, _) = del_slice_lem platform slice_name s app hs c in
      ground (
        arith,
        done,
        gone,
        find-erase slice_name slice_name app.slices,
        beq_refl slice_name,
        find-put slice_name slice_name new (erase slice_name app.slices),
      )
