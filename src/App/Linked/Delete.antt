-- ===== src/App/Linked/Delete.antt =====
-- `del` of `App`, src/nexran.cc, on a consistent database.
use mathlib.Core.Path.{subst₂}
use nexran.E2sm.Types.{slice_ue_unbind}
use nexran.Base.{
  ◌≡◌, ◌≢◌, sym, ◌∙◌, inl, inr, String, true, [], ◌∷◌, some, arith, ◌==◌, string_key, Bool-cases,
  Option-cases, All, All-weaken,
}
use nexran.Base.Map.{Map, find, contains, put, erase, find-erase, erase-All}
use nexran.Resource.Error.{fault}
use nexran.Resource.Pointer.{Ref}
use nexran.Resource.Ue.{Ue, is_bound}
use nexran.Resource.Slice.{Slice, unbind_ue}
use nexran.Resource.NodeB.{NodeB}
use nexran.E2ap.State.{Platform}
use nexran.App.Types.{App, ResourceType, nodeb_resource, slice_resource, ue_resource}
use nexran.App.Store.{del, del_ue, del_nodeb}
use nexran.App.Send.{send_to_bound}
use nexran.App.Linked.{
  Link, Linked, Link-agree, IsConsistent, put_slice-IsConsistent, find-put-cases,
}
use nexran.App.Linked.Store.{named-erase}
use nexran.App.Linked.DeleteSlice.{del_slice_lem}

-- A link to another UE outlives the erasure.
Link-erase :
    (ues : Map String Ue) (k n imsi : String) (r : Ref)
    → imsi ≢ k
    → Link ues n imsi r
    → Link (erase k ues) n imsi r
Link-erase ues k n imsi r other =
    Link-agree ues (erase k ues) n imsi r (elim (Bool-cases (k == imsi)) [
      | inl y ↦ absurd (other (sym ((string_key.beq_iff k imsi).0 y)))
      | inr n' ↦ ground (arith, find-erase k imsi ues)
    ])

-- The UE can go if no slice lists it any more.
erase_ue-IsConsistent :
    (rname : String) (app : App)
    → IsConsistent app
    → ((k : String) (t : Slice)
        → find k app.slices ≡ some t
        → All (λ x. Linked app.ues k x × (x.0 ≢ rname)) t.ues)
    → IsConsistent (record app { ues = erase rname app.ues })
erase_ue-IsConsistent rname app c free = record {
  nodebs_named = c.nodebs_named;
  slices_named = c.slices_named;
  ues_named = named-erase (λ v. v.imsi) rname app.ues c.ues_named;
  linked = λ k t h.
      All-weaken _ _ (λ x p. Link-erase app.ues rname k x.0 x.1 p.1 p.0) t.ues (free k t h);
}

-- An entry for the UE `u` is one of the slice that `u` is bound to.
entry-names :
    (ues : Map String Ue) (u : Ue) (rname k : String) (x : String × Ref)
    → find rname ues ≡ some u
    → Linked ues k x
    → x.0 ≡ rname
    → (u.bound_slice ≡ k) × (is_bound u ≡ true)
entry-names ues u rname k x h l e = ground (arith, l.found, l.to_slice, l.bound)

module _ (platform : Platform) where
  del_ue-IsConsistent :
      (rname : String) (u : Ue) (app : App)
      → find rname app.ues ≡ some u
      → IsConsistent app
      → IsConsistent (del_ue platform rname u app).0
  unfolding del_ue unbind_ue
  del_ue-IsConsistent rname u app h c = elim (Bool-cases (is_bound u)) [
    | inr free ↦ rw free (
        erase_ue-IsConsistent rname app c (λ k t found.
          All-weaken _ _ (λ x l. (l, λ e. ground (arith, entry-names app.ues u rname k x h l e)))
            t.ues (c.linked k t found)))
    | inl bound ↦ elim (Option-cases (find u.bound_slice app.slices)) [
      | inl gone ↦ rw bound (
          rw gone (
            erase_ue-IsConsistent rname app c (λ k t found.
              All-weaken _ _
                (λ x l. (l, λ e. ground (arith, entry-names app.ues u rname k x h l e))) t.ues
                (c.linked k t found))))
      | inr (s, there) ↦ elim (Bool-cases (contains u.imsi s.ues)) [
        | inr absent ↦ rw bound (rw there (rw absent c))
        | inl listed ↦
            let rest =
              erase-All (Linked app.ues u.bound_slice) u.imsi s.ues
                (c.linked u.bound_slice s there) in
            let s' = record s { ues = erase u.imsi s.ues } in
            let e =
              send_to_bound platform u.bound_slice (slice_ue_unbind u.bound_slice (u.imsi ∷ []))
                app.nodebs app.e2ap in
            let mid =
              put_slice-IsConsistent u.bound_slice s' e app c (c.slices_named u.bound_slice s there)
                (All-weaken _ _ (λ x p. p.0) (erase u.imsi s.ues) rest) in
            rw bound (
              rw there (
                rw listed (
                  erase_ue-IsConsistent rname
                    (record app { slices = put u.bound_slice s' app.slices; e2ap = e }) mid
                    (λ k t found. elim (find-put-cases u.bound_slice k s' t app.slices found) [
                      | inl (here, same) ↦
                          subst₂ (λ i w. All (λ x. Linked app.ues i x × (x.0 ≢ rname)) w.ues) here
                            same
                            (All-weaken _ _
                              (λ x p. (p.0, λ q. p.1 (q ∙ sym (c.ues_named rname u h))))
                              (erase u.imsi s.ues) rest)
                      | inr (other, old) ↦
                          All-weaken _ _
                            (λ x l. (l, λ q. other (entry-names app.ues u rname k x h l q).0)) t.ues
                            (c.linked k t old)
                    ]))))
      ]
    ]
  ]

  del_nodeb-IsConsistent :
      (rname : String) (nb : NodeB) (app : App)
      → IsConsistent app
      → IsConsistent (del_nodeb platform rname nb app).0
  unfolding del_nodeb
  del_nodeb-IsConsistent rname nb app c = record {
    nodebs_named = named-erase (λ v. v.name) rname app.nodebs c.nodebs_named;
    slices_named = c.slices_named;
    ues_named = c.ues_named;
    linked = c.linked;
  }

  -- A deletion keeps the database consistent, whichever way it ends.
  pub del-IsConsistent :
      (rt : ResourceType) (rname : String) (app : App)
      → IsConsistent app
      → IsConsistent (del platform rt rname app).0
  unfolding del
  del-IsConsistent nodeb_resource rname app c = elim (Option-cases (find rname app.nodebs)) [
    | inl n ↦ rw (n, del) c
    | inr (nb, y) ↦ rw (y, del) (del_nodeb-IsConsistent rname nb app c)
  ]
  del-IsConsistent slice_resource rname app c = elim (Option-cases (find rname app.slices)) [
    | inl n ↦ rw (n, del) c
    | inr (s, y) ↦ rw (y, del) (del_slice_lem platform rname s app y c).3
  ]
  del-IsConsistent ue_resource rname app c = elim (Option-cases (find rname app.ues)) [
    | inl n ↦ rw (n, del) c
    | inr (u, y) ↦ rw (y, del) (del_ue-IsConsistent rname u app y c)
  ]

  -- In a consistent database no deletion follows a dangling pointer.
  pub del-ne-fault :
      (rt : ResourceType) (rname : String) (app : App)
      → IsConsistent app
      → (del platform rt rname app).1 ≢ fault
  unfolding del del_ue del_nodeb
  del-ne-fault nodeb_resource rname app c = ground arith
  del-ne-fault slice_resource rname app c = elim (Option-cases (find rname app.slices)) [
    | inl n ↦ ground arith
    | inr (s, y) ↦ ground (arith, (del_slice_lem platform rname s app y c).0)
  ]
  del-ne-fault ue_resource rname app c = ground arith
