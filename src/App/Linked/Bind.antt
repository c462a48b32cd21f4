-- ===== src/App/Linked/Bind.antt =====
-- The bindings of `App`, src/nexran.cc, on a consistent database.
use nexran.Base.{
  ◌≡◌, ◌≢◌, refl, sym, ◌∙◌, ap, String, true, inl, inr, [], ◌∷◌, some, arith, string_key,
  Bool-cases, Option-cases, All-weaken,
}
use nexran.Base.Map.{Map, find, contains, put, erase, erase-All, put-All, find-put_same}
use nexran.E2sm.Types.{slice_delete, slice_ue_bind, slice_ue_unbind}
use nexran.Resource.Pointer.{Ref}
use nexran.Resource.Ue.{Ue, is_bound}
use nexran.Resource.Slice.{bind_ue, unbind_ue}
use nexran.Resource.NodeB.{NodeB, bind_slice, unbind_slice}
use nexran.E2ap.State.{Platform, E2ap}
use nexran.App.Types.{App, Outcome}
use nexran.App.Send.{send_to_bound, send_control, share_control}
use nexran.App.Bind.{require, bind_slice_nodeb, unbind_slice_nodeb, bind_ue_slice, unbind_ue_slice}
use nexran.App.Linked.{Linked, Link-put, IsConsistent, put_slice-IsConsistent, find-put-cases}

pub put_nodeb-IsConsistent :
    (k : String) (nb : NodeB) (e : E2ap) (app : App)
    → IsConsistent app
    → nb.name ≡ k
    → IsConsistent (record app { nodebs = put k nb app.nodebs; e2ap = e })
put_nodeb-IsConsistent k nb e app c named = record {
  nodebs_named = λ n w h. elim (find-put-cases k n nb w app.nodebs h) [
    | inl (here, same) ↦ ap (λ v. v.name) (sym same) ∙ named ∙ here
    | inr (_, old) ↦ c.nodebs_named n w old
  ];
  slices_named = c.slices_named;
  ues_named = c.ues_named;
  linked = c.linked;
}

-- A UE may be replaced by one with the same name, address and slice, or if no slice lists it.
pub put_ue-IsConsistent :
    (k : String) (u : Ue) (app : App)
    → IsConsistent app
    → u.imsi ≡ k
    → ((v : Ue)
        → find k app.ues ≡ some v
        → is_bound v ≡ true
        → (u.address ≡ v.address) × (u.bound_slice ≡ v.bound_slice) × (is_bound u ≡ is_bound v))
    → IsConsistent (record app { ues = put k u app.ues })
put_ue-IsConsistent k u app c named same = record {
  nodebs_named = c.nodebs_named;
  slices_named = c.slices_named;
  ues_named = λ n w h. elim (find-put-cases k n u w app.ues h) [
    | inl (here, e) ↦ ap (λ v. v.imsi) (sym e) ∙ named ∙ here
    | inr (_, old) ↦ c.ues_named n w old
  ];
  linked =
      λ n t h. All-weaken _ _ (λ x. Link-put app.ues k u n x.0 x.1 same) t.ues (c.linked n t h);
}

is_bound-named :
    (slice_name : String) (u : Ue)
    → slice_name ≢ ""
    → is_bound (record u { bound_slice = slice_name }) ≡ true
unfolding is_bound
is_bound-named slice_name u named = ground (arith, string_key.beq_iff slice_name "")

-- A name that stands for nothing changes nothing.
require-IsConsistent :
    {V : Type 0} (m : Map String V) (k message : String) (app : App) (f : V → Outcome (Unit {0}))
    → IsConsistent app
    → ((v : V) → find k m ≡ some v → IsConsistent (f v).0)
    → IsConsistent (require m k message app f).0
require-IsConsistent m k message app f c g = elim (Option-cases (find k m)) [
  | inl n ↦ rw (n, require) c
  | inr (v, y) ↦ rw (y, require) (g v y)
]

module _ (platform : Platform) where
  pub bind_slice_nodeb-IsConsistent :
      (slice_name nodeb_name : String) (app : App)
      → IsConsistent app
      → IsConsistent (bind_slice_nodeb platform slice_name nodeb_name app).0
  unfolding bind_slice_nodeb bind_slice
  bind_slice_nodeb-IsConsistent slice_name nodeb_name app c =
      require-IsConsistent app.slices slice_name _ app _ c λ s y.
        require-IsConsistent app.nodebs nodeb_name _ app _ c λ nb z.
          elim (Bool-cases (contains s.name nb.slices)) [
            | inl already ↦ rw already c
            | inr new ↦ rw new (
                put_nodeb-IsConsistent nodeb_name
                  (record nb {
                    slices = put s.name (record { name = s.name; address = s.address }) nb.slices;
                  })
                  (send_control platform (share_control s) nb.name app.e2ap) app c
                  (c.nodebs_named nodeb_name nb z))
          ]

  pub unbind_slice_nodeb-IsConsistent :
      (slice_name nodeb_name : String) (app : App)
      → IsConsistent app
      → IsConsistent (unbind_slice_nodeb platform slice_name nodeb_name app).0
  unfolding unbind_slice_nodeb unbind_slice
  unbind_slice_nodeb-IsConsistent slice_name nodeb_name app c =
      require-IsConsistent app.slices slice_name _ app _ c λ s y.
        require-IsConsistent app.nodebs nodeb_name _ app _ c λ nb z.
          elim (Bool-cases (contains slice_name nb.slices)) [
            | inr absent ↦ rw absent c
            | inl listed ↦ rw listed (
                put_nodeb-IsConsistent nodeb_name
                  (record nb { slices = erase slice_name nb.slices })
                  (send_control platform (slice_delete (slice_name ∷ [])) nb.name app.e2ap) app c
                  (c.nodebs_named nodeb_name nb z))
          ]

  -- Binding a UE to a slice keeps the database consistent, when the slice's name is not empty: the
  -- empty name marks a UE that is not bound.
  pub bind_ue_slice-IsConsistent :
      (imsi slice_name : String) (app : App)
      → slice_name ≢ ""
      → IsConsistent app
      → IsConsistent (bind_ue_slice platform imsi slice_name app).0
  unfolding bind_ue_slice bind_ue
  bind_ue_slice-IsConsistent imsi slice_name app named c =
      require-IsConsistent app.slices slice_name _ app _ c λ s y.
        require-IsConsistent app.ues imsi _ app _ c λ u z. elim (Bool-cases (is_bound u)) [
          | inl already ↦ rw already c
          | inr free ↦ elim (Bool-cases (contains u.imsi s.ues)) [
            | inl listed ↦ rw (free, listed) c
            | inr new ↦
                rw (free, new)
                  (let r : Ref = record { name = u.imsi; address = u.address } in
                    let v = record u { bound_slice = slice_name } in
                    let mid =
                      put_ue-IsConsistent imsi v app c (c.ues_named imsi u z)
                        (λ w h b. absurd (ground arith)) in
                    put_slice-IsConsistent slice_name (record s { ues = put u.imsi r s.ues })
                      (send_to_bound platform slice_name (slice_ue_bind s.name (u.imsi ∷ []))
                        app.nodebs app.e2ap)
                      (record app { ues = put imsi v app.ues }) mid (c.slices_named slice_name s y)
                      (put-All (Linked (put imsi v app.ues) slice_name) u.imsi r s.ues
                        (record {
                          target = v;
                          found = find-put_same imsi u.imsi v app.ues (sym (c.ues_named imsi u z));
                          same_name = refl;
                          same_address = refl;
                          to_slice = refl;
                          bound = is_bound-named slice_name u named;
                        })
                        (mid.linked slice_name s y)))
          ]
        ]

  -- Unbinding a UE from a slice keeps the database consistent.
  pub unbind_ue_slice-IsConsistent :
      (imsi slice_name : String) (app : App)
      → IsConsistent app
      → IsConsistent (unbind_ue_slice platform imsi slice_name app).0
  unfolding unbind_ue_slice unbind_ue
  unbind_ue_slice-IsConsistent imsi slice_name app c =
      require-IsConsistent app.slices slice_name _ app _ c λ s y.
        require-IsConsistent app.ues imsi _ app _ c λ u z. elim (Bool-cases (contains imsi s.ues)) [
          | inr absent ↦ rw absent c
          | inl listed ↦ rw listed (
              put_slice-IsConsistent slice_name (record s { ues = erase imsi s.ues })
                (send_to_bound platform slice_name (slice_ue_unbind s.name (imsi ∷ [])) app.nodebs
                  app.e2ap)
                app c (c.slices_named slice_name s y)
                (All-weaken _ _ (λ x p. p.0) (erase imsi s.ues)
                  (erase-All (Linked app.ues slice_name) imsi s.ues (c.linked slice_name s y))))
        ]
