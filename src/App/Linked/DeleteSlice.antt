-- ===== src/App/Linked/DeleteSlice.antt =====
-- `del` of a slice in `App`, src/nexran.cc.
use nexran.Base.{
  ◌≡◌, ◌≢◌, refl, ◌∙◌, String, inl, inr, some, arith, string_key, Bool-cases, Option-cases, All,
  All-weaken,
}
use nexran.Base.Map.{Map, find, contains, erase, find-All}
use nexran.Resource.Error.{ok}
use nexran.Resource.Pointer.{Ref}
use nexran.Resource.Ue.{Ue, unbind_slice}
use nexran.Resource.Slice.{Slice}
use nexran.E2ap.State.{Platform}
use nexran.App.Types.{App}
use nexran.App.Store.{del_slice}
use nexran.App.Linked.{Link, Linked, Link-agree, IsConsistent, find-erase-cases}
use nexran.App.Linked.Unbind.{Unbound, unbind_all_ues_lem}

unbind_slice-imsi : (u : Ue) → (unbind_slice u).0.imsi ≡ u.imsi
unfolding unbind_slice
unbind_slice-imsi u = ground arith

-- A slice's links outlive the unbinding of another slice's UEs.
Link-Unbound :
    (ues ues' : Map String Ue) (refs : Map String Ref) (n k imsi : String) (r : Ref)
    → All (Linked ues n) refs
    → Unbound refs ues ues'
    → n ≢ k
    → Link ues k imsi r
    → Link ues' k imsi r
Link-Unbound ues ues' refs n k imsi r all eff other l =
    Link-agree ues ues' k imsi r
      (elim (Option-cases (find imsi refs)) [
        | inl n' ↦ ground (arith, eff imsi)
        | inr (q, y) ↦
            let l' = find-All (Linked ues n) refs imsi q all y in
            absurd (other (ground (arith, l.found, l'.found, l.to_slice, l'.to_slice)))
      ])
      l

ues_named-Unbound :
    (ues ues' : Map String Ue) (refs : Map String Ref)
    → Unbound refs ues ues'
    → ((n : String) (u : Ue) → find n ues ≡ some u → u.imsi ≡ n)
    → (n : String) (u : Ue) → find n ues' ≡ some u
    → u.imsi ≡ n
ues_named-Unbound ues ues' refs eff named n u h = elim (Option-cases (find n ues)) [
  | inl n' ↦ absurd (ground (arith, eff n))
  | inr (v, y) ↦ elim (Bool-cases (contains n refs)) [
    | inl c ↦
        let e : u ≡ (unbind_slice v).0 = ground (arith, eff n) in
        rw e (unbind_slice-imsi v ∙ named n v y)
    | inr c ↦ named n u (ground (arith, eff n))
  ]
]

module _ (platform : Platform) where
  -- The deletion of a slice succeeds, unbinds the UEs that the slice lists, and leaves the database
  -- consistent.
  pub del_slice_lem :
      (rname : String) (s : Slice) (app : App)
      → find rname app.slices ≡ some s
      → IsConsistent app
      → let r = del_slice platform rname s app in
        (r.1 ≡ ok tt)
        × (r.0.slices ≡ erase rname app.slices)
        × Unbound s.ues app.ues r.0.ues
        × IsConsistent r.0
  unfolding del_slice
  del_slice_lem rname s app h c =
      let (ues', y, eff) = unbind_all_ues_lem rname s.ues app.ues (c.linked rname s h) in
      rw (y, del_slice)
        (
          refl,
          refl,
          eff,
          record {
            nodebs_named = c.nodebs_named;
            slices_named =
                λ n t found. c.slices_named n t (find-erase-cases rname n t app.slices found).1;
            ues_named = ues_named-Unbound app.ues ues' s.ues eff c.ues_named;
            linked = λ k t found.
                let (other, old) = find-erase-cases rname k t app.slices found in
                All-weaken _ _
                  (λ x.
                    Link-Unbound app.ues ues' s.ues rname k x.0 x.1 (c.linked rname s h) eff other)
                  t.ues (c.linked k t old);
          },
        )
