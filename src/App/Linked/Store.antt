-- ===== src/App/Linked/Store.antt =====
-- `add` of `App`, src/nexran.cc, on a consistent database.
use nexran.Base.{
  ◌≡◌, sym, ◌∙◌, ap, inl, inr, String, [], some, arith, string_key, Bool-cases, Option-cases, All,
  All-weaken,
}
use mathlib.Core.Path.{subst}
use nexran.Base.Map.{Map, find, contains, put, erase}
use nexran.Resource.Ue.{Ue}
use nexran.Resource.Slice.{Slice}
use nexran.Resource.NodeB.{NodeB}
use nexran.E2ap.State.{Platform}
use nexran.App.Types.{App, Resource, nodeb, slice, ue}
use nexran.App.Store.{add}
use nexran.App.Linked.{Linked, Link-put, IsConsistent, find-put-cases, find-erase-cases}

-- What the handlers add is new: a slice lists no UE yet.
pub data IsNew : Resource → Type 0 where
  new_nodeb : (nb : NodeB) → IsNew (nodeb nb)
  new_slice : (s : Slice) → s.ues ≡ [] → IsNew (slice s)
  new_ue : (u : Ue) → IsNew (ue u)

-- The lookups after `put` of an object under its own name.
pub named-put :
    {V : Type 0} (name : V → String) (v : V) (m : Map String V)
    → ((n : String) (w : V) → find n m ≡ some w → name w ≡ n)
    → (n : String) (w : V) → find n (put (name v) v m) ≡ some w
    → name w ≡ n
named-put name v m named n w h = elim (find-put-cases (name v) n v w m h) [
  | inl (k, e) ↦ ap name (sym e) ∙ k
  | inr (k, old) ↦ named n w old
]

pub named-erase :
    {V : Type 0} (name : V → String) (k : String) (m : Map String V)
    → ((n : String) (w : V) → find n m ≡ some w → name w ≡ n)
    → (n : String) (w : V) → find n (erase k m) ≡ some w
    → name w ≡ n
named-erase name k m named n w h = named n w (find-erase-cases k n w m h).1

module _ (platform : Platform) where
  pub add-IsConsistent :
      (r : Resource) (app : App) → IsNew r → IsConsistent app → IsConsistent (add platform r app).0
  unfolding add
  add-IsConsistent (nodeb nb) app i c = elim (Bool-cases (contains nb.name app.nodebs)) [
    | inl y ↦ rw y c
    | inr n ↦ rw n (record {
      nodebs_named = named-put (λ v. v.name) nb app.nodebs c.nodebs_named;
      slices_named = c.slices_named;
      ues_named = c.ues_named;
      linked = c.linked;
    })
  ]
  add-IsConsistent (slice s) app (new_slice _ e) c =
      elim (Bool-cases (contains s.name app.slices)) [
        | inl y ↦ rw y c
        | inr n ↦ rw n (record {
          nodebs_named = c.nodebs_named;
          slices_named = named-put (λ v. v.name) s app.slices c.slices_named;
          ues_named = c.ues_named;
          linked = λ k t h. elim (find-put-cases s.name k s t app.slices h) [
            | inl (_, same) ↦ subst (λ w. All (Linked app.ues k) w.ues) same (rw e tt)
            | inr (_, old) ↦ c.linked k t old
          ];
        })
      ]
  add-IsConsistent (ue u) app i c = elim (Option-cases (find u.imsi app.ues)) [
    | inr (v, y) ↦ rw y c
    | inl n ↦ rw n (record {
      nodebs_named = c.nodebs_named;
      slices_named = c.slices_named;
      ues_named = named-put (λ v. v.imsi) u app.ues c.ues_named;
      linked = λ k t h.
          All-weaken _ _
            (λ x. Link-put app.ues u.imsi u k x.0 x.1 (λ v absent b. absurd (ground arith))) t.ues
            (c.linked k t h);
    })
  ]
