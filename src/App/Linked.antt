-- ===== src/App/Linked.antt =====
-- The pointers of `App::db`: when no `Ue *` that a slice keeps dangles, and the lemmas on links that
-- the proofs about the operations share.
pub mod Unbind
pub mod Store
pub mod Delete
pub mod DeleteSlice
pub mod Bind
pub mod Update
use nexran.Base.{
  ◌≡◌, ◌≢◌, refl, sym, ◌∙◌, ap, ◌⊎◌, inl, inr, String, Bool, true, false, List, [], ◌∷◌, Option,
  none, some, arith, if◌then◌else◌, ◌==◌, string_key, Bool-cases, All,
}
use nexran.Base.Map.{Map, find, put, erase, find-put, find-erase}
use nexran.Resource.Pointer.{Ref}
use nexran.Resource.Ue.{Ue, is_bound}
use nexran.Resource.Slice.{Slice}
use nexran.Resource.NodeB.{NodeB}
use nexran.App.Types.{App}
use nexran.E2ap.State.{E2ap}
use mathlib.Core.Path.{subst₂}

-- An entry `imsi ↦ r` of the UEs of slice `n`: `r` is the UE `imsi` of the database, and that UE is
-- bound to `n`.
pub record Link (ues : Map String Ue) (n imsi : String) (r : Ref) : Type 0 where
  pub target : Ue
  pub found : find imsi ues ≡ some target
  pub same_name : r.name ≡ imsi
  pub same_address : target.address ≡ r.address
  pub to_slice : target.bound_slice ≡ n
  pub bound : is_bound target ≡ true

abbrev pub Linked : Map String Ue → String → String × Ref → Type 0
Linked ues n (imsi, r) = Link ues n imsi r

-- Each object stands under its own name, and every entry of every slice is linked.
pub record IsConsistent (app : App) : Type 0 where
  pub nodebs_named : (n : String) (nb : NodeB) → find n app.nodebs ≡ some nb → nb.name ≡ n
  pub slices_named : (n : String) (s : Slice) → find n app.slices ≡ some s → s.name ≡ n
  pub ues_named : (n : String) (u : Ue) → find n app.ues ≡ some u → u.imsi ≡ n
  pub linked : (n : String) (s : Slice) → find n app.slices ≡ some s → All (Linked app.ues n) s.ues

-- A link needs no more of the UEs than the one that it names.
pub Link-agree :
    (ues ues' : Map String Ue) (n imsi : String) (r : Ref)
    → find imsi ues' ≡ find imsi ues
    → Link ues n imsi r
    → Link ues' n imsi r
Link-agree ues ues' n imsi r h l = record {
  target = l.target;
  found = h ∙ l.found;
  same_name = l.same_name;
  same_address = l.same_address;
  to_slice = l.to_slice;
  bound = l.bound;
}

-- Neither putting a new UE in nor a change that keeps a bound UE's address and slice breaks a link.
pub Link-put :
    (ues : Map String Ue) (k : String) (u : Ue) (n imsi : String) (r : Ref)
    → ((v : Ue)
        → find k ues ≡ some v
        → is_bound v ≡ true
        → (u.address ≡ v.address) × (u.bound_slice ≡ v.bound_slice) × (is_bound u ≡ is_bound v))
    → Link ues n imsi r
    → Link (put k u ues) n imsi r
Link-put ues k u n imsi r same l = elim (Bool-cases (k == imsi)) [
  | inr n' ↦ Link-agree ues (put k u ues) n imsi r (ground (arith, find-put k imsi u ues)) l
  | inl y ↦
      let e : k ≡ imsi = (string_key.beq_iff k imsi).0 y in
      let s = same l.target (rw e l.found) l.bound in
      record {
        target = u;
        found = ground (arith, find-put k imsi u ues);
        same_name = l.same_name;
        same_address = s.0 ∙ l.same_address;
        to_slice = s.1 ∙ l.to_slice;
        bound = s.2 ∙ l.bound;
      }
]

module _ {V : Type 0} where
  -- What a lookup after `put` finds is the new value, or what was there.
  pub find-put-cases :
      (k j : String) (v w : V) (m : Map String V)
      → find j (put k v m) ≡ some w
      → ((k ≡ j) × (v ≡ w)) ⊎ ((k ≢ j) × (find j m ≡ some w))
  find-put-cases k j v w m h = elim (Bool-cases (k == j)) [
    | inl y ↦ inl ((string_key.beq_iff k j).0 y, ground (arith, find-put k j v m))
    | inr n ↦ inr (λ e. ground (arith, string_key.beq_iff k j), ground (arith, find-put k j v m))
  ]

  pub find-erase-cases :
      (k j : String) (w : V) (m : Map String V)
      → find j (erase k m) ≡ some w
      → (k ≢ j) × (find j m ≡ some w)
  find-erase-cases k j w m h = (
    λ e. ground (arith, find-erase k j m, string_key.beq_iff k j),
    ground (arith, find-erase k j m),
  )

-- A slice may be replaced by one whose entries are linked.
pub put_slice-IsConsistent :
    (k : String) (s : Slice) (e : E2ap) (app : App)
    → IsConsistent app
    → s.name ≡ k
    → All (Linked app.ues k) s.ues
    → IsConsistent (record app { slices = put k s app.slices; e2ap = e })
put_slice-IsConsistent k s e app c named all = record {
  nodebs_named = c.nodebs_named;
  slices_named = λ n t h. elim (find-put-cases k n s t app.slices h) [
    | inl (here, same) ↦ ap (λ w. w.name) (sym same) ∙ named ∙ here
    | inr (_, old) ↦ c.slices_named n t old
  ];
  ues_named = c.ues_named;
  linked = λ n t h. elim (find-put-cases k n s t app.slices h) [
    | inl (here, same) ↦ subst₂ (λ i w. All (Linked app.ues i) w.ues) here same all
    | inr (_, old) ↦ c.linked n t old
  ];
}
