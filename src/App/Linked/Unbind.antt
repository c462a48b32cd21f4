-- ===== src/App/Linked/Unbind.antt =====
-- `Slice::unbind_all_ues` of include/nexran.h on linked entries.
use nexran.Base.{
  ◌≡◌, refl, String, inl, inr, [], ◌∷◌, some, arith, if◌then◌else◌, ◌==◌, string_key, Bool-cases,
  All, All-weaken,
}
use mathlib.Core.Option.{map as map_option}
use nexran.Base.Map.{Map, find, contains, put, find-put}
use nexran.Resource.Error.{ok}
use nexran.Resource.Pointer.{Ref}
use nexran.Resource.Ue.{Ue, unbind_slice}
use nexran.App.Store.{unbind_through, unbind_all_ues}
use nexran.App.Linked.{Link, Linked}

-- The pointer `r`, kept under `imsi`, is a UE of the database.
pub record Live (ues : Map String Ue) (imsi : String) (r : Ref) : Type 0 where
  pub target : Ue
  pub found : find imsi ues ≡ some target
  pub same_name : r.name ≡ imsi
  pub same_address : target.address ≡ r.address

pub Link-Live :
    (ues : Map String Ue) (n imsi : String) (r : Ref) → Link ues n imsi r → Live ues imsi r
Link-Live ues n imsi r l = record {
  target = l.target;
  found = l.found;
  same_name = l.same_name;
  same_address = l.same_address;
}

unbind_through-Live :
    (ues : Map String Ue) (imsi : String) (r : Ref) (l : Live ues imsi r)
    → unbind_through r ues ≡ ok (put imsi (unbind_slice l.target).0 ues)
unfolding unbind_through
unbind_through-Live ues imsi r l = ground (arith, l.found, l.same_name, l.same_address)

Live-unbind :
    (ues : Map String Ue) (k : String) (u : Ue) (imsi : String) (r : Ref)
    → find k ues ≡ some u
    → Live ues imsi r
    → Live (put k (unbind_slice u).0 ues) imsi r
unfolding unbind_slice
Live-unbind ues k u imsi r h l = elim (Bool-cases (k == imsi)) [
  | inl y ↦ record {
    target = (unbind_slice u).0;
    found = ground (arith, find-put k imsi (unbind_slice u).0 ues);
    same_name = l.same_name;
    same_address = ground (arith, string_key.beq_iff k imsi, l.found, l.same_address);
  }
  | inr n ↦ record {
    target = l.target;
    found = ground (arith, find-put k imsi (unbind_slice u).0 ues, l.found);
    same_name = l.same_name;
    same_address = l.same_address;
  }
]

-- The UEs after a run over `refs`.
abbrev pub Unbound : Map String Ref → Map String Ue → Map String Ue → Type 0
Unbound refs ues ues' =
    (j : String)
    → find j ues'
      ≡ (if contains j refs then map_option (λ u. (unbind_slice u).0) (find j ues) else find j ues)

unbind_all_ues-Live :
    (refs : Map String Ref) (ues : Map String Ue)
    → All (λ x. Live ues x.0 x.1) refs
    → (ues' : Map String Ue) × (unbind_all_ues refs ues ≡ ok ues') × Unbound refs ues ues'
unfolding unbind_all_ues find unbind_slice
unbind_all_ues-Live [] ues a = (ues, refl, λ j. refl)
unbind_all_ues-Live ((imsi, r) ∷ rest) ues (l, a) =
    let mid = put imsi (unbind_slice l.target).0 ues in
    let go =
      unbind_all_ues-Live rest mid
        (All-weaken _ _ (λ x v. Live-unbind ues imsi l.target x.0 x.1 l.found v) rest a) in
    (
      go.0,
      ground (arith, unbind_through-Live ues imsi r l, go.1),
      λ j. ground (
        arith,
        go.2 j,
        find-put imsi j (unbind_slice l.target).0 ues,
        l.found,
        string_key.beq_iff imsi j,
      ),
    )

-- If every entry of the slice is linked, then no pointer of the loop dangles, and afterwards
-- exactly the UEs that the slice lists are unbound.
pub unbind_all_ues_lem :
    (n : String) (refs : Map String Ref) (ues : Map String Ue)
    → All (Linked ues n) refs
    → (ues' : Map String Ue) × (unbind_all_ues refs ues ≡ ok ues') × Unbound refs ues ues'
unbind_all_ues_lem n refs ues a =
    unbind_all_ues-Live refs ues (All-weaken _ _ (λ x. Link-Live ues n x.0 x.1) refs a)
