-- ===== src/Base/Map.antt =====
-- `std::map`: an association list in the order of its keys, which is the order of iteration.
-- `find` is m.find / m[k] on a present key, `put` is m[k] = v, `erase` is m.erase(k), and
-- `contains` is m.count(k) > 0.
use nexran.Base.Lists.{All, All-if}
use mathlib.Core.Path.{subst₂}
use mathlib.Core.Logic.{◌≢◌, inl, inr}
use nexran.Base.Tests.{Bool-cases, if◌then◌else◌, is_some}
use nexran.Base.Keys.{Key, ◌==◌}
use mathlib.Core.Path.{◌≡◌, refl, ap}
use mathlib.Core.Bool.{Bool, true, not, ◌&&◌}
use mathlib.Core.Option
use mathlib.Core.Option.{Option, none, some}
use mathlib.Core.List.{List, [], ◌∷◌}
use native.Mathlib.Omega.{arith}

abbrev pub Map {ℓ κ} : Type ℓ → Type κ → Type (ℓ ⊔ κ)
Map K V = List (K × V)

module _ {ℓ κ} {K : Type ℓ} {V : Type κ} ⦃key : Key K⦄ where
  unfoldable pub find : K → Map K V → Option V
  find k [] = none
  find k ((j, v) ∷ m) = if j == k then some v else find k m

  abbrev pub contains : K → Map K V → Bool
  contains k m = is_some (find k m)

  -- A key that is there keeps its place; in the order of the keys it does not come after a greater one.
  unfoldable pub put : K → V → Map K V → Map K V
  put k v [] = (k, v) ∷ []
  put k v ((j, w) ∷ m) =
      if j == k
      then (k, v) ∷ m
      else if key.before k j && not (contains k m)
      then (k, v) ∷ (j, w) ∷ m
      else (j, w) ∷ put k v m

  unfoldable pub erase : K → Map K V → Map K V
  erase k [] = []
  erase k ((j, w) ∷ m) = let rest = erase k m in if j == k then rest else (j, w) ∷ rest

  pub find-put :
      (k j : K) (v : V) (m : Map K V) → find j (put k v m) ≡ (if k == j then some v else find j m)
  unfolding find put
  find-put k j v [] = refl
  find-put k j v ((i, w) ∷ m) =
      ground (arith, key.beq_iff k j, key.beq_iff i k, key.beq_iff i j, find-put k j v m)

  pub find-erase :
      (k j : K) (m : Map K V) → find j (erase k m) ≡ (if k == j then none else find j m)
  unfolding find erase
  find-erase k j [] = ground arith
  find-erase k j ((i, w) ∷ m) =
      ground (arith, find-erase k j m, key.beq_iff i k, key.beq_iff i j, key.beq_iff k j)

pub beq_refl {ℓ} : {K : Type ℓ} ⦃key : Key K⦄ (k : K) → (k == k) ≡ true
beq_refl ⦃key⦄ k = (key.beq_iff k k).1 refl

-- What holds of every entry holds of the one that is found.
pub find-All {ℓ κ μ} :
    {K : Type ℓ} {V : Type κ} ⦃key : Key K⦄ (P : K × V → Type μ) (m : Map K V) (k : K) (v : V)
    → All P m
    → find k m ≡ some v
    → P (k, v)
unfolding find
find-All P [] k v a h = cc
find-All ⦃key⦄ P ((j, w) ∷ m) k v a h = elim (Bool-cases (j == k)) [
  | inl y ↦ subst₂ (λ i u. P (i, u)) ((key.beq_iff j k).0 y) (ground arith) a.0
  | inr n ↦ find-All P m k v a.1 (ground arith)
]

pub put-All {ℓ κ μ} :
    {K : Type ℓ} {V : Type κ} ⦃key : Key K⦄ (P : K × V → Type μ) (k : K) (v : V) (m : Map K V)
    → P (k, v)
    → All P m
    → All P (put k v m)
unfolding put
put-All P k v [] p a = (p, tt)
put-All ⦃key⦄ P k v ((j, w) ∷ m) p a =
    All-if _ _ _ (j == k) (λ y. (p, a.1))
      (λ n.
        All-if _ _ _ (key.before k j && not (contains k m)) (λ y. (p, a))
          (λ n'. (a.0, put-All P k v m p a.1)))

-- What is left after `erase` has other keys.
pub erase-All {ℓ κ μ} :
    {K : Type ℓ} {V : Type κ} ⦃key : Key K⦄ (P : K × V → Type μ) (k : K) (m : Map K V)
    → All P m
    → All (λ x. P x × (x.0 ≢ k)) (erase k m)
unfolding erase
erase-All P k [] a = tt
erase-All ⦃key⦄ P k ((j, w) ∷ m) a =
    All-if _ _ _ (j == k) (λ y. erase-All P k m a.1)
      (λ n. ((a.0, λ e. ground (arith, key.beq_iff j k)), erase-All P k m a.1))

pub find-put_same {ℓ κ} :
    {K : Type ℓ} {V : Type κ} ⦃key : Key K⦄ (k j : K) (v : V) (m : Map K V)
    → k ≡ j
    → find j (put k v m) ≡ some v
find-put_same ⦃key⦄ k j v m e = ground (arith, find-put k j v m, key.beq_iff k j)

-- A change of every value, which keeps the keys.
abbrev pub map_values {ℓ κ} : {K : Type ℓ} {V : Type κ} → (V → V) → Map K V → Map K V
map_values f [] = []
map_values f ((k, v) ∷ m) = (k, f v) ∷ map_values f m

pub find-map_values {ℓ κ} :
    {K : Type ℓ} {V : Type κ} ⦃key : Key K⦄ (f : V → V) (k : K) (m : Map K V)
    → find k (map_values f m) ≡ Option.map f (find k m)
unfolding find
find-map_values f k [] = refl
find-map_values f k ((j, v) ∷ m) = ground (arith, find-map_values f k m)

pub map_values-map_values {ℓ κ} :
    {K : Type ℓ} {V : Type κ} (f g : V → V) (m : Map K V)
    → map_values g (map_values f m) ≡ map_values (λ v. g (f v)) m
map_values-map_values f g [] = refl
map_values-map_values f g ((k, v) ∷ m) = ap (λ l. (k, g (f v)) ∷ l) (map_values-map_values f g m)

pub map_values-id {ℓ κ} : {K : Type ℓ} {V : Type κ} (m : Map K V) → map_values (λ v. v) m ≡ m
map_values-id [] = refl
map_values-id ((k, v) ∷ m) = ap (λ l. (k, v) ∷ l) (map_values-id m)
