-- ===== src/Base/Keys.antt =====
-- Keys of `std::map`: a type with a decided equality and the strict order that the map sorts by.
use Prim.Native.Nat.{ℕ, Ordering}
use Prim.Native.String.{String, compare}
use mathlib.Core.Path.{◌≡◌}
use mathlib.Core.Logic.{◌↔◌}
use mathlib.Core.Bool.{Bool, true, false}
use text.Mathlib.Text.{◌==◌ as str_eq}
use text.Mathlib.TextEquality.{eq_iff}
use nexran.Base.Tests.{ltb, nat_beq, nat_beq_iff}

pub record Key {ℓ} (A : Type ℓ) : Type ℓ where
  pub beq : A → A → Bool
  pub beq_iff : (a b : A) → (beq a b ≡ true) ↔ (a ≡ b)
  pub before : A → A → Bool

infix 50 ◌==◌
abbrev pub ◌==◌ {ℓ} : {A : Type ℓ} ⦃k : Key A⦄ → A → A → Bool
◌==◌ ⦃k⦄ = k.beq

-- `std::string` compares by bytes, as the native texts do.
abbrev pub str_before : String → String → Bool
str_before s t = elim (compare s t) [ Ordering.lt ↦ true | _ ↦ false ]

instance abbrev pub nat_key : Key ℕ
nat_key = record { beq = nat_beq; beq_iff = nat_beq_iff; before = ltb }

instance abbrev pub string_key : Key String
string_key = record { beq = str_eq; beq_iff = eq_iff; before = str_before }
