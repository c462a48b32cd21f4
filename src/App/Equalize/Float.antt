-- ===== src/App/Equalize/Float.antt =====
-- The single precision arithmetic that src/nexran.cc uses: what the machine computes is a parameter.
use nexran.Base.{ℕ, Bool}
use nexran.Base.Int.{ℤ}

pub record FloatOps : Type 1 where
  pub Float : Type 0
  -- The conversions from `int` and from `uint64_t`.
  pub of_int : ℤ → Float
  pub of_u64 : ℕ → Float
  pub add : Float → Float → Float
  pub sub : Float → Float → Float
  pub mul : Float → Float → Float
  pub div : Float → Float → Float
  pub less : Float → Float → Bool
  pub equal : Float → Float → Bool
  -- The conversions to `int` and to `uint64_t`.
  pub to_int : Float → ℤ
  pub to_word : Float → ℕ
  -- The literals 0.0f, 0.15f, 0.05f and -0.05f.
  pub zero : Float
  pub c15 : Float
  pub c05 : Float
  pub minus_c05 : Float
