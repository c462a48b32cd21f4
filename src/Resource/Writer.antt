-- ===== src/Resource/Writer.antt =====
-- The calls that the program makes on a rapidjson `Writer`, in order.
use nexran.Base.{ℕ, String, Bool, List, [], ◌∷◌}
use nexran.Base.Map.{Map}
use nexran.Base.Int.{ℤ}

pub data Token : Type 0 where
  start_object end_object start_array end_array : Token
  str : String → Token
  int : ℤ → Token
  uint : ℕ → Token
  bool : Bool → Token

-- The keys of a map, in order.
unfoldable pub key_tokens {ℓ} : {V : Type ℓ} → Map String V → List Token
key_tokens [] = []
key_tokens ((k, v) ∷ m) = str k ∷ key_tokens m
