-- ===== src/Resource/Json.antt =====
-- What the program uses of rapidjson, which is not part of the repository: a value's type tests,
-- its members and its contents. `get_string`, `get_int`, `get_uint` and `get_bool` are defined only
-- on a value of their type: on any other, rapidjson's assertion fails. The readers below say so.
use nexran.Base.{ℕ, String, Bool, if◌then◌else◌}
use nexran.Base.Int.{ℤ}
use nexran.Resource.Error.{Result, ok, fault}

pub record Json : Type 1 where
  pub Value : Type 0
  pub is_string : Value → Bool
  pub is_int : Value → Bool
  pub is_uint : Value → Bool
  pub is_float : Value → Bool
  pub is_object : Value → Bool
  pub is_array : Value → Bool
  pub is_bool : Value → Bool
  pub has_member : Value → String → Bool
  pub member : Value → String → Value
  pub get_string : Value → String
  pub get_int : Value → ℤ
  pub get_uint : Value → ℕ
  pub get_bool : Value → Bool

module _ (json : Json) where
  open json use {
    Value, is_string, is_int, is_uint, is_bool, get_string, get_int, get_uint, get_bool,
  }

  abbrev pub read_string : Value → Result String
  read_string v = if is_string v then ok (get_string v) else fault

  abbrev pub read_int : Value → Result ℤ
  read_int v = if is_int v then ok (get_int v) else fault

  abbrev pub read_uint : Value → Result ℕ
  read_uint v = if is_uint v then ok (get_uint v) else fault

  abbrev pub read_bool : Value → Result Bool
  read_bool v = if is_bool v then ok (get_bool v) else fault
