-- ===== src/Resource/Pointer.antt =====
-- A `Ue *` or `Slice *` kept outside `App::db`. Every live object stands in `db` under its own name,
-- so a pointer is the name and the address of its object: it dangles when `db` holds no object of
-- that name at that address.
use nexran.Base.{ℕ, String}

pub record Ref : Type 0 where
  pub name : String
  pub address : ℕ
