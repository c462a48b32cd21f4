-- ===== src/App/Rmr.antt =====
-- `App::send_message` of src/nexran.cc: how a message is put into an RMR buffer.
use nexran.Base.{
  ℕ, String, Option, none, some, if◌then◌else◌, length, take, take_all, ltb, ◌≡◌, ◌≤◌, ◌==◌,
  string_key, ◌∙◌, ap, arith,
}
use nexran.Base.Int.{ℤ}
use nexran.E2sm.Types.{Bytes}
use nexran.E2ap.State.{Message, MessageType}

pub record RmrMessage : Type 0 where
  pub mtype : MessageType
  pub subid : ℤ
  pub len : ℕ
  pub payload : Bytes
  pub meid : String
  pub xact : Option String

-- `available` is the size of the buffer that RMR gives. The length is that of the payload, also where
-- less is copied.
unfoldable pub fill_message : ℕ → Message → RmrMessage
fill_message available m = record {
  mtype = m.mtype;
  subid = m.subid;
  len = length m.payload;
  payload =
      take (if ltb available (length m.payload) then available else length m.payload) m.payload;
  meid = m.meid;
  xact = if m.xid == "" then none else some m.xid;
}

-- In a buffer that is large enough the message is whole.
pub fill_message-payload :
    (available : ℕ) (m : Message)
    → length m.payload ≤ available
    → (fill_message available m).payload ≡ m.payload
unfolding fill_message
fill_message-payload available m h =
    let fits : (if ltb available (length m.payload) then available else length m.payload)
        ≡ length m.payload =
      ground arith in
    ap (λ n. take n m.payload) fits ∙ take_all (length m.payload) m.payload (omega arith)
