-- ===== src/E2ap/State.antt =====
-- The class `E2AP`: its tables, what it sends and how it looks requests up. Each method holds the
-- mutex over what it does with the tables, so a method is one step.
pub mod Sends
pub mod Deletes
pub mod Posts
pub mod Carries
pub mod Entries
use Prim.Native.Nat.{bit_xor}
use nexran.Base.{
  ℕ, suc, ◌+◌, ◌-◌, ◌^◌, ◌%◌, String, Bool, true, false, not, ◌&&◌, List, [], ◌∷◌, ◌++◌, Option,
  none, some, if◌then◌else◌, ltb, ◌==◌, string_key,
}
use Prim.Native.String.{◌++◌ as append}
use nexran.Base.Int.{ℤ, pos, negsuc, minus_one, int_key}
use nexran.Base.Map.{Map, find, contains, put, erase}
use nexran.Base.Text.{to_string}
use nexran.E2sm.Types.{Bytes}
use nexran.E2ap.Types.{
  ControlRequest, AckRequest, no_ack, ack, nack, SubscriptionRequest, SubscriptionDeleteRequest,
  SubscriptionResponse,
}
use nexran.E2ap.Encode.{PduCodec, encode_control, encode_subscription, encode_subscription_delete}

-- The RMR message types of the requests.
pub data MessageType : Type 0 where
  control_req sub_req sub_del_req : MessageType

pub record Message : Type 0 where
  pub mtype : MessageType
  pub subid : ℤ
  pub meid : String
  pub xid : String
  pub payload : Bytes

pub data Request : Type 0 where
  control : ControlRequest → Request
  subscribe : SubscriptionRequest → Request
  unsubscribe : SubscriptionDeleteRequest → Request

-- A message that was handed to `send_message`, with the request that it carries.
pub record Sent : Type 0 where
  pub request : Request
  pub message : Message

-- What the class does not implement: the codec, `send_message` (which is RMR's), and `std::hash`.
pub record Platform : Type 0 where
  pub codec : PduCodec
  pub send_message : Message → Bool
  pub hash : String → ℕ

-- `outbox` is what was handed to `send_message`, in order.
pub record E2ap : Type 0 where
  pub requestor_id : ℤ
  pub next_instance_id : ℕ
  pub controls : Map ℤ ControlRequest
  pub pending_subscriptions : Map String SubscriptionRequest
  pub subscriptions : Map ℤ SubscriptionResponse
  pub pending_deletes : Map String SubscriptionDeleteRequest
  pub outbox : List Sent

unfoldable pub new_e2ap : E2ap
new_e2ap = record {
  requestor_id = pos 123;
  next_instance_id = 1;
  controls = [];
  pending_subscriptions = [];
  subscriptions = [];
  pending_deletes = [];
  outbox = [];
}

unfoldable pub get_next_instance_id : E2ap → E2ap × ℤ
get_next_instance_id e =
    (record e { next_instance_id = suc e.next_instance_id }, pos e.next_instance_id)

-- The conversion to `int` keeps the low 32 bits.
abbrev pub to_int32 : ℕ → ℤ
to_int32 n =
    if ltb (n % 2 ^ 32) (2 ^ 31) then pos (n % 2 ^ 32) else negsuc (2 ^ 32 - 1 - n % 2 ^ 32)

unfoldable pub req_to_xid : ℤ → ℤ → String
req_to_xid req_id inst_id = append (append (to_string req_id) ".") (to_string inst_id)

abbrev pub post : Sent → E2ap → E2ap
post s e = record e { outbox = e.outbox ++ s ∷ [] }

abbrev pub wants_ack : AckRequest → Bool
wants_ack no_ack = false
wants_ack ack = true
wants_ack nack = false

module _ (platform : Platform) where
  open platform use {codec, send_message, hash}

  unfoldable pub req_to_subid : ℤ → ℤ → ℤ
  req_to_subid req_id inst_id =
      to_int32 (bit_xor (hash (to_string req_id)) (hash (to_string inst_id)))

  abbrev pub control_sent : ControlRequest → String → Bytes → Sent
  control_sent req meid payload = record {
    request = control req;
    message = record {
      mtype = control_req;
      subid = req_to_subid req.requestor_id req.instance_id;
      meid = meid;
      xid = "";
      payload = payload;
    };
  }

  -- From the registration of the request on.
  unfoldable pub transmit_control : ControlRequest → String → Bytes → E2ap → E2ap × Bool
  transmit_control req meid payload e =
      let sent = control_sent req meid payload in
      let r = send_message sent.message in
      let e1 = post sent e in
      if not r && wants_ack req.ack_request
      then (record e1 { controls = erase req.instance_id e1.controls }, r)
      else (e1, r)

  unfoldable pub send_control_request : ControlRequest → String → E2ap → E2ap × Bool
  unfolding transmit_control
  send_control_request req meid e = elim (encode_control codec req) [
    | none ↦ (e, false)
    | some payload ↦
        if wants_ack req.ack_request
        then (if contains req.instance_id e.controls
            then (e, false)
            else transmit_control req meid payload
                (record e { controls = put req.instance_id req e.controls }))
        else transmit_control req meid payload e
  ]

  abbrev pub subscribe_sent : SubscriptionRequest → String → Bytes → Sent
  subscribe_sent req meid payload = record {
    request = subscribe req;
    message = record {
      mtype = sub_req;
      subid = minus_one;
      meid = meid;
      xid = req_to_xid req.requestor_id req.instance_id;
      payload = payload;
    };
  }

  unfoldable pub send_subscription_request : SubscriptionRequest → String → E2ap → E2ap × Bool
  send_subscription_request req meid e = elim (encode_subscription codec req) [
    | none ↦ (e, false)
    | some payload ↦
        let xid = req_to_xid req.requestor_id req.instance_id in
        if contains xid e.pending_subscriptions
        then (e, false)
        else let sent = subscribe_sent req meid payload in
          let e1 =
            post sent (record e { pending_subscriptions = put xid req e.pending_subscriptions }) in
          if send_message sent.message
          then (e1, true)
          else (record e1 { pending_subscriptions = erase xid e1.pending_subscriptions }, false)
  ]

  abbrev pub unsubscribe_sent : SubscriptionDeleteRequest → String → Bytes → Sent
  unsubscribe_sent req meid payload = record {
    request = unsubscribe req;
    message = record {
      mtype = sub_del_req;
      subid = req_to_subid req.requestor_id req.instance_id;
      meid = meid;
      xid = req_to_xid req.requestor_id req.instance_id;
      payload = payload;
    };
  }

  -- `_send_subscription_delete_request`; whether the caller holds the lock makes no difference here.
  unfoldable pub send_subscription_delete_request :
      SubscriptionDeleteRequest → String → E2ap → E2ap × Bool
  send_subscription_delete_request req meid e = elim (encode_subscription_delete codec req) [
    | none ↦ (e, false)
    | some payload ↦
        let xid = req_to_xid req.requestor_id req.instance_id in
        if contains xid e.pending_deletes
        then (e, false)
        else let sent = unsubscribe_sent req meid payload in
          let e1 = post sent (record e { pending_deletes = put xid req e.pending_deletes }) in
          if send_message sent.message
          then (e1, true)
          else (record e1 { pending_deletes = erase xid e1.pending_deletes }, false)
  ]

  -- The request that `delete_all_subscriptions` makes from a response.
  abbrev pub delete_request : String → SubscriptionResponse → SubscriptionDeleteRequest
  delete_request meid resp = record {
    requestor_id = resp.requestor_id;
    instance_id = resp.instance_id;
    function_id = resp.function_id;
    meid = meid;
  }

  unfoldable pub delete_subscriptions : String → Map ℤ SubscriptionResponse → E2ap → E2ap
  delete_subscriptions meid [] e = e
  delete_subscriptions meid ((subid, resp) ∷ rest) e = delete_subscriptions meid rest (
      if not (resp.req.meid == meid)
      then e
      else (send_subscription_delete_request (delete_request meid resp) meid e).0)

  unfoldable pub delete_all_subscriptions : String → E2ap → E2ap
  unfolding delete_subscriptions
  delete_all_subscriptions meid e = delete_subscriptions meid e.subscriptions e

unfoldable pub lookup_pending_subscription : String → E2ap → Option SubscriptionRequest
lookup_pending_subscription xid e = find xid e.pending_subscriptions

unfoldable pub lookup_subscription : ℤ → E2ap → Option SubscriptionResponse
lookup_subscription subid e = find subid e.subscriptions

unfoldable pub lookup_pending_subscription_delete : String → E2ap → Option SubscriptionDeleteRequest
lookup_pending_subscription_delete xid e = find xid e.pending_deletes

unfoldable pub lookup_control : ℤ → ℤ → E2ap → Option ControlRequest
lookup_control requestor_id instance_id e = find instance_id e.controls
