-- ===== src/E2ap/Handle.antt =====
-- `decode_pdu` and `E2AP::handle_message` of lib/e2ap/src/e2ap.cc. A message that is taken becomes an
-- event, which the agent interface then handles.
pub mod Lifecycle
pub mod Entries
use nexran.Base.{ℕ, String, Bool, true, false, List, [], Option, none, some, if◌then◌else◌}
use nexran.Base.Int.{ℤ, int_key}
use nexran.Base.{string_key}
use nexran.Base.Map.{put, erase}
use nexran.E2sm.Types.{Bytes, SliceStatus}
use nexran.E2ap.Types.{
  ControlRequest, ControlAck, ControlFailure, ErrorIndication, SubscriptionRequest,
  SubscriptionResponse, SubscriptionFailure, SubscriptionDeleteResponse, SubscriptionDeleteFailure,
  Procedure, Ie, Pdu, initiating, successful, unsuccessful, absent,
}
use nexran.E2ap.State.{E2ap}
use nexran.E2ap.Decode.{
  Indication, decode_control_ack, decode_control_failure, decode_indication,
  decode_error_indication, decode_subscription_response, decode_subscription_failure,
  decode_subscription_delete_response, decode_subscription_delete_failure,
}

-- The calls of `agent_if->handle`.
pub data Event (Model : Type 0) : Type 0 where
  subscribed : SubscriptionResponse → Event Model
  subscription_failed : SubscriptionFailure → Event Model
  unsubscribed : SubscriptionDeleteResponse → Event Model
  unsubscription_failed : SubscriptionDeleteFailure → Event Model
  acknowledged : ControlAck → Event Model
  control_failed : ControlFailure → Event Model
  indicated : Indication Model → Event Model
  error_indicated : ErrorIndication → Event Model

-- Which procedures `decode_pdu` accepts in each kind of message.
unfoldable pub is_known_initiating : Procedure → Bool
is_known_initiating Procedure.reset = true
is_known_initiating Procedure.subscription = true
is_known_initiating Procedure.subscription_delete = true
is_known_initiating Procedure.control = true
is_known_initiating Procedure.service_query = true
is_known_initiating Procedure.indication = true
is_known_initiating Procedure.error_indication = true
is_known_initiating _ = false

unfoldable pub is_known_successful : Procedure → Bool
is_known_successful Procedure.e2_setup = true
is_known_successful Procedure.reset = true
is_known_successful Procedure.service_update = true
is_known_successful Procedure.subscription = true
is_known_successful Procedure.subscription_delete = true
is_known_successful Procedure.control = true
is_known_successful _ = false

unfoldable pub is_known_unsuccessful : Procedure → Bool
is_known_unsuccessful Procedure.e2_setup = true
is_known_unsuccessful Procedure.service_update = true
is_known_unsuccessful Procedure.subscription = true
is_known_unsuccessful Procedure.subscription_delete = true
is_known_unsuccessful Procedure.control = true
is_known_unsuccessful _ = false

unfoldable pub is_known : Pdu → Bool
unfolding is_known_initiating is_known_successful is_known_unsuccessful
is_known (initiating p ies) = is_known_initiating p
is_known (successful p ies) = is_known_successful p
is_known (unsuccessful p ies) = is_known_unsuccessful p
is_known absent = false

-- `decode_pdu`: `aper_decode` is asn1c's.
unfoldable pub decode_pdu : (Bytes → Option Pdu) → Bytes → Option Pdu
unfolding is_known
decode_pdu aper_decode buf = elim (aper_decode buf) [
  | none ↦ none
  | some pdu ↦ if is_known pdu then some pdu else none
]

-- `if (ack->req != NULL) controls.erase(ack->req->instance_id);`
unfoldable pub erase_control : Option ControlRequest → E2ap → E2ap
erase_control none e = e
erase_control (some req) e = record e { controls = erase req.instance_id e.controls }

abbrev pub on {ℓ κ} : {A : Type ℓ} {B : Type κ} → Option A → B → (A → B) → B
on none b f = b
on (some a) b f = f a

-- The decoders of the service models, parameters here.
pub record Models (Model : Type 0) : Type 0 where
  pub decode_outcome : Bytes → Option (List SliceStatus)
  pub decode_failure_outcome : Bytes → Option (List SliceStatus)
  pub decode_indication : SubscriptionRequest → Bytes → Bytes → Option Model

module _ {Model : Type 0} (models : Models Model) where
  unfoldable pub handle_initiating : Procedure → List Ie → ℤ → E2ap → E2ap × Option (Event Model)
  handle_initiating Procedure.indication ies subid e =
      on (decode_indication models.decode_indication e subid ies) (e, none)
        (λ ind. (e, some (indicated ind)))
  handle_initiating Procedure.error_indication ies subid e =
      (e, some (error_indicated (decode_error_indication ies)))
  handle_initiating _ ies subid e = (e, none)

  unfoldable pub handle_successful :
      Procedure → List Ie → ℤ → String → E2ap → E2ap × Option (Event Model)
  unfolding erase_control
  handle_successful Procedure.subscription ies subid xid e =
      on (decode_subscription_response e xid ies) (e, none)
        (λ resp. (
          record e {
            subscriptions = put subid resp e.subscriptions;
            pending_subscriptions = erase xid e.pending_subscriptions;
          },
          some (subscribed resp),
        ))
  handle_successful Procedure.subscription_delete ies subid xid e =
      on (decode_subscription_delete_response e xid ies) (e, none)
        (λ resp. (
          record e {
            subscriptions = erase subid e.subscriptions;
            pending_deletes = erase xid e.pending_deletes;
          },
          some (unsubscribed resp),
        ))
  handle_successful Procedure.control ies subid xid e =
      on (decode_control_ack models.decode_outcome e ies) (e, none)
        (λ ack. (erase_control ack.req e, some (acknowledged ack)))
  handle_successful _ ies subid xid e = (e, none)

  unfoldable pub handle_unsuccessful :
      Procedure → List Ie → String → E2ap → E2ap × Option (Event Model)
  unfolding erase_control
  handle_unsuccessful Procedure.subscription ies xid e =
      on (decode_subscription_failure e xid ies) (e, none)
        (λ resp. (e, some (subscription_failed resp)))
  handle_unsuccessful Procedure.subscription_delete ies xid e =
      on (decode_subscription_delete_failure e xid ies) (e, none)
        (λ resp. (e, some (unsubscription_failed resp)))
  handle_unsuccessful Procedure.control ies xid e =
      on (decode_control_failure models.decode_failure_outcome e ies) (e, none)
        (λ failure. (erase_control failure.req e, some (control_failed failure)))
  handle_unsuccessful _ ies xid e = (e, none)

  unfoldable pub handle_pdu : Pdu → ℤ → String → E2ap → E2ap × Option (Event Model)
  unfolding handle_initiating handle_successful handle_unsuccessful
  handle_pdu (initiating p ies) subid xid e = handle_initiating p ies subid e
  handle_pdu (successful p ies) subid xid e = handle_successful p ies subid xid e
  handle_pdu (unsuccessful p ies) subid xid e = handle_unsuccessful p ies xid e
  handle_pdu absent subid xid e = (e, none)

  unfoldable pub handle_message :
      (Bytes → Option Pdu) → Bytes → ℤ → String → E2ap → E2ap × Option (Event Model)
  unfolding handle_pdu decode_pdu
  handle_message aper_decode buf subid xid e =
      on (decode_pdu aper_decode buf) (e, none) (λ pdu. handle_pdu pdu subid xid e)
