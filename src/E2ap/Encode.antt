-- ===== src/E2ap/Encode.antt =====
-- The `encode` methods of the requests, lib/e2ap/src/e2ap.cc, over the codec that asn1c generates.
use nexran.Base.{List, [], ◌∷◌, Option, none, some}
use nexran.E2sm.Types.{Bytes}
use nexran.E2sm.Control.{Codec, encode}
use nexran.Kpm.Period.{KpmPeriod}
use nexran.E2ap.Types.{
  ControlRequest, Action, SubscriptionRequest, SubscriptionDeleteRequest, Procedure, ActionItem,
  request_id, function_id, control_header, control_message, control_ack_request,
  subscription_details, Pdu, initiating,
}

-- `encode_pdu` calls `aper_encode_to_new_buffer`; `encode_trigger` is the encoding of the KPM event
-- trigger definition with one item of the period.
pub record PduCodec : Type 0 where
  pub controls : Codec
  pub aper_encode : Pdu → Option Bytes
  pub encode_trigger : KpmPeriod → Option Bytes

module _ (codec : PduCodec) where
  open codec use {aper_encode, encode_trigger}

  -- The elements of the message, in the order of the code. No control sets a call process id, so
  -- that element is always left out.
  unfoldable pub control_pdu : ControlRequest → Pdu
  control_pdu req =
      let buffers = (encode codec.controls req.control).0 in
      initiating Procedure.control (
        request_id req.requestor_id req.instance_id
        ∷ function_id req.function_id
        ∷ control_header buffers.header
        ∷ control_message buffers.message
        ∷ control_ack_request req.ack_request
        ∷ [])

  unfoldable pub encode_control : ControlRequest → Option Bytes
  unfolding control_pdu
  encode_control req = aper_encode (control_pdu req)

  -- `trigger->get_buf_len() > 0` fails where there is no trigger or its encoding fails; the element
  -- then has an empty definition.
  unfoldable pub trigger_bytes : Option KpmPeriod → Bytes
  trigger_bytes none = []
  trigger_bytes (some period) = elim (encode_trigger period) [ none ↦ [] | some b ↦ b ]

  unfoldable pub action_items : List Action → List ActionItem
  action_items [] = []
  action_items (a ∷ as') =
      record { id = a.id; action_type = a.action_type; definition = a.definition }
      ∷ action_items as'

  unfoldable pub subscription_pdu : SubscriptionRequest → Pdu
  unfolding trigger_bytes action_items
  subscription_pdu req = initiating Procedure.subscription (
      request_id req.requestor_id req.instance_id
      ∷ function_id req.function_id
      ∷ subscription_details (trigger_bytes req.trigger) (action_items req.actions)
      ∷ [])

  unfoldable pub encode_subscription : SubscriptionRequest → Option Bytes
  unfolding subscription_pdu
  encode_subscription req = aper_encode (subscription_pdu req)

  unfoldable pub subscription_delete_pdu : SubscriptionDeleteRequest → Pdu
  subscription_delete_pdu req =
      initiating Procedure.subscription_delete
        (request_id req.requestor_id req.instance_id ∷ function_id req.function_id ∷ [])

  unfoldable pub encode_subscription_delete : SubscriptionDeleteRequest → Option Bytes
  unfolding subscription_delete_pdu
  encode_subscription_delete req = aper_encode (subscription_delete_pdu req)
