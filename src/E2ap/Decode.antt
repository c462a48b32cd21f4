-- ===== src/E2ap/Decode.antt =====
-- The decoders of lib/e2ap/src/e2ap.cc: each walks the information elements of its message, and
-- then looks the request up. `none` is the null that makes the caller drop the message.
mod Walk
pub use Walk.*
use nexran.Base.{zero, suc, String, List, [], ◌∷◌, ◌++◌, Option, none, some, if◌then◌else◌, ltb}
use nexran.Base.Int.{ℤ, pos, negsuc, minus_one, ltb_ℤ}
use nexran.E2sm.Types.{Bytes, SliceStatus}
use nexran.E2ap.Types.{
  ControlAck, ControlFailure, ErrorIndication, SubscriptionRequest, SubscriptionResponse,
  SubscriptionFailure, SubscriptionDeleteResponse, SubscriptionDeleteFailure, Ie, request_id,
  function_id, control_outcome, actions_admitted, actions_not_admitted, cause, action_id,
  indication_sn, indication_type, indication_header, indication_message,
}
use nexran.E2ap.State.{
  E2ap, lookup_pending_subscription, lookup_subscription, lookup_pending_subscription_delete,
  lookup_control,
}

-- The outcome goes to the service model if there is one: `model_decode` is the model's `decode`.
-- `none` is a decoding error, `some none` no outcome to decode.
unfoldable pub decode_model_outcome :
    (Bytes → Option (List SliceStatus)) → Bytes → Option (Option (List SliceStatus))
decode_model_outcome model_decode [] = some none
decode_model_outcome model_decode (b ∷ bs) = elim (model_decode (b ∷ bs)) [
  | none ↦ none
  | some statuses ↦ some (some statuses)
]

unfoldable pub decode_control_ack :
    (Bytes → Option (List SliceStatus)) → E2ap → List Ie → Option ControlAck
unfolding control_ack_step decode_model_outcome
decode_control_ack model_decode e ies =
    let f = walk control_ack_step ies no_fields in
    elim (lookup_control f.requestor_id f.instance_id e) [
      | none ↦ none
      | some req ↦ elim (decode_model_outcome model_decode f.outcome) [
        | none ↦ none
        | some outcome ↦ some (record {
          requestor_id = f.requestor_id;
          instance_id = f.instance_id;
          function_id = f.function_id;
          status = minus_one;
          outcome = outcome;
          req = none;
        })
      ]
    ]

unfoldable pub decode_control_failure :
    (Bytes → Option (List SliceStatus)) → E2ap → List Ie → Option ControlFailure
unfolding control_failure_step decode_model_outcome
decode_control_failure model_decode e ies =
    let f = walk control_failure_step ies no_fields in
    elim (lookup_control f.requestor_id f.instance_id e) [
      | none ↦ none
      | some req ↦ elim (decode_model_outcome model_decode f.outcome) [
        | none ↦ none
        | some outcome ↦ some (record {
          requestor_id = f.requestor_id;
          instance_id = f.instance_id;
          function_id = f.function_id;
          cause = f.cause;
          cause_detail = f.cause_detail;
          outcome = outcome;
          req = none;
        })
      ]
    ]

-- `e2ap::Indication`, with what the service model makes of its header and message.
pub record Indication (Model : Type 0) : Type 0 where
  pub fields : Fields
  pub subscription_request : SubscriptionRequest
  pub model : Option Model

-- The KPM model decodes the indication where the request had a trigger; a failure drops it.
unfoldable pub decode_indication :
    {Model : Type 0}
    → (SubscriptionRequest → Bytes → Bytes → Option Model)
    → E2ap
    → ℤ
    → List Ie
    → Option (Indication Model)
unfolding indication_step
decode_indication model_decode e subid ies =
    let f = walk indication_step ies no_fields in
    if ltb_ℤ subid (pos 0) then none else elim (lookup_subscription subid e) [
      | none ↦ none
      | some resp ↦ elim resp.req.trigger [
        | none ↦ some (record { fields = f; subscription_request = resp.req; model = none })
        | some period ↦ elim (model_decode resp.req f.header f.message) [
          | none ↦ none
          | some m ↦ some (record { fields = f; subscription_request = resp.req; model = some m })
        ]
      ]
    ]

unfoldable pub decode_error_indication : List Ie → ErrorIndication
unfolding failure_step
decode_error_indication ies =
    let f = walk failure_step ies no_fields in
    record {
      requestor_id = f.requestor_id;
      instance_id = f.instance_id;
      function_id = f.function_id;
      cause = f.cause;
      cause_detail = f.cause_detail;
    }

-- The response that the elements and the original request make.
unfoldable pub response_of : List Ie → SubscriptionRequest → SubscriptionResponse
unfolding subscription_response_step
response_of ies req =
    let f = walk subscription_response_step ies no_fields in
    record {
      requestor_id = f.requestor_id;
      instance_id = f.instance_id;
      function_id = f.function_id;
      actions_admitted = f.admitted;
      actions_not_admitted = f.not_admitted;
      req = req;
    }

unfoldable pub decode_subscription_response : E2ap → String → List Ie → Option SubscriptionResponse
decode_subscription_response e xid ies = elim (lookup_pending_subscription xid e) [
  | none ↦ none
  | some req ↦ some (response_of ies req)
]

-- What `decode_subscription_failure` makes of a cause, whose `present` counts NOTHING, ricRequest,
-- ricService, e2Node, transport, protocol and misc from 0.
abbrev pub Cause : Type 0
Cause = Option ℤ × Option ℤ

abbrev pub detail_of : ℤ → ℤ → Option ℤ → Option ℤ
detail_of (pos zero) detail old = some (pos 0)
detail_of (pos (suc n)) detail old = if ltb n 6 then some detail else old
detail_of (negsuc n) detail old = old

unfoldable pub subscription_cause_step : Ie → Cause → Cause
subscription_cause_step (cause present detail) c = (some present, detail_of present detail c.1)
subscription_cause_step _ c = c

unfoldable pub decode_subscription_failure : E2ap → String → List Ie → Option SubscriptionFailure
unfolding subscription_cause_step
decode_subscription_failure e xid ies =
    let f = walk ids_step ies no_fields in
    let c = walk subscription_cause_step ies (none, none) in
    elim (lookup_pending_subscription xid e) [
      | none ↦ none
      | some req ↦ some (record {
        requestor_id = f.requestor_id;
        instance_id = f.instance_id;
        function_id = f.function_id;
        cause = c.0;
        cause_detail = c.1;
        req = req;
      })
    ]

unfoldable pub decode_subscription_delete_response :
    E2ap → String → List Ie → Option SubscriptionDeleteResponse
decode_subscription_delete_response e xid ies =
    let f = walk ids_step ies no_fields in
    elim (lookup_pending_subscription_delete xid e) [
      | none ↦ none
      | some req ↦ some (record {
        requestor_id = f.requestor_id;
        instance_id = f.instance_id;
        function_id = f.function_id;
        req = req;
      })
    ]

unfoldable pub decode_subscription_delete_failure :
    E2ap → String → List Ie → Option SubscriptionDeleteFailure
unfolding failure_step
decode_subscription_delete_failure e xid ies =
    let f = walk failure_step ies no_fields in
    elim (lookup_pending_subscription_delete xid e) [
      | none ↦ none
      | some req ↦ some (record {
        requestor_id = f.requestor_id;
        instance_id = f.instance_id;
        function_id = f.function_id;
        cause = f.cause;
        cause_detail = f.cause_detail;
        req = req;
      })
    ]
