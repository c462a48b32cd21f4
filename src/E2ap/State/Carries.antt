-- ===== src/E2ap/State/Carries.antt =====
-- The messages that the `send` methods of `E2AP`, lib/e2ap/src/e2ap.cc, hand to RMR.
use nexran.Base.{
  List, [], ◌∷◌, ◌++◌, inl, inr, All, Bool-cases, Option-cases, ◌≡◌, refl, arith, some, string_key,
}
use mathlib.Core.Path.{subst}
use nexran.Base.Int.{minus_one, int_key}
use nexran.Base.Map.{contains}
use nexran.E2sm.Control.{encode}
use nexran.E2ap.Types.{
  ControlRequest, SubscriptionRequest, SubscriptionDeleteRequest, Procedure, request_id,
  function_id, control_header, control_message, control_ack_request, subscription_details,
  initiating,
}
use nexran.E2ap.Encode.{
  control_pdu, encode_control, trigger_bytes, action_items, subscription_pdu, encode_subscription,
  subscription_delete_pdu, encode_subscription_delete,
}
use nexran.E2ap.State.{
  Platform, E2ap, Message, Request, control, subscribe, unsubscribe, Sent, control_req, sub_req,
  sub_del_req, req_to_xid, req_to_subid, wants_ack, control_sent, subscribe_sent, unsubscribe_sent,
  transmit_control, send_control_request, send_subscription_request,
  send_subscription_delete_request,
}

module _ (platform : Platform) where
  open platform use {codec}

  -- The message that carries a request: RMR's type, the ids that it is routed by, the node, and the
  -- encoding of the PDU of the request. The subid of a subscription is RMR's "void" id, -1.
  abbrev pub Carries : Request → Message → Type 0
  Carries (control req) m =
      (m.mtype ≡ control_req)
      × (m.subid ≡ req_to_subid platform req.requestor_id req.instance_id)
      × (m.meid ≡ req.meid)
      × (m.xid ≡ "")
      × (codec.aper_encode (
            initiating Procedure.control (
              request_id req.requestor_id req.instance_id
              ∷ function_id req.function_id
              ∷ control_header (encode codec.controls req.control).0.header
              ∷ control_message (encode codec.controls req.control).0.message
              ∷ control_ack_request req.ack_request
              ∷ []))
          ≡ some m.payload)
  Carries (subscribe req) m =
      (m.mtype ≡ sub_req)
      × (m.subid ≡ minus_one)
      × (m.meid ≡ req.meid)
      × (m.xid ≡ req_to_xid req.requestor_id req.instance_id)
      × (codec.aper_encode (
            initiating Procedure.subscription (
              request_id req.requestor_id req.instance_id
              ∷ function_id req.function_id
              ∷ subscription_details (trigger_bytes codec req.trigger)
                  (action_items codec req.actions)
              ∷ []))
          ≡ some m.payload)
  Carries (unsubscribe req) m =
      (m.mtype ≡ sub_del_req)
      × (m.subid ≡ req_to_subid platform req.requestor_id req.instance_id)
      × (m.meid ≡ req.meid)
      × (m.xid ≡ req_to_xid req.requestor_id req.instance_id)
      × (codec.aper_encode (
            initiating Procedure.subscription_delete
              (request_id req.requestor_id req.instance_id ∷ function_id req.function_id ∷ []))
          ≡ some m.payload)

  abbrev pub IsCarried : Sent → Type 0
  IsCarried s = Carries s.request s.message

  All-last :
      (l : List Sent) (s : Sent) → All IsCarried l → IsCarried s → All IsCarried (l ++ s ∷ [])
  All-last [] s a c = (c, tt)
  All-last (x ∷ l) s (p, a) c = (p, All-last l s a c)

  pub send_control_request-IsCarried :
      (req : ControlRequest) (e : E2ap)
      → All IsCarried e.outbox
      → All IsCarried (send_control_request platform req req.meid e).0.outbox
  unfolding send_control_request transmit_control encode_control control_pdu
  send_control_request-IsCarried req e a = elim (Option-cases (encode_control codec req)) [
    | inl n ↦ rw (n, send_control_request) a
    | inr (payload, p) ↦
        let sent = control_sent platform req req.meid payload in
        let all = All-last e.outbox sent a (refl, refl, refl, refl, p) in
        elim (Bool-cases (wants_ack req.ack_request)) [
          | inr n ↦ rw (p, n, send_control_request) (subst (All IsCarried) (ground arith) all)
          | inl y ↦ elim (Bool-cases (contains req.instance_id e.controls)) [
            | inl k ↦ rw (p, y, k, send_control_request) a
            | inr k ↦ rw (p, y, k, send_control_request) (subst (All IsCarried) (ground arith) all)
          ]
        ]
  ]

  pub send_subscription_request-IsCarried :
      (req : SubscriptionRequest) (e : E2ap)
      → All IsCarried e.outbox
      → All IsCarried (send_subscription_request platform req req.meid e).0.outbox
  unfolding send_subscription_request encode_subscription subscription_pdu
  send_subscription_request-IsCarried req e a =
      elim (Option-cases (encode_subscription codec req)) [
        | inl n ↦ rw (n, send_subscription_request) a
        | inr (payload, p) ↦
            let sent = subscribe_sent platform req req.meid payload in
            let all = All-last e.outbox sent a (refl, refl, refl, refl, p) in
            let xid = req_to_xid req.requestor_id req.instance_id in
            elim (Bool-cases (contains xid e.pending_subscriptions)) [
              | inl k ↦ rw (p, k, send_subscription_request) a
              | inr k ↦
                  rw (p, k, send_subscription_request) (subst (All IsCarried) (ground arith) all)
            ]
      ]

  pub send_subscription_delete_request-IsCarried :
      (req : SubscriptionDeleteRequest) (e : E2ap)
      → All IsCarried e.outbox
      → All IsCarried (send_subscription_delete_request platform req req.meid e).0.outbox
  unfolding send_subscription_delete_request encode_subscription_delete subscription_delete_pdu
  send_subscription_delete_request-IsCarried req e a =
      elim (Option-cases (encode_subscription_delete codec req)) [
        | inl n ↦ rw (n, send_subscription_delete_request) a
        | inr (payload, p) ↦
            let sent = unsubscribe_sent platform req req.meid payload in
            let all = All-last e.outbox sent a (refl, refl, refl, refl, p) in
            let xid = req_to_xid req.requestor_id req.instance_id in
            elim (Bool-cases (contains xid e.pending_deletes)) [
              | inl k ↦ rw (p, k, send_subscription_delete_request) a
              | inr k ↦
                  rw (p, k, send_subscription_delete_request)
                    (subst (All IsCarried) (ground arith) all)
            ]
      ]
