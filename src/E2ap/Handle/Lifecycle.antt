-- ===== src/E2ap/Handle/Lifecycle.antt =====
-- The life of a request through `E2AP::handle_message`.
use nexran.Base.{
  ◌≡◌, refl, String, false, List, none, some, arith, if◌then◌else◌, ◌==◌, string_key, Option-cases,
  inl, inr,
}
use nexran.Base.Int.{ℤ, pos, int_key, ◌≤ℤ◌}
use nexran.Base.Map.{find-put, find-erase}
use nexran.E2ap.Types.{
  Pdu, Ie, Procedure, initiating, successful, unsuccessful, absent, SubscriptionRequest,
  SubscriptionResponse, SubscriptionDeleteRequest,
}
use nexran.E2ap.State.{
  Platform, E2ap, req_to_xid, send_subscription_request, send_subscription_delete_request,
  lookup_subscription, lookup_pending_subscription, lookup_pending_subscription_delete,
}
use nexran.E2ap.Decode.{
  Indication, decode_control_ack, decode_control_failure, decode_indication,
  decode_subscription_response, response_of, decode_subscription_failure,
  decode_subscription_delete_response, decode_subscription_delete_failure,
}
use nexran.E2ap.Handle.{
  indicated, subscribed, Models, handle_pdu, handle_initiating, handle_successful,
  handle_unsuccessful,
}

module _ {Model : Type 0} (models : Models Model) where
  successful-controls :
      (p : Procedure) (ies : List Ie) (subid : ℤ) (xid : String) (e : E2ap)
      → (handle_successful models p ies subid xid e).0.controls ≡ e.controls
  unfolding handle_successful decode_control_ack
  successful-controls Procedure.subscription ies subid xid e = ground arith
  successful-controls p ies subid xid e = ground arith

  -- No message takes a control request out of the table, an acknowledgement or a failure of it
  -- included: the decoders never set `req`, which the erasure waits for.
  pub controls-handle_pdu :
      (pdu : Pdu) (subid : ℤ) (xid : String) (e : E2ap)
      → (handle_pdu models pdu subid xid e).0.controls ≡ e.controls
  unfolding handle_pdu handle_initiating handle_unsuccessful decode_control_failure
  controls-handle_pdu (initiating Procedure.indication ies) subid xid e = ground arith
  controls-handle_pdu (initiating p ies) subid xid e = ground arith
  controls-handle_pdu (successful p ies) subid xid e = successful-controls p ies subid xid e
  controls-handle_pdu (unsuccessful p ies) subid xid e = ground arith
  controls-handle_pdu absent subid xid e = refl

  -- A subscription response whose xid is pending becomes the subscription of its subid, with the
  -- pending request, which is pending no more; no other entry of the two tables changes.
  pub subscription_response_lem :
      (ies : List Ie) (subid j : ℤ) (xid x : String) (e : E2ap) (req : SubscriptionRequest)
      → lookup_pending_subscription xid e ≡ some req
      → let r = handle_pdu models (successful Procedure.subscription ies) subid xid e in
        (r.1 ≡ some (subscribed (response_of ies req)))
        × ((response_of ies req).req ≡ req)
        × (lookup_subscription j r.0
            ≡ (if subid == j then some (response_of ies req) else lookup_subscription j e))
        × (lookup_pending_subscription x r.0
            ≡ (if xid == x then none else lookup_pending_subscription x e))
  unfolding handle_pdu handle_successful decode_subscription_response lookup_pending_subscription
      lookup_subscription
  subscription_response_lem ies subid j xid x e req h =
      let found = find-put subid j (response_of ies req) e.subscriptions in
      let gone = find-erase xid x e.pending_subscriptions in
      (ground arith, unfold response_of in refl, ground (arith, found), ground (arith, gone))

  -- A response to a delete request that is pending takes the subscription of its subid away, and the
  -- delete request with it; no other entry of the two tables changes.
  pub delete_response_lem :
      (ies : List Ie) (subid j : ℤ) (xid x : String) (e : E2ap) (req : SubscriptionDeleteRequest)
      → lookup_pending_subscription_delete xid e ≡ some req
      → let e' = (handle_pdu models (successful Procedure.subscription_delete ies) subid xid e).0 in
        (lookup_subscription j e' ≡ (if subid == j then none else lookup_subscription j e))
        × (lookup_pending_subscription_delete x e'
            ≡ (if xid == x then none else lookup_pending_subscription_delete x e))
  unfolding handle_pdu handle_successful decode_subscription_delete_response
      lookup_pending_subscription_delete lookup_subscription
  delete_response_lem ies subid j xid x e req h =
      let found = find-erase subid j e.subscriptions in
      let gone = find-erase xid x e.pending_deletes in (ground (arith, found), ground (arith, gone))

  -- A subscription failure leaves the request pending under its xid, and a later request with the
  -- same ids is refused.
  pub subscription_failure_blocks :
      (platform : Platform) (ies : List Ie) (subid : ℤ) (e : E2ap) (req again : SubscriptionRequest)
      (meid : String)
      → lookup_pending_subscription (req_to_xid again.requestor_id again.instance_id) e ≡ some req
      → let xid = req_to_xid again.requestor_id again.instance_id in
        let e' = (handle_pdu models (unsuccessful Procedure.subscription ies) subid xid e).0 in
        send_subscription_request platform again meid e' ≡ (e', false)
  unfolding handle_pdu handle_unsuccessful decode_subscription_failure lookup_pending_subscription
      send_subscription_request
  subscription_failure_blocks platform ies subid e req again meid h = ground arith

  -- A failed deletion leaves the delete request pending under its xid, and a later one with the same
  -- ids is refused.
  pub delete_failure_blocks :
      (platform : Platform) (ies : List Ie) (subid : ℤ) (e : E2ap)
      (req again : SubscriptionDeleteRequest) (meid : String)
      → lookup_pending_subscription_delete (req_to_xid again.requestor_id again.instance_id) e
        ≡ some req
      → let xid = req_to_xid again.requestor_id again.instance_id in
        let e' =
          (handle_pdu models (unsuccessful Procedure.subscription_delete ies) subid xid e).0 in
        send_subscription_delete_request platform again meid e' ≡ (e', false)
  unfolding handle_pdu handle_unsuccessful decode_subscription_delete_failure
      lookup_pending_subscription_delete send_subscription_delete_request
  delete_failure_blocks platform ies subid e req again meid h = ground arith

  -- An indication reaches the application only for a subscription that is established, with its
  -- request, and it changes no table.
  pub indication_lem :
      (pdu : Pdu) (subid : ℤ) (xid : String) (e : E2ap) (ind : Indication Model)
      → (handle_pdu models pdu subid xid e).1 ≡ some (indicated ind)
      → (resp : SubscriptionResponse) × (pos 0 ≤ℤ subid)
        × (lookup_subscription subid e ≡ some resp)
        × (ind.subscription_request ≡ resp.req)
        × ((handle_pdu models pdu subid xid e).0 ≡ e)
  unfolding handle_pdu handle_initiating decode_indication handle_successful handle_unsuccessful
  indication_lem (initiating Procedure.indication ies) subid xid e ind h =
      elim (Option-cases (lookup_subscription subid e)) [
        | inl missing ↦ absurd (ground arith)
        | inr (resp, found) ↦ (resp, ground arith, found, ground arith, ground arith)
      ]
  indication_lem (initiating p ies) subid xid e ind h = absurd (ground arith)
  indication_lem (successful Procedure.subscription ies) subid xid e ind h = absurd (ground arith)
  indication_lem (successful p ies) subid xid e ind h = absurd (ground arith)
  indication_lem (unsuccessful Procedure.subscription ies) subid xid e ind h = absurd (ground arith)
  indication_lem (unsuccessful p ies) subid xid e ind h = absurd (ground arith)
  indication_lem absent subid xid e ind h = absurd (ground arith)
