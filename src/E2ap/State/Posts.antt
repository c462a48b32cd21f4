-- ===== src/E2ap/State/Posts.antt =====
-- What an operation of `E2AP` hands to RMR, lib/e2ap/src/e2ap.cc: nothing, or its request.
use nexran.Base.{String, [], ◌∷◌, ◌++◌, ◌⊎◌, inl, inr, Bool-cases, Option-cases, ◌≡◌, refl, arith}
use nexran.Base.{string_key}
use nexran.Base.Int.{int_key}
use nexran.Base.Map.{contains}
use nexran.E2ap.Types.{ControlRequest, SubscriptionRequest, SubscriptionDeleteRequest}
use nexran.E2ap.Encode.{encode_control, encode_subscription, encode_subscription_delete}
use nexran.E2ap.State.{
  Platform, E2ap, Sent, Request, control, subscribe, unsubscribe, send_control_request,
  control_sent, subscribe_sent, unsubscribe_sent, req_to_xid, wants_ack, send_subscription_request,
  send_subscription_delete_request,
}

-- What an operation does to the outbox: nothing, or one more request goes out.
abbrev pub Posts : Request → E2ap → E2ap → Type 0
Posts r e e' =
    (e'.outbox ≡ e.outbox) ⊎ ((s : Sent) × (e'.outbox ≡ e.outbox ++ s ∷ []) × (s.request ≡ r))

module _ (platform : Platform) where
  pub send_control_request-Posts :
      (req : ControlRequest) (meid : String) (e : E2ap)
      → let e' = (send_control_request platform req meid e).0 in
        (e'.next_instance_id ≡ e.next_instance_id) × Posts (control req) e e'
  unfolding send_control_request
  send_control_request-Posts req meid e = elim (Option-cases (encode_control platform.codec req)) [
    | inl n ↦ rw (n, send_control_request) (refl, inl refl)
    | inr (payload, p) ↦
        let sent = control_sent platform req meid payload in
        elim (Bool-cases (wants_ack req.ack_request)) [
          | inr n ↦ rw (p, n, send_control_request) (ground arith, inr (sent, ground arith, refl))
          | inl y ↦ elim (Bool-cases (contains req.instance_id e.controls)) [
            | inl k ↦ rw (p, y, k, send_control_request) (refl, inl refl)
            | inr k ↦
                rw (p, y, k, send_control_request) (ground arith, inr (sent, ground arith, refl))
          ]
        ]
  ]

  pub send_subscription_request-Posts :
      (req : SubscriptionRequest) (meid : String) (e : E2ap)
      → let e' = (send_subscription_request platform req meid e).0 in
        (e'.next_instance_id ≡ e.next_instance_id) × Posts (subscribe req) e e'
  unfolding send_subscription_request
  send_subscription_request-Posts req meid e =
      elim (Option-cases (encode_subscription platform.codec req)) [
        | inl n ↦ rw (n, send_subscription_request) (refl, inl refl)
        | inr (payload, p) ↦
            elim (Bool-cases
              (contains (req_to_xid req.requestor_id req.instance_id) e.pending_subscriptions)) [
                | inl k ↦ rw (p, k, send_subscription_request) (refl, inl refl)
                | inr k ↦
                    rw (p, k, send_subscription_request)
                      (
                        ground arith,
                        inr (subscribe_sent platform req meid payload, ground arith, refl),
                      )
              ]
      ]

  pub send_subscription_delete_request-Posts :
      (req : SubscriptionDeleteRequest) (meid : String) (e : E2ap)
      → let e' = (send_subscription_delete_request platform req meid e).0 in
        (e'.next_instance_id ≡ e.next_instance_id) × Posts (unsubscribe req) e e'
  unfolding send_subscription_delete_request
  send_subscription_delete_request-Posts req meid e =
      elim (Option-cases (encode_subscription_delete platform.codec req)) [
        | inl n ↦ rw (n, send_subscription_delete_request) (refl, inl refl)
        | inr (payload, p) ↦
            elim (Bool-cases
              (contains (req_to_xid req.requestor_id req.instance_id) e.pending_deletes)) [
                | inl k ↦ rw (p, k, send_subscription_delete_request) (refl, inl refl)
                | inr k ↦
                    rw (p, k, send_subscription_delete_request)
                      (
                        ground arith,
                        inr (unsubscribe_sent platform req meid payload, ground arith, refl),
                      )
              ]
      ]
