-- ===== src/E2ap/State/Sends.antt =====
-- The three `send` methods of `E2AP`, lib/e2ap/src/e2ap.cc, and what they register.
use nexran.Base.{
  ◌≡◌, String, true, false, [], ◌∷◌, ◌++◌, some, arith, if◌then◌else◌, ◌==◌, string_key, Key,
}
use nexran.Base.Int.{ℤ, int_key}
use nexran.Base.Map.{Map, find, contains, put, erase, find-put, find-erase}
use nexran.E2sm.Types.{Bytes}
use nexran.E2ap.Types.{ControlRequest, SubscriptionRequest, SubscriptionDeleteRequest}
use nexran.E2ap.Encode.{encode_control}
use nexran.E2ap.State.{
  Platform, E2ap, req_to_xid, wants_ack, control_sent, send_control_request,
  send_subscription_request, send_subscription_delete_request,
}

-- Registering a new key and taking it out again changes no lookup.
pub find-erase-put {ℓ κ} :
    {K : Type ℓ} {V : Type κ} ⦃key : Key K⦄ (k j : K) (v : V) (m : Map K V)
    → contains k m ≡ false
    → find j (erase k (put k v m)) ≡ find j m
find-erase-put ⦃key⦄ k j v m h =
    ground (arith, find-erase k j (put k v m), find-put k j v m, key.beq_iff k j)

module _ (platform : Platform) where
  open platform use {codec, send_message}

  -- A control request that is not sent leaves the table of controls as it was: the encoding fails,
  -- its instance id is taken, or RMR refuses the message.
  pub send_control_request-unsent :
      (req : ControlRequest) (meid : String) (e : E2ap) (j : ℤ)
      → (send_control_request platform req meid e).1 ≡ false
      → find j (send_control_request platform req meid e).0.controls ≡ find j e.controls
  unfolding send_control_request
  send_control_request-unsent req meid e j h =
      ground (arith, find-erase-put req.instance_id j req e.controls)

  -- One that is sent is in the table if it asked for an acknowledgement, and it is the one new
  -- message of the outbox.
  pub send_control_request-sent :
      (req : ControlRequest) (meid : String) (e : E2ap) (j : ℤ) (payload : Bytes)
      → encode_control codec req ≡ some payload
      → wants_ack req.ack_request ≡ true
      → contains req.instance_id e.controls ≡ false
      → send_message (control_sent platform req meid payload).message ≡ true
      → let r = send_control_request platform req meid e in
        (r.1 ≡ true)
        × (find j r.0.controls ≡ (if req.instance_id == j then some req else find j e.controls))
        × (r.0.outbox ≡ e.outbox ++ control_sent platform req meid payload ∷ [])
  unfolding send_control_request
  send_control_request-sent req meid e j payload h w c s =
      ground (arith, find-put req.instance_id j req e.controls)

  pub send_subscription_request-unsent :
      (req : SubscriptionRequest) (meid : String) (e : E2ap) (j : String)
      → (send_subscription_request platform req meid e).1 ≡ false
      → find j (send_subscription_request platform req meid e).0.pending_subscriptions
        ≡ find j e.pending_subscriptions
  unfolding send_subscription_request
  send_subscription_request-unsent req meid e j h = ground (
    arith,
    find-erase-put (req_to_xid req.requestor_id req.instance_id) j req e.pending_subscriptions,
  )

  pub send_subscription_request-sent :
      (req : SubscriptionRequest) (meid : String) (e : E2ap) (j : String)
      → (send_subscription_request platform req meid e).1 ≡ true
      → find j (send_subscription_request platform req meid e).0.pending_subscriptions ≡ (
          if req_to_xid req.requestor_id req.instance_id == j
          then some req
          else find j e.pending_subscriptions)
  unfolding send_subscription_request
  send_subscription_request-sent req meid e j h =
      ground (
        arith,
        find-put (req_to_xid req.requestor_id req.instance_id) j req e.pending_subscriptions,
      )

  pub send_subscription_delete_request-unsent :
      (req : SubscriptionDeleteRequest) (meid : String) (e : E2ap) (j : String)
      → (send_subscription_delete_request platform req meid e).1 ≡ false
      → find j (send_subscription_delete_request platform req meid e).0.pending_deletes
        ≡ find j e.pending_deletes
  unfolding send_subscription_delete_request
  send_subscription_delete_request-unsent req meid e j h =
      ground (
        arith,
        find-erase-put (req_to_xid req.requestor_id req.instance_id) j req e.pending_deletes,
      )
