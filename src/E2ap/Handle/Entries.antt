-- ===== src/E2ap/Handle/Entries.antt =====
-- What a message that comes in adds to the tables of `E2AP`, lib/e2ap/src/e2ap.cc.
use nexran.Base.{
  String, some, ◌⊎◌, inl, inr, Bool-cases, Option-cases, ◌≡◌, refl, arith, ◌==◌, string_key,
}
use nexran.Base.Int.{ℤ, int_key}
use nexran.Base.Map.{find, find-put, find-erase}
use nexran.E2ap.Types.{SubscriptionRequest, SubscriptionResponse, SubscriptionDeleteRequest}
use nexran.E2ap.Types.{Pdu, Procedure, initiating, successful, unsuccessful, absent}
use nexran.E2ap.Decode.{decode_subscription_response, response_of}
use nexran.E2ap.Handle.{
  Models, handle_pdu, handle_initiating, handle_successful, handle_unsuccessful, erase_control,
}
use nexran.E2ap.State.{E2ap, lookup_pending_subscription}

module _ {Model : Type 0} (models : Models Model) where
  pub outbox-handle_pdu :
      (pdu : Pdu) (subid : ℤ) (xid : String) (e : E2ap)
      → (handle_pdu models pdu subid xid e).0.outbox ≡ e.outbox
  unfolding handle_pdu handle_initiating handle_successful handle_unsuccessful erase_control
  outbox-handle_pdu (initiating Procedure.indication ies) subid xid e = ground arith
  outbox-handle_pdu (initiating p ies) subid xid e = ground arith
  outbox-handle_pdu (successful Procedure.subscription ies) subid xid e = ground arith
  outbox-handle_pdu (successful p ies) subid xid e = ground arith
  outbox-handle_pdu (unsuccessful p ies) subid xid e = ground arith
  outbox-handle_pdu absent subid xid e = refl

  pub next-handle_pdu :
      (pdu : Pdu) (subid : ℤ) (xid : String) (e : E2ap)
      → (handle_pdu models pdu subid xid e).0.next_instance_id ≡ e.next_instance_id
  unfolding handle_pdu handle_initiating handle_successful handle_unsuccessful erase_control
  next-handle_pdu (initiating Procedure.indication ies) subid xid e = ground arith
  next-handle_pdu (initiating p ies) subid xid e = ground arith
  next-handle_pdu (successful Procedure.subscription ies) subid xid e = ground arith
  next-handle_pdu (successful p ies) subid xid e = ground arith
  next-handle_pdu (unsuccessful p ies) subid xid e = ground arith
  next-handle_pdu absent subid xid e = refl

  pub pending-handle_pdu :
      (pdu : Pdu) (subid : ℤ) (xid x : String) (e : E2ap) (req : SubscriptionRequest)
      → find x (handle_pdu models pdu subid xid e).0.pending_subscriptions ≡ some req
      → find x e.pending_subscriptions ≡ some req
  unfolding handle_pdu handle_initiating handle_successful handle_unsuccessful erase_control
  pending-handle_pdu (initiating Procedure.indication ies) subid xid x e req h = ground arith
  pending-handle_pdu (initiating p ies) subid xid x e req h = ground arith
  pending-handle_pdu (successful Procedure.subscription ies) subid xid x e req h =
      ground (arith, find-erase xid x e.pending_subscriptions)
  pending-handle_pdu (successful p ies) subid xid x e req h = ground arith
  pending-handle_pdu (unsuccessful p ies) subid xid x e req h = ground arith
  pending-handle_pdu absent subid xid x e req h = h

  pub deletes-handle_pdu :
      (pdu : Pdu) (subid : ℤ) (xid x : String) (e : E2ap) (req : SubscriptionDeleteRequest)
      → find x (handle_pdu models pdu subid xid e).0.pending_deletes ≡ some req
      → find x e.pending_deletes ≡ some req
  unfolding handle_pdu handle_initiating handle_successful handle_unsuccessful erase_control
  deletes-handle_pdu (initiating Procedure.indication ies) subid xid x e req h = ground arith
  deletes-handle_pdu (initiating p ies) subid xid x e req h = ground arith
  deletes-handle_pdu (successful Procedure.subscription_delete ies) subid xid x e req h =
      ground (arith, find-erase xid x e.pending_deletes)
  deletes-handle_pdu (successful p ies) subid xid x e req h = ground arith
  deletes-handle_pdu (unsuccessful p ies) subid xid x e req h = ground arith
  deletes-handle_pdu absent subid xid x e req h = h

  pub subscriptions-handle_pdu :
      (pdu : Pdu) (subid j : ℤ) (xid : String) (e : E2ap) (resp : SubscriptionResponse)
      → find j (handle_pdu models pdu subid xid e).0.subscriptions ≡ some resp
      → (find j e.subscriptions ≡ some resp) ⊎ (find xid e.pending_subscriptions ≡ some resp.req)
  unfolding handle_pdu handle_initiating handle_successful handle_unsuccessful erase_control
      decode_subscription_response lookup_pending_subscription response_of
  subscriptions-handle_pdu (initiating Procedure.indication ies) subid j xid e resp h =
      inl (ground arith)
  subscriptions-handle_pdu (initiating p ies) subid j xid e resp h = inl (ground arith)
  subscriptions-handle_pdu (successful Procedure.subscription ies) subid j xid e resp h =
      elim (Option-cases (find xid e.pending_subscriptions)) [
        | inl n ↦ inl (ground arith)
        | inr (req, s) ↦ elim (Bool-cases (subid == j)) [
          | inl y ↦ inr (ground (arith, find-put subid j (response_of ies req) e.subscriptions))
          | inr n ↦ inl (ground (arith, find-put subid j (response_of ies req) e.subscriptions))
        ]
      ]
  subscriptions-handle_pdu (successful Procedure.subscription_delete ies) subid j xid e resp h =
      inl (ground (arith, find-erase subid j e.subscriptions))
  subscriptions-handle_pdu (successful p ies) subid j xid e resp h = inl (ground arith)
  subscriptions-handle_pdu (unsuccessful p ies) subid j xid e resp h = inl (ground arith)
  subscriptions-handle_pdu absent subid j xid e resp h = inl h
