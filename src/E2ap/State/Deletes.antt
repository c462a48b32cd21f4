-- ===== src/E2ap/State/Deletes.antt =====
-- `E2AP::delete_all_subscriptions`.
use nexran.Base.{
  ◌≡◌, ◌≢◌, String, true, not, [], ◌∷◌, none, some, All, arith, if◌then◌else◌, ◌==◌, string_key,
  Bool-cases, Option-cases, inl, inr,
}
use nexran.Base.Int.{ℤ, int_key}
use nexran.Base.Map.{Map, find, find-All, find-put, beq_refl}
use nexran.E2ap.Types.{SubscriptionDeleteRequest, SubscriptionResponse}
use nexran.E2ap.Encode.{encode_subscription_delete}
use nexran.E2ap.State.{
  Platform, E2ap, Message, req_to_xid, unsubscribe_sent, delete_request, delete_subscriptions,
  send_subscription_delete_request, delete_all_subscriptions,
}

-- The xid of the delete request for a response.
abbrev pub xid_of : SubscriptionResponse → String
xid_of resp = req_to_xid resp.requestor_id resp.instance_id

module _ (platform : Platform)
    (encodes : (req : SubscriptionDeleteRequest)
      → encode_subscription_delete platform.codec req ≢ none)
    (sends : (m : Message) → platform.send_message m ≡ true) where
  send-registers :
      (req : SubscriptionDeleteRequest) (meid : String) (e : E2ap)
      → find
          (req_to_xid req.requestor_id req.instance_id)
          (send_subscription_delete_request platform req meid e).0.pending_deletes
        ≢ none
  unfolding send_subscription_delete_request
  send-registers req meid e = elim (Option-cases (encode_subscription_delete platform.codec req)) [
    | inl n ↦ absurd (encodes req n)
    | inr (payload, p) ↦ ground (
      arith,
      sends (unsubscribe_sent platform req meid payload).message,
      beq_refl (req_to_xid req.requestor_id req.instance_id),
      find-put (req_to_xid req.requestor_id req.instance_id)
          (req_to_xid req.requestor_id req.instance_id) req e.pending_deletes,
    )
  ]

  send-keeps :
      (req : SubscriptionDeleteRequest) (meid : String) (e : E2ap) (xid : String)
      → find xid e.pending_deletes ≢ none
      → find xid (send_subscription_delete_request platform req meid e).0.pending_deletes ≢ none
  unfolding send_subscription_delete_request
  send-keeps req meid e xid h =
      elim (Option-cases (encode_subscription_delete platform.codec req)) [
        | inl n ↦ absurd (encodes req n)
        | inr (payload, p) ↦ ground (
          arith,
          sends (unsubscribe_sent platform req meid payload).message,
          find-put (req_to_xid req.requestor_id req.instance_id) xid req e.pending_deletes,
        )
      ]

  abbrev one : String → SubscriptionResponse → E2ap → E2ap
  one meid resp e =
      if not (resp.req.meid == meid)
      then e
      else (send_subscription_delete_request platform (delete_request platform meid resp) meid e).0

  one-keeps :
      (meid : String) (resp : SubscriptionResponse) (e : E2ap) (xid : String)
      → find xid e.pending_deletes ≢ none
      → find xid (one meid resp e).pending_deletes ≢ none
  one-keeps meid resp e xid h = elim (Bool-cases (resp.req.meid == meid)) [
    | inl y ↦ rw y (send-keeps (delete_request platform meid resp) meid e xid h)
    | inr n ↦ rw n h
  ]

  one-registers :
      (meid : String) (resp : SubscriptionResponse) (e : E2ap)
      → resp.req.meid ≡ meid
      → find (xid_of resp) (one meid resp e).pending_deletes ≢ none
  one-registers meid resp e h =
      let y = (string_key.beq_iff resp.req.meid meid).1 h in
      rw y (send-registers (delete_request platform meid resp) meid e)

  delete_subscriptions-keeps :
      (meid : String) (l : Map ℤ SubscriptionResponse) (e : E2ap) (xid : String)
      → find xid e.pending_deletes ≢ none
      → find xid (delete_subscriptions platform meid l e).pending_deletes ≢ none
  unfolding delete_subscriptions
  delete_subscriptions-keeps meid [] e xid h = h
  delete_subscriptions-keeps meid ((subid, resp) ∷ l) e xid h =
      delete_subscriptions-keeps meid l (one meid resp e) xid (one-keeps meid resp e xid h)

  delete_subscriptions-registers :
      (meid : String) (l : Map ℤ SubscriptionResponse) (e : E2ap)
      → All
          (λ p.
            p.1.req.meid ≡ meid
            → find (xid_of p.1) (delete_subscriptions platform meid l e).pending_deletes ≢ none)
          l
  unfolding delete_subscriptions
  delete_subscriptions-registers meid [] e = tt
  delete_subscriptions-registers meid ((subid, resp) ∷ l) e = (
    λ h.
        delete_subscriptions-keeps meid l (one meid resp e) (xid_of resp)
          (one-registers meid resp e h),
    delete_subscriptions-registers meid l (one meid resp e),
  )

  -- If every request can be encoded and sent, deleting a node's subscriptions leaves a delete request
  -- pending for each subscription of that node.
  pub delete_all_subscriptions_lem :
      (meid : String) (e : E2ap) (subid : ℤ) (resp : SubscriptionResponse)
      → find subid e.subscriptions ≡ some resp
      → resp.req.meid ≡ meid
      → find (xid_of resp) (delete_all_subscriptions platform meid e).pending_deletes ≢ none
  unfolding delete_all_subscriptions
  delete_all_subscriptions_lem meid e subid resp h m =
      find-All
        (λ p.
          p.1.req.meid ≡ meid
          → find (xid_of p.1) (delete_subscriptions platform meid e.subscriptions e).pending_deletes
            ≢ none)
        e.subscriptions subid resp (delete_subscriptions-registers meid e.subscriptions e) h m
