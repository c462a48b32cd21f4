-- ===== src/E2ap/State/Entries.antt =====
-- What an operation of `E2AP` adds to its tables, lib/e2ap/src/e2ap.cc.
use mathlib.Core.Path.{subst}
use mathlib.Core.List.{Mem, mem-append_left, mem-append_right, mem-cons_self, map-append}
use nexran.Base.{
  Key, String, some, List, [], ◌∷◌, ◌++◌, map, ◌⊎◌, inl, inr, Bool-cases, Option-cases, ◌≡◌, sym,
  arith, ◌==◌, string_key,
}
use nexran.Base.Int.{int_key}
use nexran.Base.Map.{Map, find, contains, put, erase, find-put, find-erase}
use nexran.E2ap.Types.{ControlRequest, SubscriptionRequest, SubscriptionDeleteRequest}
use nexran.E2ap.Encode.{encode_control, encode_subscription, encode_subscription_delete}
use nexran.E2ap.State.{
  Platform, E2ap, Sent, Request, control, subscribe, unsubscribe, control_sent, subscribe_sent,
  unsubscribe_sent, req_to_xid, wants_ack, send_control_request, transmit_control,
  send_subscription_request, send_subscription_delete_request,
}
use nexran.E2ap.State.Posts.{Posts}

-- The requests that were handed to RMR.
abbrev pub handed : E2ap → List Request
handed e = map (λ s. s.request) e.outbox

-- A table whose entries are old ones, or the one of `k`, where `P` then holds.
abbrev pub Adds : {K V : Type 0} ⦃key : Key K⦄ → Map K V → Map K V → K → V → Type 0 → Type 0
Adds {K} {V} m m' k v P =
    (j : K) (w : V) → find j m' ≡ some w → (find j m ≡ some w) ⊎ ((k ≡ j) × (v ≡ w) × P)

pub put-Adds :
    {K V : Type 0} ⦃key : Key K⦄ (m : Map K V) (k : K) (v : V) (P : Type 0)
    → P
    → Adds m (put k v m) k v P
put-Adds ⦃key⦄ m k v P p j w h = elim (Bool-cases (k == j)) [
  | inl y ↦ inr ((key.beq_iff k j).0 y, ground (arith, find-put k j v m), p)
  | inr n ↦ inl (ground (arith, find-put k j v m))
]

pub erase-Adds :
    {K V : Type 0} ⦃key : Key K⦄ (m : Map K V) (k : K) (v : V) (P : Type 0)
    → Adds m (erase k (put k v m)) k v P
erase-Adds m k v P j w h = inl (ground (arith, find-put k j v m, find-erase k j (put k v m)))

pub handed_last : (l : List Sent) (s : Sent) → Mem s.request (map (λ s. s.request) (l ++ s ∷ []))
handed_last l s =
    subst (Mem s.request) (sym (map-append _ l (s ∷ [])))
      (mem-append_right (map (λ s. s.request) l) mem-cons_self)

pub Posts-handed :
    (r r' : Request) (e e' : E2ap) → Posts r e e' → Mem r' (handed e) → Mem r' (handed e')
Posts-handed r r' e e' (inl same) m = subst (λ l. Mem r' (map (λ s. s.request) l)) (sym same) m
Posts-handed r r' e e' (inr (s, grown, is)) m =
    subst (λ l. Mem r' (map (λ s. s.request) l)) (sym grown)
      (subst (Mem r') (sym (map-append _ e.outbox (s ∷ []))) (mem-append_left (s.request ∷ []) m))

module _ (platform : Platform) where
  pub send_control_request-Adds :
      (req : ControlRequest) (meid : String) (e : E2ap)
      → let e' = (send_control_request platform req meid e).0 in
        Adds e.controls e'.controls req.instance_id req (Mem (control req) (handed e'))
  unfolding send_control_request transmit_control
  send_control_request-Adds req meid e = elim (Option-cases (encode_control platform.codec req)) [
    | inl n ↦ rw (n, send_control_request) (λ j w h. inl h)
    | inr (payload, p) ↦
        let sent = control_sent platform req meid payload in
        elim (Bool-cases (wants_ack req.ack_request)) [
          | inr n ↦ elim (Bool-cases (platform.send_message sent.message)) [
            | inl s ↦ rw (p, n, s, send_control_request) (λ j w h. inl h)
            | inr s ↦ rw (p, n, s, send_control_request) (λ j w h. inl h)
          ]
          | inl y ↦ elim (Bool-cases (contains req.instance_id e.controls)) [
            | inl k ↦ rw (p, y, k, send_control_request) (λ j w h. inl h)
            | inr k ↦ elim (Bool-cases (platform.send_message sent.message)) [
              | inl s ↦
                  rw (p, y, k, s, send_control_request)
                    (put-Adds e.controls req.instance_id req _ (handed_last e.outbox sent))
              | inr s ↦
                  rw (p, y, k, s, send_control_request)
                    (erase-Adds e.controls req.instance_id req _)
            ]
          ]
        ]
  ]

  pub send_subscription_request-Adds :
      (req : SubscriptionRequest) (meid : String) (e : E2ap)
      → let e' = (send_subscription_request platform req meid e).0 in
        Adds e.pending_subscriptions e'.pending_subscriptions
          (req_to_xid req.requestor_id req.instance_id)
          req
          (Mem (subscribe req) (handed e'))
  unfolding send_subscription_request
  send_subscription_request-Adds req meid e =
      elim (Option-cases (encode_subscription platform.codec req)) [
        | inl n ↦ rw (n, send_subscription_request) (λ j w h. inl h)
        | inr (payload, p) ↦
            let xid = req_to_xid req.requestor_id req.instance_id in
            let sent = subscribe_sent platform req meid payload in
            elim (Bool-cases (contains xid e.pending_subscriptions)) [
              | inl k ↦ rw (p, k, send_subscription_request) (λ j w h. inl h)
              | inr k ↦ elim (Bool-cases (platform.send_message sent.message)) [
                | inl s ↦
                    rw (p, k, s, send_subscription_request)
                      (put-Adds e.pending_subscriptions xid req _ (handed_last e.outbox sent))
                | inr s ↦
                    rw (p, k, s, send_subscription_request)
                      (erase-Adds e.pending_subscriptions xid req _)
              ]
            ]
      ]

  pub send_subscription_delete_request-Adds :
      (req : SubscriptionDeleteRequest) (meid : String) (e : E2ap)
      → let e' = (send_subscription_delete_request platform req meid e).0 in
        Adds e.pending_deletes e'.pending_deletes
          (req_to_xid req.requestor_id req.instance_id)
          req
          (Mem (unsubscribe req) (handed e'))
  unfolding send_subscription_delete_request
  send_subscription_delete_request-Adds req meid e =
      elim (Option-cases (encode_subscription_delete platform.codec req)) [
        | inl n ↦ rw (n, send_subscription_delete_request) (λ j w h. inl h)
        | inr (payload, p) ↦
            let xid = req_to_xid req.requestor_id req.instance_id in
            let sent = unsubscribe_sent platform req meid payload in
            elim (Bool-cases (contains xid e.pending_deletes)) [
              | inl k ↦ rw (p, k, send_subscription_delete_request) (λ j w h. inl h)
              | inr k ↦ elim (Bool-cases (platform.send_message sent.message)) [
                | inl s ↦
                    rw (p, k, s, send_subscription_delete_request)
                      (put-Adds e.pending_deletes xid req _ (handed_last e.outbox sent))
                | inr s ↦
                    rw (p, k, s, send_subscription_delete_request)
                      (erase-Adds e.pending_deletes xid req _)
              ]
            ]
      ]

  pub control_rest :
      (req : ControlRequest) (meid : String) (e : E2ap)
      → let e' = (send_control_request platform req meid e).0 in
        (e'.pending_subscriptions ≡ e.pending_subscriptions)
        × (e'.subscriptions ≡ e.subscriptions)
        × (e'.pending_deletes ≡ e.pending_deletes)
  unfolding send_control_request transmit_control
  control_rest req meid e = ground arith

  pub subscription_rest :
      (req : SubscriptionRequest) (meid : String) (e : E2ap)
      → let e' = (send_subscription_request platform req meid e).0 in
        (e'.controls ≡ e.controls)
        × (e'.subscriptions ≡ e.subscriptions)
        × (e'.pending_deletes ≡ e.pending_deletes)
  unfolding send_subscription_request
  subscription_rest req meid e = ground arith

  pub delete_rest :
      (req : SubscriptionDeleteRequest) (meid : String) (e : E2ap)
      → let e' = (send_subscription_delete_request platform req meid e).0 in
        (e'.controls ≡ e.controls)
        × (e'.pending_subscriptions ≡ e.pending_subscriptions)
        × (e'.subscriptions ≡ e.subscriptions)
  unfolding send_subscription_delete_request
  delete_rest req meid e = ground arith
