-- ===== src/App/Trace/Tables.antt =====
-- The tables of `E2AP`, lib/e2ap/src/e2ap.cc, over a row of operations.
use mathlib.Core.Path.{subst}
use mathlib.Core.List.{Mem}
use nexran.Base.{String, some, map, inl, inr, ◌≡◌, sym, ap, ◌∙◌, arith, string_key}
use nexran.Base.Int.{ℤ, int_key}
use nexran.Base.Map.{find}
use nexran.E2ap.Types.{
  ControlRequest, SubscriptionRequest, SubscriptionResponse, SubscriptionDeleteRequest,
}
use nexran.E2ap.Types.{Pdu}
use nexran.E2ap.Handle.{handle_pdu}
use nexran.E2ap.Handle.Lifecycle.{controls-handle_pdu}
use nexran.E2ap.State.{
  Platform, E2ap, Request, control, subscribe, unsubscribe, req_to_xid, new_e2ap,
  send_control_request, send_subscription_request, send_subscription_delete_request,
}
use nexran.E2ap.State.Posts.{
  send_control_request-Posts, send_subscription_request-Posts,
  send_subscription_delete_request-Posts,
}
use nexran.E2ap.State.Entries.{
  handed, Posts-handed, send_control_request-Adds, send_subscription_request-Adds,
  send_subscription_delete_request-Adds, control_rest, subscription_rest, delete_rest,
}
use nexran.E2ap.Handle.Entries.{
  outbox-handle_pdu, pending-handle_pdu, deletes-handle_pdu, subscriptions-handle_pdu,
}
use nexran.E2ap.State.{get_next_instance_id, delete_request}
use nexran.Resource.Json.{Json}
use nexran.App.Types.{App}
use nexran.App.Equalize.Float.{FloatOps}
use nexran.App.Send.{send_control, subscribe_kpm}
use nexran.App.Dispatch.{Decoders, models}
use nexran.App.Trace.{
  control_request, kpm_request, numbered, Move, controls, subscribes, unsubscribes, receives, Moves,
  none_yet, later,
}
use nexran.App.Trace.Served.{Served, Served-Moves}

-- What the tables hold was handed to RMR, under the ids of the request itself; a subscription is that of
-- a request that was.
pub record IsTracked (e : E2ap) : Type 0 where
  pub controls_handed :
      (id : ℤ) (req : ControlRequest)
      → find id e.controls ≡ some req
      → (req.instance_id ≡ id) × Mem (control req) (handed e)
  pub pending_handed :
      (xid : String) (req : SubscriptionRequest)
      → find xid e.pending_subscriptions ≡ some req
      → (req_to_xid req.requestor_id req.instance_id ≡ xid) × Mem (subscribe req) (handed e)
  pub subscribed_handed :
      (subid : ℤ) (resp : SubscriptionResponse)
      → find subid e.subscriptions ≡ some resp
      → Mem (subscribe resp.req) (handed e)
  pub deletes_handed :
      (xid : String) (req : SubscriptionDeleteRequest)
      → find xid e.pending_deletes ≡ some req
      → (req_to_xid req.requestor_id req.instance_id ≡ xid) × Mem (unsubscribe req) (handed e)

new_e2ap-IsTracked : IsTracked new_e2ap
unfolding new_e2ap find
new_e2ap-IsTracked = record {
  controls_handed = λ id req h. absurd (ground (arith, h));
  pending_handed = λ xid req h. absurd (ground (arith, h));
  subscribed_handed = λ subid resp h. absurd (ground (arith, h));
  deletes_handed = λ xid req h. absurd (ground (arith, h));
}

renumbered : (e : E2ap) → IsTracked e → IsTracked (numbered e)
renumbered e v = record {
  controls_handed = v.controls_handed;
  pending_handed = v.pending_handed;
  subscribed_handed = v.subscribed_handed;
  deletes_handed = v.deletes_handed;
}

module _ (platform : Platform) (ops : FloatOps) (decoders : Decoders) where
  control-IsTracked :
      (req : ControlRequest) (meid : String) (e : E2ap)
      → IsTracked e
      → IsTracked (send_control_request platform req meid e).0
  control-IsTracked req meid e v =
      let e' = (send_control_request platform req meid e).0 in
      let kept = λ (r : Request).
        Posts-handed (control req) r e e' (send_control_request-Posts platform req meid e).1 in
      let (p, s, d) = control_rest platform req meid e in
      record {
        controls_handed = λ id r h. elim (send_control_request-Adds platform req meid e id r h) [
          | inl old ↦ let (same, m) = v.controls_handed id r old in (same, kept _ m)
          | inr (k, q, m) ↦
              (sym (ap (λ x. x.instance_id) q) ∙ k, subst (λ x. Mem (control x) (handed e')) q m)
        ];
        pending_handed = λ xid r h.
            let (same, m) = v.pending_handed xid r (sym (ap (find xid) p) ∙ h) in (same, kept _ m);
        subscribed_handed =
            λ subid r h. kept _ (v.subscribed_handed subid r (sym (ap (find subid) s) ∙ h));
        deletes_handed = λ xid r h.
            let (same, m) = v.deletes_handed xid r (sym (ap (find xid) d) ∙ h) in (same, kept _ m);
      }

  subscription-IsTracked :
      (req : SubscriptionRequest) (meid : String) (e : E2ap)
      → IsTracked e
      → IsTracked (send_subscription_request platform req meid e).0
  subscription-IsTracked req meid e v =
      let e' = (send_subscription_request platform req meid e).0 in
      let kept = λ (r : Request).
        Posts-handed (subscribe req) r e e'
          (send_subscription_request-Posts platform req meid e).1 in
      let (c, s, d) = subscription_rest platform req meid e in
      record {
        controls_handed = λ id r h.
            let (same, m) = v.controls_handed id r (sym (ap (find id) c) ∙ h) in (same, kept _ m);
        pending_handed = λ xid r h.
            elim (send_subscription_request-Adds platform req meid e xid r h) [
              | inl old ↦ let (same, m) = v.pending_handed xid r old in (same, kept _ m)
              | inr (k, q, m) ↦ (
                sym (ap (λ x. req_to_xid x.requestor_id x.instance_id) q) ∙ k,
                subst (λ x. Mem (subscribe x) (handed e')) q m,
              )
            ];
        subscribed_handed =
            λ subid r h. kept _ (v.subscribed_handed subid r (sym (ap (find subid) s) ∙ h));
        deletes_handed = λ xid r h.
            let (same, m) = v.deletes_handed xid r (sym (ap (find xid) d) ∙ h) in (same, kept _ m);
      }

  delete-IsTracked :
      (req : SubscriptionDeleteRequest) (meid : String) (e : E2ap)
      → IsTracked e
      → IsTracked (send_subscription_delete_request platform req meid e).0
  delete-IsTracked req meid e v =
      let e' = (send_subscription_delete_request platform req meid e).0 in
      let kept = λ (r : Request).
        Posts-handed (unsubscribe req) r e e'
          (send_subscription_delete_request-Posts platform req meid e).1 in
      let (c, p, s) = delete_rest platform req meid e in
      record {
        controls_handed = λ id r h.
            let (same, m) = v.controls_handed id r (sym (ap (find id) c) ∙ h) in (same, kept _ m);
        pending_handed = λ xid r h.
            let (same, m) = v.pending_handed xid r (sym (ap (find xid) p) ∙ h) in (same, kept _ m);
        subscribed_handed =
            λ subid r h. kept _ (v.subscribed_handed subid r (sym (ap (find subid) s) ∙ h));
        deletes_handed = λ xid r h.
            elim (send_subscription_delete_request-Adds platform req meid e xid r h) [
              | inl old ↦ let (same, m) = v.deletes_handed xid r old in (same, kept _ m)
              | inr (k, q, m) ↦ (
                sym (ap (λ x. req_to_xid x.requestor_id x.instance_id) q) ∙ k,
                subst (λ x. Mem (unsubscribe x) (handed e')) q m,
              )
            ];
      }

  message-IsTracked :
      (now : ℤ) (pdu : Pdu) (subid : ℤ) (xid : String) (e : E2ap)
      → IsTracked e
      → IsTracked (handle_pdu (models platform ops decoders now) pdu subid xid e).0
  message-IsTracked now pdu subid xid e v =
      let ms = models platform ops decoders now in
      let e' = (handle_pdu ms pdu subid xid e).0 in
      let kept = λ (r : Request) (m : Mem r (handed e)).
        subst (λ l. Mem r (map (λ s. s.request) l)) (sym (outbox-handle_pdu ms pdu subid xid e))
          m in
      record {
        controls_handed = λ id r h.
            let (same, m) =
              v.controls_handed id r
                (sym (ap (find id) (controls-handle_pdu ms pdu subid xid e)) ∙ h) in
            (same, kept _ m);
        pending_handed = λ x r h.
            let (same, m) = v.pending_handed x r (pending-handle_pdu ms pdu subid xid x e r h) in
            (same, kept _ m);
        subscribed_handed = λ j resp h.
            elim (subscriptions-handle_pdu ms pdu subid j xid e resp h) [
              | inl old ↦ kept _ (v.subscribed_handed j resp old)
              | inr asked ↦ kept _ (v.pending_handed xid resp.req asked).1
            ];
        deletes_handed = λ x r h.
            let (same, m) = v.deletes_handed x r (deletes-handle_pdu ms pdu subid xid x e r h) in
            (same, kept _ m);
      }

  Move-IsTracked : (e e' : E2ap) → Move platform ops decoders e e' → IsTracked e → IsTracked e'
  unfolding send_control subscribe_kpm get_next_instance_id
  Move-IsTracked _ _ (controls c meid e) v =
      control-IsTracked (control_request c meid e) meid (numbered e) (renumbered e v)
  Move-IsTracked _ _ (subscribes meid e) v =
      subscription-IsTracked (kpm_request meid e) meid (numbered e) (renumbered e v)
  Move-IsTracked _ _ (unsubscribes resp meid e) v =
      delete-IsTracked (delete_request platform meid resp) meid e v
  Move-IsTracked _ _ (receives now pdu subid xid e) v = message-IsTracked now pdu subid xid e v

  Moves-IsTracked : (e e' : E2ap) → Moves platform ops decoders e e' → IsTracked e → IsTracked e'
  Moves-IsTracked e _ none_yet v = v
  Moves-IsTracked e _ (later e1 e2 r m) v = Move-IsTracked e1 e2 m (Moves-IsTracked e e1 r v)

  module _ (json : Json) where
    -- However the program is used, each request in a table of the tracker was handed to RMR and stands
    -- under the ids of the request itself, and each subscription is that of a request that was.
    pub Served-IsTracked : (app : App) → Served platform json ops decoders app → IsTracked app.e2ap
    Served-IsTracked app s =
        Moves-IsTracked new_e2ap app.e2ap (Served-Moves platform json ops decoders app s)
          new_e2ap-IsTracked
