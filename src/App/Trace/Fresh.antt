-- ===== src/App/Trace/Fresh.antt =====
-- What the row of operations means for the handlers of src/nexran.cc: the ids that they give to new
-- requests, and the indications that they get.
use mathlib.Core.Path.{subst}
use mathlib.Core.List.{Mem}
use nexran.Base.{String, none, some, ◌++◌, ◌≡◌, ◌≢◌, ◌≤◌, sym, ap, ◌∙◌, arith}
use nexran.Base.Int.{ℤ, pos, int_key}
use nexran.Base.Map.{find}
use nexran.E2ap.Types.{Pdu, ControlRequest}
use nexran.E2ap.Encode.{encode_control}
use nexran.E2ap.Decode.{Indication}
use nexran.E2ap.State.{
  Platform, E2ap, subscribe, new_e2ap, lookup_subscription, get_next_instance_id, delete_request,
  send_subscription_request, send_subscription_delete_request,
}
use nexran.E2ap.State.Posts.{
  send_subscription_request-Posts, send_subscription_delete_request-Posts,
}
use nexran.E2ap.State.Entries.{handed, subscription_rest, delete_rest}
use nexran.E2ap.Handle.{handle_pdu, indicated}
use nexran.E2ap.Handle.Lifecycle.{controls-handle_pdu, indication_lem}
use nexran.E2ap.Handle.Entries.{next-handle_pdu}
use nexran.Resource.Json.{Json}
use nexran.Kpm.Report.{KpmReport}
use nexran.App.Types.{App}
use nexran.App.Equalize.Float.{FloatOps}
use nexran.App.Equalize.Handle.{handle_slices}
use nexran.App.Equalize.Shares.{shares}
use nexran.App.Equalize.Effects.{told, handle_slices-orders}
use nexran.App.Send.{subscribe_kpm}
use nexran.App.Send.Fanout.{IsFresh, orders, new_e2ap-IsFresh, send_control-IsFresh}
use nexran.App.Dispatch.{Decoders, Model, models}
use nexran.App.Trace.{
  kpm_request, numbered, Move, controls, subscribes, unsubscribes, receives, Moves, none_yet, later,
}
use nexran.App.Trace.Served.{Served, Served-Moves}
use nexran.App.Trace.Tables.{Served-IsTracked}

-- Freshness does not look at anything else than the table and the next id.
IsFresh-same :
    (e e' : E2ap)
    → e'.controls ≡ e.controls
    → e.next_instance_id ≤ e'.next_instance_id
    → IsFresh e
    → IsFresh e'
IsFresh-same e e' c n f i h = ap (find (pos i)) c ∙ f i (omega (arith, n, h))

module _ (platform : Platform) (ops : FloatOps) (decoders : Decoders) where
  Move-IsFresh : (e e' : E2ap) → Move platform ops decoders e e' → IsFresh e → IsFresh e'
  unfolding subscribe_kpm get_next_instance_id
  Move-IsFresh _ _ (controls c meid e) f = send_control-IsFresh platform c meid e f
  Move-IsFresh _ _ (subscribes meid e) f =
      let req = kpm_request meid e in
      let next = (send_subscription_request-Posts platform req meid (numbered e)).0 in
      IsFresh-same e (send_subscription_request platform req meid (numbered e)).0
        (subscription_rest platform req meid (numbered e)).0 (omega (arith, next)) f
  Move-IsFresh _ _ (unsubscribes resp meid e) f =
      let req = delete_request platform meid resp in
      let next = (send_subscription_delete_request-Posts platform req meid e).0 in
      IsFresh-same e (send_subscription_delete_request platform req meid e).0
        (delete_rest platform req meid e).0 (omega (arith, next)) f
  Move-IsFresh _ _ (receives now pdu subid xid e) f =
      let ms = models platform ops decoders now in
      let next = next-handle_pdu ms pdu subid xid e in
      IsFresh-same e (handle_pdu ms pdu subid xid e).0 (controls-handle_pdu ms pdu subid xid e)
        (omega (arith, next)) f

  Moves-IsFresh : (e e' : E2ap) → Moves platform ops decoders e e' → IsFresh e → IsFresh e'
  Moves-IsFresh e _ none_yet f = f
  Moves-IsFresh e _ (later e1 e2 r m) f = Move-IsFresh e1 e2 m (Moves-IsFresh e e1 r f)

  module _ (json : Json) where
    pub Served-IsFresh : (app : App) → Served platform json ops decoders app → IsFresh app.e2ap
    Served-IsFresh app s =
        Moves-IsFresh new_e2ap app.e2ap (Served-Moves platform json ops decoders app s)
          new_e2ap-IsFresh

    -- However the program was used before, if every request can be encoded, the handler of a KPM report
    -- on some slice sends, for each slice whose share after it is not the one before it, a control with
    -- the new share to each node that the slice is bound to, in the order of the slices and of the
    -- nodes, and nothing else: a slice's share does not change untold.
    pub Served-orders :
        (encodes : (req : ControlRequest) → encode_control platform.codec req ≢ none) (now : ℤ)
        (report : KpmReport) (app : App)
        → Served platform json ops decoders app
        → let app' = handle_slices platform ops now report app in
          orders app'.e2ap.outbox
          ≡ orders app.e2ap.outbox
            ++ told platform ops app.nodebs (shares app.slices) (shares app'.slices)
    Served-orders encodes now report app s =
        handle_slices-orders platform ops encodes now report app (Served-IsFresh app s)

    -- However the program was used before, an indication that comes to the application belongs to a
    -- subscription request that was handed to RMR.
    pub Served-indicated :
        (now : ℤ) (pdu : Pdu) (subid : ℤ) (xid : String) (app : App) (ind : Indication Model)
        → Served platform json ops decoders app
        → (handle_pdu (models platform ops decoders now) pdu subid xid app.e2ap).1
          ≡ some (indicated ind)
        → Mem (subscribe ind.subscription_request) (handed app.e2ap)
    unfolding lookup_subscription
    Served-indicated now pdu subid xid app ind s h =
        let (resp, p, found, same, kept) =
          indication_lem (models platform ops decoders now) pdu subid xid app.e2ap ind h in
        subst (λ r. Mem (subscribe r) (handed app.e2ap)) (sym same)
          ((Served-IsTracked platform ops decoders json app s).subscribed_handed subid resp found)
