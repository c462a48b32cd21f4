-- ===== src/App/Trace/Messages.antt =====
-- The messages that the application of src/nexran.cc hands to RMR, over a row of operations.
use mathlib.Core.Path.{subst}
use nexran.Base.{All, sym}
use nexran.E2ap.State.{Platform, E2ap, new_e2ap, get_next_instance_id, delete_request}
use nexran.E2ap.State.Carries.{
  IsCarried, send_control_request-IsCarried, send_subscription_request-IsCarried,
  send_subscription_delete_request-IsCarried,
}
use nexran.E2ap.Handle.Entries.{outbox-handle_pdu}
use nexran.Resource.Json.{Json}
use nexran.App.Types.{App}
use nexran.App.Equalize.Float.{FloatOps}
use nexran.App.Send.{send_control, subscribe_kpm}
use nexran.App.Dispatch.{Decoders, models}
use nexran.App.Trace.{
  control_request, kpm_request, numbered, Move, controls, subscribes, unsubscribes, receives, Moves,
  none_yet, later,
}
use nexran.App.Trace.Served.{Served, Served-Moves}

module _ (platform : Platform) (ops : FloatOps) (decoders : Decoders) where
  abbrev Carried : E2ap → Type 0
  Carried e = All (IsCarried platform) e.outbox

  Move-Carried : (e e' : E2ap) → Move platform ops decoders e e' → Carried e → Carried e'
  unfolding send_control subscribe_kpm get_next_instance_id
  Move-Carried _ _ (controls c meid e) a =
      send_control_request-IsCarried platform (control_request c meid e) (numbered e) a
  Move-Carried _ _ (subscribes meid e) a =
      send_subscription_request-IsCarried platform (kpm_request meid e) (numbered e) a
  Move-Carried _ _ (unsubscribes resp meid e) a =
      send_subscription_delete_request-IsCarried platform (delete_request platform meid resp) e a
  Move-Carried _ _ (receives now pdu subid xid e) a =
      subst (All (IsCarried platform))
        (sym (outbox-handle_pdu (models platform ops decoders now) pdu subid xid e)) a

  Moves-Carried : (e e' : E2ap) → Moves platform ops decoders e e' → Carried e → Carried e'
  Moves-Carried e _ none_yet a = a
  Moves-Carried e _ (later e1 e2 r m) a = Move-Carried e1 e2 m (Moves-Carried e e1 r a)

  module _ (json : Json) where
    -- However the program is used, each message that was handed to RMR is that of its request: with the
    -- type of message, the subscription id and the transaction id that belong to the kind of request,
    -- the node of the request, and the encoding of the PDU that has the request's ids and contents.
    pub Served-IsCarried :
        (app : App)
        → Served platform json ops decoders app
        → All (IsCarried platform) app.e2ap.outbox
    unfolding new_e2ap
    Served-IsCarried app s =
        Moves-Carried new_e2ap app.e2ap (Served-Moves platform json ops decoders app s) tt
