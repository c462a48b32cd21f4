-- ===== src/Examples/Trace.antt =====
-- The properties of the row of operations on the tracker, after some calls and messages.
use mathlib.Core.List.{Mem, Nodup}
use nexran.Base.{All, true, [], ◌∷◌, ◌++◌, Option, none, some, ◌≡◌, refl}
use nexran.Base.Int.{pos}
use nexran.E2sm.Types.{Bytes, other_format}
use nexran.E2ap.Types.{
  Pdu, initiating, successful, Procedure, request_id, function_id, indication_header,
  indication_message,
}
use nexran.Base.Map.{find, put}
use nexran.Base.Text.{to_string}
use nexran.E2ap.Encode.{encode_control, encode_subscription}
use nexran.E2ap.Decode.{
  decode_indication, decode_subscription_response, response_of, Indication, no_fields,
}
use nexran.E2ap.State.{
  lookup_subscription, lookup_pending_subscription, send_control_request, send_subscription_request,
  req_to_xid, subscribe,
}
use nexran.E2ap.State.Entries.{handed}
use nexran.E2ap.State.Carries.{IsCarried}
use nexran.E2ap.Handle.{Event, indicated, handle_pdu}
use nexran.App.Types.{App, new_app, nodeb, slice}
use nexran.App.Send.Fanout.{orders}
use nexran.App.Equalize.Handle.{handle_slices}
use nexran.App.Equalize.Shares.{shares}
use nexran.App.Equalize.Effects.{told}
use nexran.App.Call.{run, adding, binding_slice}
use nexran.App.Dispatch.{MessageType, Decoders, Model, models, handle_rmr_message}
use nexran.App.Trace.{kpm_request}
use nexran.App.Trace.Served.{Served, start, call, message}
use nexran.App.Trace.Tables.{IsTracked, Served-IsTracked}
use nexran.App.Trace.Ids.{ids, Served-Nodup}
use nexran.App.Trace.Messages.{Served-IsCarried}
use nexran.App.Trace.Fresh.{Served-orders, Served-indicated}
use nexran.Examples.{json, platform, thousandths, encodes, node, fast}
use nexran.Examples.Equalize.{report}
use nexran.Examples.Kpm.{containers}

abbrev indication : Pdu
indication =
    initiating Procedure.indication (indication_header (1 ∷ []) ∷ indication_message (2 ∷ []) ∷ [])

-- A message of one byte answers the subscription, and any other is an indication.
abbrev pdu_of : Bytes → Option Pdu
pdu_of (b ∷ []) =
    some
      (successful Procedure.subscription (request_id (pos 123) (pos 2) ∷ function_id (pos 0) ∷ []))
pdu_of _ = some indication

abbrev pub decoders : Decoders
decoders = record {
  pdu = pdu_of;
  kpm_codec = record { decode_header = λ h. true; decode_message = λ m. some (some containers) };
  outcome = λ buf. some other_format;
}

abbrev app1 : App
app1 = (run platform json (adding (nodeb node)) new_app).0

abbrev app2 : App
app2 = (run platform json (adding (slice fast)) app1).0

abbrev app3 : App
app3 = (run platform json (binding_slice "fast" "gnB_001_001_000001") app2).0

abbrev app4 : App
app4 =
    (handle_rmr_message platform thousandths decoders (pos 9) MessageType.sub_resp (1 ∷ []) (pos 7)
      "123.2" app3).0

app4-Served : Served platform json thousandths decoders app4
app4-Served = message (pos 9) MessageType.sub_resp (1 ∷ []) (pos 7) "123.2" app3 (
    call (binding_slice "fast" "gnB_001_001_000001") app2
      (call (adding (slice fast)) app1 (call (adding (nodeb node)) new_app start)))

Served-IsTracked_example : IsTracked app4.e2ap
Served-IsTracked_example = Served-IsTracked platform thousandths decoders json app4 app4-Served

Served-Nodup_example : Nodup (ids app4.e2ap.outbox)
Served-Nodup_example = Served-Nodup platform thousandths decoders json app4 app4-Served

Served-IsCarried_example : All (IsCarried platform) app4.e2ap.outbox
Served-IsCarried_example = Served-IsCarried platform thousandths decoders json app4 app4-Served

Served-orders_example :
    let app5 = handle_slices platform thousandths (pos 130) report app4 in
    orders app5.e2ap.outbox
    ≡ orders app4.e2ap.outbox
      ++ told platform thousandths app4.nodebs (shares app4.slices) (shares app5.slices)
Served-orders_example =
    Served-orders platform thousandths decoders json encodes (pos 130) report app4 app4-Served

-- The indication of a handled message, if it is one.
abbrev taken : Option (Event Model) → Indication Model
taken (some (indicated ind)) = ind
taken _ = record {
  fields = no_fields;
  subscription_request = kpm_request "" app1.e2ap;
  model = none;
}

abbrev ind : Indication Model
unfolding handle_pdu
ind =
    taken
      (handle_pdu (models platform thousandths decoders (pos 9)) indication (pos 7) "" app4.e2ap).1

Served-indicated_example : Mem (subscribe ind.subscription_request) (handed app4.e2ap)
unfolding handle_pdu run handle_rmr_message decode_indication lookup_subscription find
    decode_subscription_response lookup_pending_subscription new_app put send_control_request
    encode_control send_subscription_request encode_subscription req_to_xid to_string response_of
Served-indicated_example =
    Served-indicated platform thousandths decoders json (pos 9) indication (pos 7) "" app4 ind
      app4-Served refl
