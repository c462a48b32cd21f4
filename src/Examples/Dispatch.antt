-- ===== src/Examples/Dispatch.antt =====
-- The properties of the dispatch of RMR messages at an error indication.
use nexran.Base.{◌≡◌, refl, true, [], ◌∷◌, some}
use nexran.Base.Int.{pos}
use nexran.Base.Map.{find}
use nexran.E2sm.Types.{other_format}
use nexran.Resource.Error.{fault}
use nexran.E2ap.Types.{initiating, Procedure, indication_header, indication_message}
use nexran.E2ap.State.{E2ap, new_e2ap, lookup_subscription}
use nexran.E2ap.Handle.{decode_pdu}
use nexran.App.Types.{App, init}
use nexran.App.Dispatch.{MessageType, is_supported, Decoders, handle_rmr_message}
use nexran.App.Dispatch.Steps.{handle_rmr_message-unsubscribed}
use nexran.Examples.{json, platform, thousandths}
use nexran.Examples.E2ap.{answer}
use nexran.Examples.Kpm.{containers}

-- Every message is an indication with a report on the slice "fast".
abbrev decoders : Decoders
decoders = record {
  pdu = λ buf. some (
      initiating Procedure.indication
        (indication_header (1 ∷ []) ∷ indication_message (2 ∷ []) ∷ []));
  kpm_codec = record { decode_header = λ h. true; decode_message = λ m. some (some containers) };
  outcome = λ buf. some other_format;
}

-- Subscription 7 is established.
abbrev subscribed : E2ap
subscribed = record new_e2ap { subscriptions = (pos 7, answer) ∷ [] }

-- Every message is an error indication.
abbrev erring : Decoders
erring = record decoders { pdu = λ buf. some (initiating Procedure.error_indication []) }

abbrev ready : App
ready = record (init 1) { e2ap = subscribed }

handle_rmr_message-unsubscribed_example :
    let (app', result) =
      handle_rmr_message platform thousandths erring
        (pos 9)
        MessageType.indication
        (3 ∷ [])
        (pos 8)
        ""
        ready in
    (app'.nodebs ≡ ready.nodebs)
    × (app'.slices ≡ ready.slices)
    × (app'.ues ≡ ready.ues)
    × (result ≡ fault)
unfolding lookup_subscription find decode_pdu is_supported
handle_rmr_message-unsubscribed_example =
    handle_rmr_message-unsubscribed platform json thousandths erring (pos 9) MessageType.indication
      (3 ∷ []) (pos 8) "" ready refl
