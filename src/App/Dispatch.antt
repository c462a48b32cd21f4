-- ===== src/App/Dispatch.antt =====
-- `App::handle_rmr_message` and the handlers of the agent interface, src/nexran.cc: what an RMR message
-- does to the application.
pub mod Steps
use nexran.Base.{ℕ, String, Bool, true, false, Option, none, some, if◌then◌else◌}
use nexran.Base.Int.{ℤ}
use nexran.E2sm.Types.{Bytes, OutcomePdu}
use nexran.E2sm.Status
use nexran.Kpm.Report.{KpmReport}
use nexran.Kpm.Decode
use nexran.Kpm.Decode.{KpmCodec}
use nexran.Resource.Error.{Result, ok, err, fault}
use nexran.E2ap.Types.{Pdu}
use nexran.E2ap.State.{Platform, E2ap}
use nexran.E2ap.Decode.{Indication}
use nexran.E2ap.Handle.{
  Event, subscribed, subscription_failed, unsubscribed, unsubscription_failed, acknowledged,
  control_failed, indicated, error_indicated, Models, handle_message, on,
}
use nexran.App.Types.{App, Outcome}
use nexran.App.Equalize.Float.{FloatOps}
use nexran.App.Equalize.Handle.{handle_kpm}

-- The types of RMR messages that `handle_rmr_message` takes; `other` stands for all the rest.
pub data MessageType : Type 0 where
  sub_req sub_resp sub_failure sub_del_req sub_del_resp sub_del_failure : MessageType
  service_update service_update_ack service_update_failure : MessageType
  control_req control_ack control_failure indication service_query : MessageType
  other : ℕ → MessageType

unfoldable pub is_supported : MessageType → Bool
is_supported (other n) = false
is_supported _ = true

-- A `KpmIndication`, whose report may be NULL, or the crash of its decoder.
pub data Model : Type 0 where
  kpm : Option KpmReport → Model
  crashed : Model

-- What asn1c decodes.
pub record Decoders : Type 0 where
  pub pdu : Bytes → Option Pdu
  pub kpm_codec : KpmCodec
  pub outcome : Bytes → Option OutcomePdu

abbrev pub decoded : Result (Option KpmReport) → Option Model
decoded (ok report) = some (kpm report)
decoded (err e) = none
decoded fault = some crashed

module _ (platform : Platform) (ops : FloatOps) (decoders : Decoders) where
  -- The models' decoders, where the KPM model is the one that a subscription's trigger has.
  unfoldable pub models : ℤ → Models Model
  unfolding Decode.decode Status.decode_outcome Status.decode_failure_outcome
  models now = record {
    decode_outcome = Status.decode_outcome decoders.outcome;
    decode_failure_outcome = Status.decode_failure_outcome decoders.outcome;
    decode_indication = λ req header message.
        decoded (Decode.decode decoders.kpm_codec now req.trigger header message);
  }

  -- The handler of an indication; it prints the report before it looks at it.
  unfoldable pub handle_indication : ℤ → Indication Model → App → Outcome (Unit {0})
  unfolding handle_kpm
  handle_indication now ind app = elim ind.model [
    | none ↦ (app, ok tt)
    | some (kpm none) ↦ (app, fault)
    | some (kpm (some report)) ↦ (handle_kpm platform ops now report app, ok tt)
    | some crashed ↦ (app, fault)
  ]

  -- The other handlers only log. That of an error indication ends without a `return`, and
  -- `handle_message` uses its value, which is undefined.
  unfoldable pub handle_event : ℤ → Event Model → App → Outcome (Unit {0})
  unfolding handle_indication
  handle_event now (indicated ind) app = handle_indication now ind app
  handle_event now (error_indicated ei) app = (app, fault)
  handle_event now _ app = (app, ok tt)

  unfoldable pub handle_rmr_message :
      ℤ → MessageType → Bytes → ℤ → String → App → Outcome (Unit {0})
  unfolding is_supported handle_message handle_event models
  handle_rmr_message now mtype buf subid xid app =
      if is_supported mtype
      then (let (e, event) = handle_message (models now) decoders.pdu buf subid xid app.e2ap in
          let app1 = record app { e2ap = e } in
          on event (app1, ok tt) (λ ev. handle_event now ev app1))
      else (app, ok tt)
