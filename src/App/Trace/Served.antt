-- ===== src/App/Trace/Served.antt =====
-- The RMR messages of src/nexran.cc as rows of operations on the tracker, and the states that calls and
-- messages reach from the start of the program.
use nexran.Base.{String, Option-cases, inl, inr, List, [], ◌∷◌, Option, none, some, string_key}
use nexran.Base.Int.{ℤ}
use nexran.E2sm.Types.{Bytes}
use nexran.Kpm.Report.{KpmReport}
use nexran.Resource.Json.{Json}
use nexran.Resource.Error.{ok}
use nexran.E2ap.State.{Platform, E2ap, new_e2ap}
use nexran.E2ap.Handle.{Event, indicated, error_indicated, handle_message, decode_pdu, on}
use nexran.App.Types.{App, new_app}
use nexran.App.Equalize.Float.{FloatOps}
use nexran.App.Equalize.Handle.{prepare, handle_slices, handle_kpm}
use nexran.App.Call.{Call, run}
use nexran.App.Dispatch.{
  MessageType, is_supported, Decoders, Model, kpm, crashed, models, handle_event, handle_indication,
  handle_rmr_message,
}
use nexran.App.Trace.{Moves, none_yet, receives, one, Moves_trans, apply-Moves}
use nexran.App.Trace.Calls.{Does, tested, run-Moves}

module _ (platform : Platform) (json : Json) (ops : FloatOps) (decoders : Decoders) where
  reported :
      {V : Type 0} (slices : List V) (app app' : App)
      → Does platform json ops decoders app app'
      → Does platform json ops decoders app
          (elim slices as (λ z. App) [ [] ↦ app | first ∷ more ↦ app' ])
  reported [] app app' d = none_yet
  reported (v ∷ vs) app app' d = d

  handle_kpm-Moves :
      (now : ℤ) (report : KpmReport) (app : App)
      → Does platform json ops decoders app (handle_kpm platform ops now report app)
  unfolding handle_kpm handle_slices
  handle_kpm-Moves now report app =
      let (slices1, factors) = prepare platform ops now report app.slices in
      reported report.slices app _
        (apply-Moves platform ops decoders app.nodebs factors slices1 app.e2ap)

  handle_event-Moves :
      (now : ℤ) (event : Option (Event Model)) (app : App)
      → Does platform json ops decoders app
          (on event (app, ok tt) (λ ev. handle_event platform ops decoders now ev app)).0
  unfolding handle_event handle_indication
  handle_event-Moves now none app = none_yet
  handle_event-Moves now (some (indicated ind)) app = elim (Option-cases ind.model) [
    | inl n ↦ rw (n) none_yet
    | inr (kpm none, s) ↦ rw (s) none_yet
    | inr (kpm (some report), s) ↦ rw (s) (handle_kpm-Moves now report app)
    | inr (crashed, s) ↦ rw (s) none_yet
  ]
  handle_event-Moves now (some (error_indicated ei)) app = none_yet
  handle_event-Moves now (some ev) app = none_yet

  handle_message-Moves :
      (now : ℤ) (buf : Bytes) (subid : ℤ) (xid : String) (e : E2ap)
      → Moves platform ops decoders e
          (handle_message (models platform ops decoders now) decoders.pdu buf subid xid e).0
  unfolding handle_message
  handle_message-Moves now buf subid xid e = elim (Option-cases (decode_pdu decoders.pdu buf)) [
    | inl n ↦ rw (n, handle_message) none_yet
    | inr (pdu, s) ↦
        rw (s, handle_message) (one platform ops decoders e _ (receives now pdu subid xid e))
  ]

  handle_rmr_message-Moves :
      (now : ℤ) (mtype : MessageType) (buf : Bytes) (subid : ℤ) (xid : String) (app : App)
      → Does platform json ops decoders app
          (handle_rmr_message platform ops decoders now mtype buf subid xid app).0
  unfolding handle_rmr_message
  handle_rmr_message-Moves now mtype buf subid xid app =
      let (e, event) =
        handle_message (models platform ops decoders now) decoders.pdu buf subid xid app.e2ap in
      tested platform json ops decoders (is_supported mtype) app _ _
        (Moves_trans platform ops decoders app.e2ap e _
          (handle_message-Moves now buf subid xid app.e2ap)
          (handle_event-Moves now event (record app { e2ap = e })))
        none_yet

  -- The states of `App` that the program reaches: calls of the REST interface and RMR messages, in any
  -- order, from the constructor on.
  pub data Served : App → Type 0 where
    start : Served new_app
    call : (c : Call platform json) (app : App) → Served app → Served (run platform json c app).0
    message :
        (now : ℤ) (mtype : MessageType) (buf : Bytes) (subid : ℤ) (xid : String) (app : App)
        → Served app
        → Served (handle_rmr_message platform ops decoders now mtype buf subid xid app).0

  -- In such a state the tracker is one that its own operations lead to from a new one, with requests as
  -- `App` numbers them.
  pub Served-Moves : (app : App) → Served app → Moves platform ops decoders new_e2ap app.e2ap
  unfolding new_app
  Served-Moves _ start = none_yet
  Served-Moves _ (call c app s) =
      Moves_trans platform ops decoders new_e2ap app.e2ap _ (Served-Moves app s)
        (run-Moves platform json ops decoders c app)
  Served-Moves _ (message now mtype buf subid xid app s) =
      Moves_trans platform ops decoders new_e2ap app.e2ap _ (Served-Moves app s)
        (handle_rmr_message-Moves now mtype buf subid xid app)
