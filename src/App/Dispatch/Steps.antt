-- ===== src/App/Dispatch/Steps.antt =====
-- RMR messages as steps of `App`, src/nexran.cc.
use nexran.Base.{
  ◌≡◌, refl, String, Bool, true, false, Bool-cases, Option-cases, inl, inr, Option, none, some,
  arith, ◌&&◌, if◌then◌else◌,
}
use nexran.Base.{string_key}
use nexran.Base.Int.{ℤ, int_key}
use nexran.E2sm.Types.{Bytes}
use nexran.Resource.Json.{Json}
use nexran.Resource.Error.{ok, fault}
use nexran.E2ap.Types.{Pdu, initiating, successful, unsuccessful, absent, Procedure}
use nexran.E2ap.State.{Platform, E2ap, lookup_subscription}
use nexran.E2ap.Decode.{decode_indication}
use nexran.E2ap.Handle.{
  Event, indicated, error_indicated, Models, handle_message, handle_pdu, handle_initiating,
  handle_successful, handle_unsuccessful, decode_pdu, on,
}
use nexran.App.Types.{App}
use nexran.App.Equalize.Float.{FloatOps}
use nexran.App.Reach.{Reach, step, kpm_step, e2_step}
use nexran.App.Dispatch.{
  MessageType, is_supported, Model, kpm, crashed, Decoders, models, handle_indication, handle_event,
  handle_rmr_message,
}

abbrev pub is_indicated : {M : Type 0} → Option (Event M) → Bool
is_indicated none = false
is_indicated (some (indicated ind)) = true
is_indicated (some ev) = false

abbrev pub is_error : {M : Type 0} → Option (Event M) → Bool
is_error none = false
is_error (some (error_indicated ei)) = true
is_error (some ev) = false

abbrev pub is_error_indication : Option Pdu → Bool
is_error_indication (some (initiating Procedure.error_indication ies)) = true
is_error_indication _ = false

module _ {M : Type 0} (models : Models M) where
  -- Without a subscription no message is an indication to the application.
  handle_pdu-unsubscribed :
      (pdu : Pdu) (subid : ℤ) (xid : String) (e : E2ap)
      → lookup_subscription subid e ≡ none
      → is_indicated (handle_pdu models pdu subid xid e).1 ≡ false
  unfolding handle_pdu handle_initiating decode_indication handle_successful handle_unsuccessful
  handle_pdu-unsubscribed (initiating Procedure.indication ies) subid xid e h = ground arith
  handle_pdu-unsubscribed (initiating p ies) subid xid e h = ground arith
  handle_pdu-unsubscribed (successful p ies) subid xid e h = ground arith
  handle_pdu-unsubscribed (unsuccessful p ies) subid xid e h = ground arith
  handle_pdu-unsubscribed absent subid xid e h = refl

  -- The application is told of an error if and only if the message is an error indication.
  handle_pdu-error :
      (pdu : Pdu) (subid : ℤ) (xid : String) (e : E2ap)
      → is_error (handle_pdu models pdu subid xid e).1 ≡ is_error_indication (some pdu)
  unfolding handle_pdu handle_initiating handle_successful handle_unsuccessful
  handle_pdu-error (initiating p ies) subid xid e = ground arith
  handle_pdu-error (successful p ies) subid xid e = ground arith
  handle_pdu-error (unsuccessful p ies) subid xid e = ground arith
  handle_pdu-error absent subid xid e = refl

  handle_message-error :
      (aper_decode : Bytes → Option Pdu) (buf : Bytes) (subid : ℤ) (xid : String) (e : E2ap)
      → is_error (handle_message models aper_decode buf subid xid e).1
        ≡ is_error_indication (decode_pdu aper_decode buf)
  unfolding handle_message
  handle_message-error aper_decode buf subid xid e =
      elim (Option-cases (decode_pdu aper_decode buf)) [
        | inl n ↦ rw (n) refl
        | inr (pdu, s) ↦ rw (s) (handle_pdu-error pdu subid xid e)
      ]

  handle_message-unsubscribed :
      (aper_decode : Bytes → Option Pdu) (buf : Bytes) (subid : ℤ) (xid : String) (e : E2ap)
      → lookup_subscription subid e ≡ none
      → is_indicated (handle_message models aper_decode buf subid xid e).1 ≡ false
  unfolding handle_message
  handle_message-unsubscribed aper_decode buf subid xid e h =
      elim (Option-cases (decode_pdu aper_decode buf)) [
        | inl n ↦ rw (n) refl
        | inr (pdu, s) ↦ rw (s) (handle_pdu-unsubscribed pdu subid xid e h)
      ]

module _ (platform : Platform) (json : Json) (ops : FloatOps) (decoders : Decoders) where
  handle_event-Reach :
      (now : ℤ) (event : Option (Event Model)) (app : App)
      → Reach platform json ops app
      → Reach platform json ops
          (on event (app, ok tt) (λ ev. handle_event platform ops decoders now ev app)).0
  unfolding handle_event handle_indication
  handle_event-Reach now none app r = r
  handle_event-Reach now (some (indicated ind)) app r = elim (Option-cases ind.model) [
    | inl n ↦ rw (n) r
    | inr (kpm none, s) ↦ rw (s) r
    | inr (kpm (some report), s) ↦ rw (s) (step app _ r (kpm_step now report app))
    | inr (crashed, s) ↦ rw (s) r
  ]
  handle_event-Reach now (some (error_indicated ei)) app r = r
  handle_event-Reach now (some ev) app r = r

  -- From a state that is reached every RMR message, of any type and content, leads to one.
  pub handle_rmr_message-Reach :
      (now : ℤ) (mtype : MessageType) (buf : Bytes) (subid : ℤ) (xid : String) (app : App)
      → Reach platform json ops app
      → Reach platform json ops
          (handle_rmr_message platform ops decoders now mtype buf subid xid app).0
  unfolding handle_rmr_message
  handle_rmr_message-Reach now mtype buf subid xid app r = elim (Bool-cases (is_supported mtype)) [
    | inl y ↦
        let (e, event) =
          handle_message (models platform ops decoders now) decoders.pdu buf subid xid app.e2ap in
        rw (y)
          (handle_event-Reach now event (record app { e2ap = e }) (step app _ r (e2_step e app)))
    | inr n ↦ rw (n) r
  ]

  handle_event-unindicated :
      (now : ℤ) (event : Option (Event Model)) (app : App)
      → is_indicated event ≡ false
      → on event (app, ok tt) (λ ev. handle_event platform ops decoders now ev app)
        ≡ (app, if is_error event then fault else ok tt)
  unfolding handle_event
  handle_event-unindicated now none app h = refl
  handle_event-unindicated now (some (indicated ind)) app h = absurd (ground (arith, h))
  handle_event-unindicated now (some (error_indicated ei)) app h = refl
  handle_event-unindicated now (some ev) app h = refl

  -- A message whose subid has no subscription changes no node, slice or UE. It crashes the program if
  -- it is an error indication, of a type that is taken, and in no other case.
  pub handle_rmr_message-unsubscribed :
      (now : ℤ) (mtype : MessageType) (buf : Bytes) (subid : ℤ) (xid : String) (app : App)
      → lookup_subscription subid app.e2ap ≡ none
      → let (app', result) = handle_rmr_message platform ops decoders now mtype buf subid xid app in
        (app'.nodebs ≡ app.nodebs)
        × (app'.slices ≡ app.slices)
        × (app'.ues ≡ app.ues)
        × (result ≡ (
            if is_supported mtype && is_error_indication (decode_pdu decoders.pdu buf)
            then fault
            else ok tt))
  unfolding handle_rmr_message
  handle_rmr_message-unsubscribed now mtype buf subid xid app h =
      let ms = models platform ops decoders now in
      elim (Bool-cases (is_supported mtype)) [
        | inl y ↦
            let (e, event) = handle_message ms decoders.pdu buf subid xid app.e2ap in
            rw
              (
                y,
                handle_event-unindicated now event (record app { e2ap = e })
                    (handle_message-unsubscribed ms decoders.pdu buf subid xid app.e2ap h),
                handle_message-error ms decoders.pdu buf subid xid app.e2ap,
              )
              (refl, refl, refl, refl)
        | inr n ↦ rw (n) (refl, refl, refl, refl)
      ]
