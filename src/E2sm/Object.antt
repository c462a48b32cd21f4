-- ===== src/E2sm/Object.antt =====
-- The objects of lib/e2sm/include/e2sm.h that encode themselves when a getter is called for the first
-- time, with the `encode` methods of lib/e2sm/src/e2sm_nexran.cc and lib/e2sm/src/e2sm_kpm.cc. One
-- control object serves the requests to all nodes.
pub mod Getters
use nexran.Base.{Bool, true, false, List, [], ◌∷◌, Option, none, some, if◌then◌else◌}
use nexran.Base.Int.{ℤ, minus_one}
use nexran.E2sm.Types.{
  Bytes, Control, slice_config, slice_delete, slice_status, slice_ue_bind, slice_ue_unbind,
  MessageId, slice_config_id, slice_delete_id, slice_status_id, slice_ue_bind_id,
  slice_ue_unbind_id, ControlMessage, slice_config_request, slice_delete_request,
  slice_status_request, slice_ue_bind_request, slice_ue_unbind_request,
}
use nexran.E2sm.Control.{Codec}

-- `e2sm::Control`; an empty buffer is a null pointer of length 0.
pub record ControlObject : Type 0 where
  pub control : Control
  pub header : Bytes
  pub message : Bytes
  pub call_process_id : Bytes
  pub encoded : Bool

unfoldable pub new_object : Control → ControlObject
new_object control = record {
  control = control;
  header = [];
  message = [];
  call_process_id = [];
  encoded = false;
}

-- What each subclass fills in.
abbrev pub header_of : Control → MessageId
header_of (slice_config configs) = slice_config_id
header_of (slice_delete names) = slice_delete_id
header_of (slice_status names) = slice_status_id
header_of (slice_ue_bind slice imsis) = slice_ue_bind_id
header_of (slice_ue_unbind slice imsis) = slice_ue_unbind_id

abbrev pub message_of : Control → ControlMessage
message_of (slice_config configs) = slice_config_request configs
message_of (slice_delete names) = slice_delete_request names
message_of (slice_status names) = slice_status_request names
message_of (slice_ue_bind slice imsis) = slice_ue_bind_request slice imsis
message_of (slice_ue_unbind slice imsis) = slice_ue_unbind_request slice imsis

module _ (codec : Codec) where
  open codec use {encode_header, encode_message}

  -- `encode`; on a failure of the message the header is freed.
  unfoldable pub encode_object : ControlObject → ControlObject × Bool
  encode_object o = if o.encoded then (o, true) else (elim (encode_header (header_of o.control)) [
    | none ↦ (record o { header = [] }, true)
    | some h ↦ elim (encode_message (message_of o.control)) [
      | none ↦ (record o { header = [] }, true)
      | some m ↦ (record o { header = h; message = m; encoded = true }, true)
    ]
  ])

  -- `if (!encoded) encode();` of the getters.
  unfoldable pub ensure_encoded : ControlObject → ControlObject
  unfolding encode_object
  ensure_encoded o = if o.encoded then o else (encode_object o).0

  unfoldable pub get_header : ControlObject → ControlObject × Bytes
  unfolding ensure_encoded
  get_header o = let o' = ensure_encoded o in (o', o'.header)

  unfoldable pub get_message : ControlObject → ControlObject × Bytes
  unfolding ensure_encoded
  get_message o = let o' = ensure_encoded o in (o', o'.message)

  unfoldable pub get_call_process_id : ControlObject → ControlObject × Bytes
  unfolding ensure_encoded
  get_call_process_id o = let o' = ensure_encoded o in (o', o'.call_process_id)

-- `e2sm::EventTrigger`, over what a subclass keeps of its own.
pub record TriggerObject (D : Type 0) : Type 0 where
  pub definition : D
  pub buf : Bytes
  pub encoded : Bool

unfoldable pub new_trigger : {D : Type 0} → D → TriggerObject D
new_trigger definition = record { definition = definition; buf = []; encoded = false }

-- `EventTrigger::encode` of both models: `aper` is what asn1c makes of the definition.
unfoldable pub encode_trigger :
    {D : Type 0} → (D → Option Bytes) → TriggerObject D → TriggerObject D × Bool
encode_trigger aper t = if t.encoded then (t, true) else (elim (aper t.definition) [
  | none ↦ (record t { buf = [] }, false)
  | some b ↦ (record t { buf = b; encoded = true }, true)
])

unfoldable pub get_buf :
    {D : Type 0} → (D → Option Bytes) → TriggerObject D → TriggerObject D × Bytes
unfolding encode_trigger
get_buf aper t = let t' = if t.encoded then t else (encode_trigger aper t).0 in (t', t'.buf)

-- The NexRAN model's trigger: on events, or with a period.
pub data TriggerDefinition : Type 0 where
  ran_event : TriggerDefinition
  period_definition : ℤ → TriggerDefinition

unfoldable pub nexran_definition : ℤ → Bool → TriggerDefinition
nexran_definition period on_events = if on_events then ran_event else period_definition period

-- The two constructors.
unfoldable pub event_trigger : Option ℤ → TriggerDefinition
unfolding nexran_definition
event_trigger none = nexran_definition minus_one true
event_trigger (some period) = nexran_definition period false
