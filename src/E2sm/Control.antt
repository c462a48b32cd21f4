-- ===== src/E2sm/Control.antt =====
-- The `encode` methods of the controls, lib/e2sm/src/e2sm_nexran.cc.
use nexran.Base.{Bool, true, List, [], Option, none, some, String}
use nexran.E2sm.Types.{
  Bytes, SliceConfig, Control, slice_config, slice_delete, slice_status, slice_ue_bind,
  slice_ue_unbind, MessageId, slice_config_id, slice_delete_id, slice_status_id, slice_ue_bind_id,
  slice_ue_unbind_id, ControlMessage, slice_config_request, slice_delete_request,
  slice_status_request, slice_ue_bind_request, slice_ue_unbind_request,
}

-- The codec that asn1c generates from the ASN.1 module: `none` where it fails.
pub record Codec : Type 0 where
  pub encode_header : MessageId → Option Bytes
  pub encode_message : ControlMessage → Option Bytes

-- `header` and `message` of a control; an empty buffer is null.
pub record Buffers : Type 0 where
  pub header : Bytes
  pub message : Bytes

abbrev pub no_buffers : Buffers
no_buffers = record { header = []; message = [] }

module _ (codec : Codec) where
  open codec use {encode_header, encode_message}

  -- The end that the `encode` methods share. They `return 1`, which is true, also on a failure.
  unfoldable pub encode_parts : MessageId → ControlMessage → Buffers × Bool
  encode_parts id m = elim (encode_header id) [
    | none ↦ (no_buffers, true)
    | some h ↦ elim (encode_message m) [
      | none ↦ (no_buffers, true)
      | some b ↦ (record { header = h; message = b }, true)
    ]
  ]

  unfoldable pub encode_slice_config : List SliceConfig → Buffers × Bool
  unfolding encode_parts
  encode_slice_config configs = encode_parts slice_config_id (slice_config_request configs)

  unfoldable pub encode_slice_delete : List String → Buffers × Bool
  unfolding encode_parts
  encode_slice_delete names = encode_parts slice_delete_id (slice_delete_request names)

  unfoldable pub encode_slice_status : List String → Buffers × Bool
  unfolding encode_parts
  encode_slice_status names = encode_parts slice_status_id (slice_status_request names)

  unfoldable pub encode_slice_ue_bind : String → List String → Buffers × Bool
  unfolding encode_parts
  encode_slice_ue_bind slice imsis =
      encode_parts slice_ue_bind_id (slice_ue_bind_request slice imsis)

  unfoldable pub encode_slice_ue_unbind : String → List String → Buffers × Bool
  unfolding encode_parts
  encode_slice_ue_unbind slice imsis =
      encode_parts slice_ue_unbind_id (slice_ue_unbind_request slice imsis)

  -- The virtual call `control->encode()`.
  unfoldable pub encode : Control → Buffers × Bool
  unfolding encode_slice_config encode_slice_delete encode_slice_status encode_slice_ue_bind
      encode_slice_ue_unbind
  encode (slice_config configs) = encode_slice_config configs
  encode (slice_delete names) = encode_slice_delete names
  encode (slice_status names) = encode_slice_status names
  encode (slice_ue_bind slice imsis) = encode_slice_ue_bind slice imsis
  encode (slice_ue_unbind slice imsis) = encode_slice_ue_unbind slice imsis
