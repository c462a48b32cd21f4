-- ===== src/E2sm/Status.antt =====
-- `decode_slice_status_report` and the decoding of control outcomes and indications,
-- lib/e2sm/src/e2sm_nexran.cc.
use nexran.Base.{Bool, if◌then◌else◌, String, List, [], ◌∷◌, Option, none, some, map}
use nexran.E2sm.Types.{
  Bytes, UeStatusIe, SliceStatusIe, OutcomePdu, other_format, other_content, slice_status_report,
  IndicationPdu, other_message, slice_status_message, UeStatus, SliceStatus,
}

abbrev pub text_or_empty : Option String → String
text_or_empty none = ""
text_or_empty (some s) = s

unfoldable pub decode_ue_status : UeStatusIe → UeStatus
decode_ue_status u = record {
  imsi = u.imsi;
  connected = u.connected;
  crnti = text_or_empty u.crnti;
}

unfoldable pub decode_slice_status_report : List SliceStatusIe → List SliceStatus
unfolding decode_ue_status
decode_slice_status_report [] = []
decode_slice_status_report (s ∷ ss) =
    record { name = s.slice_name; share = s.share; ue_list = map decode_ue_status s.ue_list }
    ∷ decode_slice_status_report ss

-- `NexRANModel::decode` of an acknowledgement. `aper_decode` is asn1c's.
unfoldable pub decode_outcome : (Bytes → Option OutcomePdu) → Bytes → Option (List SliceStatus)
decode_outcome aper_decode [] = none
decode_outcome aper_decode (b ∷ bs) = elim (aper_decode (b ∷ bs)) [
  | none ↦ none
  | some other_format ↦ none
  | some other_content ↦ none
  | some (slice_status_report ss) ↦ some (decode_slice_status_report ss)
]

-- `NexRANModel::decode` of a failure, which is written out again with the same tests.
unfoldable pub decode_failure_outcome :
    (Bytes → Option OutcomePdu) → Bytes → Option (List SliceStatus)
unfolding decode_slice_status_report
decode_failure_outcome aper_decode [] = none
decode_failure_outcome aper_decode (b ∷ bs) = elim (aper_decode (b ∷ bs)) [
  | none ↦ none
  | some other_format ↦ none
  | some other_content ↦ none
  | some (slice_status_report ss) ↦ some (decode_slice_status_report ss)
]

-- `NexRANModel::decode` of an indication: both parts are decoded as far as they are there, and then
-- both are required. `decode_header` and `decode_message` are asn1c's.
unfoldable pub decode_indication :
    (Bytes → Bool) → (Bytes → Option IndicationPdu) → Bytes → Bytes → Option (List SliceStatus)
unfolding decode_slice_status_report
decode_indication decode_header decode_message [] message = none
decode_indication decode_header decode_message (h ∷ header) [] = none
decode_indication decode_header decode_message (h ∷ header) (b ∷ message) =
    if decode_header (h ∷ header)
    then (elim (decode_message (b ∷ message)) [
      | none ↦ none
      | some other_message ↦ none
      | some (slice_status_message ss) ↦ some (decode_slice_status_report ss)
    ])
    else none
