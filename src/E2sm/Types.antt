-- ===== src/E2sm/Types.antt =====
-- The messages of lib/e2sm/messages/e2sm-nexran-v01.00.asn1, and the classes of
-- lib/e2sm/include/e2sm_nexran.h that the program builds them from.
use nexran.Base.{ℕ, String, Bool, List, Option}
use nexran.Base.Int.{ℤ}

abbrev pub Bytes : Type 0
Bytes = List ℕ

-- `SliceConfig` with its `ProportionalAllocationPolicy`, of which `share` is all.
pub record SliceConfig : Type 0 where
  pub name : String
  pub share : ℤ

-- The five subclasses of `e2sm::Control`.
pub data Control : Type 0 where
  slice_config : List SliceConfig → Control
  slice_delete : List String → Control
  slice_status : List String → Control
  slice_ue_bind : String → List String → Control
  slice_ue_unbind : String → List String → Control

-- `E2SM-NexRAN-ControlHeader` holds one of these.
pub data MessageId : Type 0 where
  slice_config_id slice_delete_id slice_status_id slice_ue_bind_id slice_ue_unbind_id : MessageId

-- `E2SM-NexRAN-ControlMessage` of format 1.
pub data ControlMessage : Type 0 where
  slice_config_request : List SliceConfig → ControlMessage
  slice_delete_request : List String → ControlMessage
  slice_status_request : List String → ControlMessage
  slice_ue_bind_request : String → List String → ControlMessage
  slice_ue_unbind_request : String → List String → ControlMessage

-- `UeStatus` and `SliceStatus` as they are decoded: a text is empty where the buffer is null or of
-- size 0, and the C-RNTI is optional.
pub record UeStatusIe : Type 0 where
  pub imsi : String
  pub connected : Bool
  pub crnti : Option String

pub record SliceStatusIe : Type 0 where
  pub slice_name : String
  pub share : ℤ
  pub ue_list : List UeStatusIe

-- `E2SM-NexRAN-ControlOutcome`: of another format, of format 1 with another content, or a report.
pub data OutcomePdu : Type 0 where
  other_format other_content : OutcomePdu
  slice_status_report : List SliceStatusIe → OutcomePdu

-- `E2SM-NexRAN-IndicationMessage`: a report of slices, or another choice.
pub data IndicationPdu : Type 0 where
  other_message : IndicationPdu
  slice_status_message : List SliceStatusIe → IndicationPdu

-- The classes `UeStatus` and `SliceStatus`.
pub record UeStatus : Type 0 where
  pub imsi : String
  pub connected : Bool
  pub crnti : String

pub record SliceStatus : Type 0 where
  pub name : String
  pub share : ℤ
  pub ue_list : List UeStatus
