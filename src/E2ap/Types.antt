-- ===== src/E2ap/Types.antt =====
-- The requests, responses and PDUs of lib/e2ap/include/e2ap.h.
use nexran.Base.{ℕ, String, List, Option}
use nexran.Base.Int.{ℤ}
use nexran.E2sm.Types.{Bytes, Control, SliceStatus}
use nexran.Kpm.Period.{KpmPeriod}

pub data AckRequest : Type 0 where
  no_ack ack nack : AckRequest

pub record ControlRequest : Type 0 where
  pub requestor_id : ℤ
  pub instance_id : ℤ
  pub function_id : ℤ
  pub meid : String
  pub control : Control
  pub ack_request : AckRequest

pub data ActionType : Type 0 where
  action_report action_insert action_policy : ActionType

-- `definition` is what it encodes to, if there is one.
pub record Action : Type 0 where
  pub id : ℤ
  pub action_type : ActionType
  pub definition : Option Bytes
  pub subsequent_action : ℤ

-- The trigger is the KPM model's, the only one that the program builds.
pub record SubscriptionRequest : Type 0 where
  pub requestor_id : ℤ
  pub instance_id : ℤ
  pub function_id : ℤ
  pub meid : String
  pub trigger : Option KpmPeriod
  pub actions : List Action

pub record SubscriptionDeleteRequest : Type 0 where
  pub requestor_id : ℤ
  pub instance_id : ℤ
  pub function_id : ℤ
  pub meid : String

pub record SubscriptionResponse : Type 0 where
  pub requestor_id : ℤ
  pub instance_id : ℤ
  pub function_id : ℤ
  pub actions_admitted : List ℤ
  pub actions_not_admitted : List (ℤ × ℤ × ℤ)
  pub req : SubscriptionRequest

-- `cause` and `cause_detail` are `none` where the constructor leaves them unset.
pub record SubscriptionFailure : Type 0 where
  pub requestor_id : ℤ
  pub instance_id : ℤ
  pub function_id : ℤ
  pub cause : Option ℤ
  pub cause_detail : Option ℤ
  pub req : SubscriptionRequest

pub record SubscriptionDeleteResponse : Type 0 where
  pub requestor_id : ℤ
  pub instance_id : ℤ
  pub function_id : ℤ
  pub req : SubscriptionDeleteRequest

pub record SubscriptionDeleteFailure : Type 0 where
  pub requestor_id : ℤ
  pub instance_id : ℤ
  pub function_id : ℤ
  pub cause : ℤ
  pub cause_detail : ℤ
  pub req : SubscriptionDeleteRequest

-- `req` is null until something sets it.
pub record ControlAck : Type 0 where
  pub requestor_id : ℤ
  pub instance_id : ℤ
  pub function_id : ℤ
  pub status : ℤ
  pub outcome : Option (List SliceStatus)
  pub req : Option ControlRequest

pub record ControlFailure : Type 0 where
  pub requestor_id : ℤ
  pub instance_id : ℤ
  pub function_id : ℤ
  pub cause : ℤ
  pub cause_detail : ℤ
  pub outcome : Option (List SliceStatus)
  pub req : Option ControlRequest

pub record ErrorIndication : Type 0 where
  pub requestor_id : ℤ
  pub instance_id : ℤ
  pub function_id : ℤ
  pub cause : ℤ
  pub cause_detail : ℤ

-- The procedure codes that the program tests; `other` stands for all the rest.
pub data Procedure : Type 0 where
  reset subscription subscription_delete control service_query : Procedure
  indication error_indication e2_setup service_update : Procedure
  other : ℕ → Procedure

-- A member of `RICaction-ToBeSetup-List`.
pub record ActionItem : Type 0 where
  pub id : ℤ
  pub action_type : ActionType
  pub definition : Option Bytes

-- The information elements of the messages that the program sends or reads.
pub data Ie : Type 0 where
  request_id : ℤ → ℤ → Ie
  function_id : ℤ → Ie
  call_process_id : Bytes → Ie
  control_header : Bytes → Ie
  control_message : Bytes → Ie
  control_ack_request : AckRequest → Ie
  control_outcome : Bytes → Ie
  subscription_details : Bytes → List ActionItem → Ie
  actions_admitted : List ℤ → Ie
  actions_not_admitted : List (ℤ × ℤ × ℤ) → Ie
  cause : ℤ → ℤ → Ie
  action_id : ℤ → Ie
  indication_sn : ℤ → Ie
  indication_type : ℤ → Ie
  indication_header : Bytes → Ie
  indication_message : Bytes → Ie
  criticality_diagnostics : Ie

-- `E2AP-PDU`.
pub data Pdu : Type 0 where
  initiating successful unsuccessful : Procedure → List Ie → Pdu
  absent : Pdu
