-- ===== src/E2ap/Decode/Walk.antt =====
-- What the decoders of lib/e2ap/src/e2ap.cc collect from the information elements of a message.
use nexran.Base.{List, [], ◌∷◌, ◌++◌}
use nexran.Base.Int.{ℤ, minus_one}
use nexran.E2sm.Types.{Bytes}
use nexran.E2ap.Types.{
  Ie, request_id, function_id, control_outcome, actions_admitted, actions_not_admitted, cause,
  action_id, indication_sn, indication_type, indication_header, indication_message,
}

-- What the walk over the elements collects; a buffer is empty until one of positive size is met.
pub record Fields : Type 0 where
  pub requestor_id : ℤ
  pub instance_id : ℤ
  pub function_id : ℤ
  pub cause : ℤ
  pub cause_detail : ℤ
  pub outcome : Bytes
  pub header : Bytes
  pub message : Bytes
  pub action_id : ℤ
  pub serial_number : ℤ
  pub indication_type : ℤ
  pub admitted : List ℤ
  pub not_admitted : List (ℤ × ℤ × ℤ)

-- The constructors start from -1.
abbrev pub no_fields : Fields
no_fields = record {
  requestor_id = minus_one;
  instance_id = minus_one;
  function_id = minus_one;
  cause = minus_one;
  cause_detail = minus_one;
  outcome = [];
  header = [];
  message = [];
  action_id = minus_one;
  serial_number = minus_one;
  indication_type = minus_one;
  admitted = [];
  not_admitted = [];
}

-- A buffer is taken only if its size is positive.
abbrev pub taken : Bytes → Bytes → Bytes
taken [] old = old
taken (b ∷ bs) old = b ∷ bs

abbrev pub walk {ℓ} : {A : Type ℓ} → (Ie → A → A) → List Ie → A → A
walk step [] a = a
walk step (ie ∷ ies) a = walk step ies (step ie a)

abbrev pub ids_step : Ie → Fields → Fields
ids_step (request_id r i) f = record f { requestor_id = r; instance_id = i }
ids_step (function_id n) f = record f { function_id = n }
ids_step _ f = f

unfoldable pub control_ack_step : Ie → Fields → Fields
control_ack_step (control_outcome b) f = record f { outcome = taken b f.outcome }
control_ack_step ie f = ids_step ie f

unfoldable pub control_failure_step : Ie → Fields → Fields
control_failure_step (control_outcome b) f = record f { outcome = taken b f.outcome }
control_failure_step (cause present detail) f = record f { cause = present; cause_detail = detail }
control_failure_step ie f = ids_step ie f

unfoldable pub indication_step : Ie → Fields → Fields
indication_step (action_id n) f = record f { action_id = n }
indication_step (indication_sn n) f = record f { serial_number = n }
indication_step (indication_type n) f = record f { indication_type = n }
indication_step (indication_header b) f = record f { header = taken b f.header }
indication_step (indication_message b) f = record f { message = taken b f.message }
indication_step ie f = ids_step ie f

unfoldable pub failure_step : Ie → Fields → Fields
failure_step (cause present detail) f = record f { cause = present; cause_detail = detail }
failure_step ie f = ids_step ie f

unfoldable pub subscription_response_step : Ie → Fields → Fields
subscription_response_step (actions_admitted ids) f = record f { admitted = f.admitted ++ ids }
subscription_response_step (actions_not_admitted l) f = record f {
  not_admitted = f.not_admitted ++ l;
}
subscription_response_step ie f = ids_step ie f
