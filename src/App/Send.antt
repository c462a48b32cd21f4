-- ===== src/App/Send.antt =====
-- The control and subscription requests that `App` makes, src/nexran.cc.
pub mod Fanout
use nexran.Base.{String, [], ◌∷◌, none, some, if◌then◌else◌}
use nexran.Base.Int.{pos, minus_one}
use nexran.Base.Map.{Map}
use nexran.E2sm.Types.{Control, slice_config}
use nexran.E2ap.Types.{ControlRequest, ack, Action, action_report, SubscriptionRequest}
use nexran.E2ap.State.{
  Platform, E2ap, get_next_instance_id, send_control_request, send_subscription_request,
}
use nexran.Kpm.Period.{ms5120}
use nexran.Resource.Slice.{Slice}
use nexran.Resource.NodeB.{NodeB, is_slice_bound}

module _ (platform : Platform) where
  -- `make_shared<ControlRequest>(…)`, `set_meid` and `send_control_request`, whose result no caller
  -- looks at.
  unfoldable pub send_control : Control → String → E2ap → E2ap
  unfolding get_next_instance_id
  send_control control meid e =
      let (e1, id) = get_next_instance_id e in
      let req : ControlRequest = record {
        requestor_id = e1.requestor_id;
        instance_id = id;
        function_id = pos 1;
        meid = meid;
        control = control;
        ack_request = ack;
      } in
      (send_control_request platform req meid e1).0

  -- The loop over the nodes that a slice is bound to: one request each, in the order of their names.
  unfoldable pub send_to_bound : String → Control → Map String NodeB → E2ap → E2ap
  unfolding is_slice_bound
  send_to_bound slice_name control [] e = e
  send_to_bound slice_name control ((k, nb) ∷ nodebs) e =
      send_to_bound slice_name control nodebs
        (if is_slice_bound slice_name nb then send_control control nb.name e else e)

  -- The subscription to KPM reports of a new node.
  unfoldable pub subscribe_kpm : String → E2ap → E2ap
  unfolding get_next_instance_id
  subscribe_kpm meid e =
      let (e1, id) = get_next_instance_id e in
      let action : Action = record {
        id = pos 1;
        action_type = action_report;
        definition = none;
        subsequent_action = minus_one;
      } in
      let req : SubscriptionRequest = record {
        requestor_id = e1.requestor_id;
        instance_id = id;
        function_id = pos 0;
        meid = meid;
        trigger = some ms5120;
        actions = action ∷ [];
      } in
      (send_subscription_request platform req meid e1).0

-- The request that tells nodes a slice's share.
abbrev pub share_control : Slice → Control
share_control s = slice_config (record { name = s.name; share = s.allocation_policy.share } ∷ [])
