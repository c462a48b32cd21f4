-- ===== src/Examples/E2ap.antt =====
-- The properties of the request tracker at a subscription and its messages.
use nexran.Base.{◌≡◌, ◌≢◌, refl, false, List, [], ◌∷◌, none, some, string_key}
use nexran.Base.Int.{ℤ, pos, minus_one, int_key, ◌≤ℤ◌}
use nexran.Base.Map.{find}
use nexran.Base.Text.{to_string}
use nexran.E2sm.Types.{slice_delete}
use nexran.Kpm.Period.{ms5120}
use nexran.E2ap.Types.{
  ControlRequest, ack, action_report, SubscriptionRequest, SubscriptionResponse,
  SubscriptionDeleteRequest, Ie, Procedure, initiating, successful, unsuccessful, request_id,
  function_id,
}
use nexran.E2ap.State.{
  E2ap, new_e2ap, req_to_xid, send_subscription_request, lookup_subscription,
  lookup_pending_subscription, lookup_pending_subscription_delete, delete_all_subscriptions,
}
use nexran.E2ap.State.Deletes.{xid_of, delete_all_subscriptions_lem}
use nexran.E2ap.Decode.{Indication, response_of, decode_indication, no_fields}
use nexran.E2ap.Handle.{Models, handle_pdu, handle_initiating, subscribed}
use nexran.E2ap.Handle.Lifecycle.{
  controls-handle_pdu, subscription_response_lem, delete_response_lem, subscription_failure_blocks,
  indication_lem,
}
use nexran.Examples.{platform, encodes_delete}

abbrev models : Models ℤ
models = record {
  decode_outcome = λ b. none;
  decode_failure_outcome = λ b. none;
  decode_indication = λ req header message. some (pos 9);
}

abbrev order : ControlRequest
order = record {
  requestor_id = pos 123;
  instance_id = pos 1;
  function_id = pos 1;
  meid = "node";
  control = slice_delete ("fast" ∷ []);
  ack_request = ack;
}

abbrev wish : SubscriptionRequest
wish = record {
  requestor_id = pos 123;
  instance_id = pos 2;
  function_id = pos 0;
  meid = "node";
  trigger = some ms5120;
  actions =
      record {
        id = pos 1;
        action_type = action_report;
        definition = none;
        subsequent_action = minus_one;
      }
      ∷ [];
}

abbrev end_wish : SubscriptionDeleteRequest
end_wish = record {
  requestor_id = pos 123;
  instance_id = pos 2;
  function_id = pos 0;
  meid = "node";
}

abbrev pub answer : SubscriptionResponse
answer = record {
  requestor_id = pos 123;
  instance_id = pos 2;
  function_id = pos 0;
  actions_admitted = pos 1 ∷ [];
  actions_not_admitted = [];
  req = wish;
}

-- The wish and an order are under way, and an earlier subscription is established and about to end.
abbrev tracker : E2ap
tracker = record new_e2ap {
  controls = (pos 1, order) ∷ [];
  pending_subscriptions = ("123.2", wish) ∷ [];
  subscriptions = (pos 5, answer) ∷ [];
  pending_deletes = ("123.2", end_wish) ∷ [];
}

delete_all_subscriptions_lem_example :
    find (xid_of answer) (delete_all_subscriptions platform "node" tracker).pending_deletes ≢ none
unfolding find
delete_all_subscriptions_lem_example =
    delete_all_subscriptions_lem platform encodes_delete (λ m. refl) "node" tracker (pos 5) answer
      refl refl

controls-handle_pdu_example :
    (handle_pdu models
      (successful Procedure.control (request_id (pos 123) (pos 1) ∷ []))
      (pos 5)
      ""
      tracker).0.controls
    ≡ tracker.controls
controls-handle_pdu_example =
    controls-handle_pdu models (successful Procedure.control (request_id (pos 123) (pos 1) ∷ []))
      (pos 5) "" tracker

abbrev elements : List Ie
elements = request_id (pos 123) (pos 2) ∷ function_id (pos 0) ∷ []

subscription_response_lem_example :
    let r =
      handle_pdu models (successful Procedure.subscription elements) (pos 6) "123.2" tracker in
    (r.1 ≡ some (subscribed (response_of elements wish)))
    × ((response_of elements wish).req ≡ wish)
    × (lookup_subscription (pos 6) r.0 ≡ some (response_of elements wish))
    × (lookup_pending_subscription "123.2" r.0 ≡ none)
unfolding lookup_pending_subscription find
subscription_response_lem_example =
    subscription_response_lem models elements (pos 6) (pos 6) "123.2" "123.2" tracker wish refl

delete_response_lem_example :
    let e' =
      (handle_pdu models
        (successful Procedure.subscription_delete elements)
        (pos 5)
        "123.2"
        tracker).0 in
    (lookup_subscription (pos 5) e' ≡ none) × (lookup_pending_subscription_delete "123.2" e' ≡ none)
unfolding lookup_pending_subscription_delete find
delete_response_lem_example =
    delete_response_lem models elements (pos 5) (pos 5) "123.2" "123.2" tracker end_wish refl

subscription_failure_blocks_example :
    let e' =
      (handle_pdu models
        (unsuccessful Procedure.subscription elements)
        (pos 0)
        (req_to_xid (pos 123) (pos 2))
        tracker).0 in
    send_subscription_request platform wish "node" e' ≡ (e', false)
unfolding lookup_pending_subscription find req_to_xid to_string
subscription_failure_blocks_example =
    subscription_failure_blocks models platform elements (pos 0) tracker wish wish "node" refl

abbrev report : Indication ℤ
report = record { fields = no_fields; subscription_request = wish; model = some (pos 9) }

indication_lem_example :
    (resp : SubscriptionResponse) × (pos 0 ≤ℤ pos 5)
    × (lookup_subscription (pos 5) tracker ≡ some resp)
    × (report.subscription_request ≡ resp.req)
    × ((handle_pdu models (initiating Procedure.indication []) (pos 5) "" tracker).0 ≡ tracker)
unfolding handle_pdu handle_initiating decode_indication lookup_subscription find
indication_lem_example =
    indication_lem models (initiating Procedure.indication []) (pos 5) "" tracker report refl
