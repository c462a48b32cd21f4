-- ===== src/Examples/Group.antt =====
-- The properties of request groups at a group with one request done and one to go.
use nexran.Base.{◌≡◌, ◌+◌, not, [], ◌∷◌, length, ltb}
use nexran.Base.Int.{pos, int_key}
use nexran.E2sm.Types.{slice_delete}
use nexran.E2ap.Types.{ControlRequest, ack}
use nexran.App.Group.{RequestState, RequestStatus, RequestGroup, is_done, is_done_lem}

abbrev order : ControlRequest
order = record {
  requestor_id = pos 123;
  instance_id = pos 1;
  function_id = pos 1;
  meid = "node";
  control = slice_delete ("fast" ∷ []);
  ack_request = ack;
}

abbrev waiting : RequestStatus
waiting = record { req = order; state = RequestState.pending }

abbrev pub group : RequestGroup
group = record {
  timeout = pos 8;
  requests = (pos 1, record { req = order; state = RequestState.success }) ∷ (pos 2, waiting) ∷ [];
}

is_done_lem_example :
    let (all, c) = is_done group in
    (c.succeeded + c.failed + c.pending ≡ length group.requests) × (all ≡ not (ltb 0 c.pending))
is_done_lem_example = is_done_lem group
