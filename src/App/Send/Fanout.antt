-- ===== src/App/Send/Fanout.antt =====
-- The loops over the nodes of src/nexran.cc: who gets a request.
use mathlib.Core.List.{append-nil, append_assoc}
use nexran.Base.{
  ◌≡◌, ◌≢◌, ◌≤◌, Option, some, refl, sym, ap, ◌∙◌, ℕ, suc, String, false, List, [], ◌∷◌, ◌++◌, none,
  arith, if◌then◌else◌, string_key, ◌==◌, Bool-cases, Option-cases, inl, inr, map,
}
use mathlib.Core.Path.{subst}
use nexran.Base.Int.{pos, int_key}
use nexran.Base.Map.{Map, find, put, find-put, find-erase}
use nexran.E2sm.Types.{Control}
use nexran.E2ap.Types.{ControlRequest, ack}
use nexran.E2ap.Encode.{encode_control}
use nexran.E2ap.State.{
  Platform, E2ap, Sent, Request, new_e2ap, get_next_instance_id, send_control_request,
  transmit_control, control_sent,
}
use nexran.Resource.NodeB.{NodeB, is_slice_bound}
use nexran.App.Send.{send_control, send_to_bound}

-- No request in the table has an id that is still to be given out.
abbrev pub IsFresh : E2ap → Type 0
IsFresh e = (n : ℕ) → e.next_instance_id ≤ n → find (pos n) e.controls ≡ none

-- What a request orders a node to do, if it is a control.
abbrev pub ordered : Request → Option Control
ordered (Request.control req) = some req.control
ordered _ = none

-- The messages by the node to which each went, with what it orders.
abbrev pub orders : List Sent → List (String × Option Control)
orders l = map (λ s. (s.message.meid, ordered s.request)) l

-- The same order to each of some nodes.
abbrev pub to_each : Control → List String → List (String × Option Control)
to_each c nodes = map (λ n. (n, some c)) nodes

-- The nodes that a slice is bound to, in the order of their names.
abbrev pub bound_nodes : String → Map String NodeB → List String
bound_nodes slice_name [] = []
bound_nodes slice_name ((k, nb) ∷ m) =
    let rest = bound_nodes slice_name m in
    if is_slice_bound slice_name nb then nb.name ∷ rest else rest

pub new_e2ap-IsFresh : IsFresh new_e2ap
unfolding new_e2ap find
new_e2ap-IsFresh n h = refl

orders-append : (xs ys : List Sent) → orders (xs ++ ys) ≡ orders xs ++ orders ys
orders-append [] ys = refl
orders-append (x ∷ xs) ys = ap (λ l. (x.message.meid, ordered x.request) ∷ l) (orders-append xs ys)

module _ (platform : Platform) where
  send_control-next :
      (control : Control) (meid : String) (e : E2ap)
      → (send_control platform control meid e).next_instance_id ≡ suc e.next_instance_id
  unfolding send_control send_control_request transmit_control get_next_instance_id
  send_control-next control meid e = ground arith

  pub send_control-IsFresh :
      (control : Control) (meid : String) (e : E2ap)
      → IsFresh e
      → IsFresh (send_control platform control meid e)
  unfolding send_control send_control_request transmit_control get_next_instance_id
  send_control-IsFresh control meid e f n h =
      let req : ControlRequest = record {
        requestor_id = e.requestor_id;
        instance_id = pos e.next_instance_id;
        function_id = pos 1;
        meid = meid;
        control = control;
        ack_request = ack;
      } in
      let later : suc e.next_instance_id ≤ n =
        subst (λ m. m ≤ n) (send_control-next control meid e) h in
      let other : (pos e.next_instance_id == pos n) ≡ false = ground arith in
      let before : find (pos n) e.controls ≡ none = f n (omega arith) in
      ground (
        arith,
        before,
        find-put (pos e.next_instance_id) (pos n) req e.controls,
        find-erase (pos e.next_instance_id) (pos n) (put (pos e.next_instance_id) req e.controls),
      )

  pub send_to_bound-IsFresh :
      (slice_name : String) (control : Control) (nodebs : Map String NodeB) (e : E2ap)
      → IsFresh e
      → IsFresh (send_to_bound platform slice_name control nodebs e)
  unfolding send_to_bound
  send_to_bound-IsFresh slice_name control [] e f = f
  send_to_bound-IsFresh slice_name control ((k, nb) ∷ m) e f =
      elim (Bool-cases (is_slice_bound slice_name nb)) [
        | inr n ↦ rw (n, send_to_bound) (send_to_bound-IsFresh slice_name control m e f)
        | inl y ↦
            rw (y, send_to_bound)
              (send_to_bound-IsFresh slice_name control m (send_control platform control nb.name e)
                (send_control-IsFresh control nb.name e f))
      ]

module _ (platform : Platform)
    (encodes : (req : ControlRequest) → encode_control platform.codec req ≢ none) where
  send_control-orders :
      (control : Control) (meid : String) (e : E2ap)
      → IsFresh e
      → orders (send_control platform control meid e).outbox
        ≡ orders e.outbox ++ (meid, some control) ∷ []
  unfolding send_control send_control_request transmit_control get_next_instance_id
  send_control-orders control meid e f =
      let req : ControlRequest = record {
        requestor_id = e.requestor_id;
        instance_id = pos e.next_instance_id;
        function_id = pos 1;
        meid = meid;
        control = control;
        ack_request = ack;
      } in
      let free : find (pos e.next_instance_id) e.controls ≡ none =
        f e.next_instance_id (omega arith) in
      elim (Option-cases (encode_control platform.codec req)) [
        | inl n ↦ absurd (encodes req n)
        | inr (payload, p) ↦
            ground
              (arith, free, orders-append e.outbox (control_sent platform req meid payload ∷ []))
      ]

  -- With a new instance id for each, that request goes to every node that the slice is bound to, in
  -- the order of their names, and to no other.
  pub send_to_bound-orders :
      (slice_name : String) (control : Control) (nodebs : Map String NodeB) (e : E2ap)
      → IsFresh e
      → orders (send_to_bound platform slice_name control nodebs e).outbox
        ≡ orders e.outbox ++ to_each control (bound_nodes slice_name nodebs)
  unfolding send_to_bound
  send_to_bound-orders slice_name control [] e f = sym (append-nil (orders e.outbox))
  send_to_bound-orders slice_name control ((k, nb) ∷ m) e f =
      elim (Bool-cases (is_slice_bound slice_name nb)) [
        | inr n ↦ rw (n, send_to_bound) (send_to_bound-orders slice_name control m e f)
        | inl y ↦
            rw (y, send_to_bound)
              (send_to_bound-orders slice_name control m (send_control platform control nb.name e)
                  (send_control-IsFresh platform control nb.name e f)
                ∙ ap (λ l. l ++ to_each control (bound_nodes slice_name m))
                    (send_control-orders control nb.name e f)
                ∙ append_assoc (orders e.outbox) ((nb.name, some control) ∷ [])
                    (to_each control (bound_nodes slice_name m)))
      ]
