-- ===== src/App/Trace.antt =====
-- What `App` of src/nexran.cc does with the request tracker, as rows of the tracker's own operations
-- with the ids that `App` gives to a new request.
pub mod Calls
pub mod Served
pub mod Tables
pub mod Ids
pub mod Fresh
pub mod Messages
use nexran.Base.{
  suc, String, Bool-cases, Option-cases, inl, inr, List, [], ◌∷◌, none, some, ◌≡◌, refl, not, ◌||◌,
  ◌==◌, string_key, if◌then◌else◌, arith,
}
use mathlib.Core.Path.{subst}
use nexran.Base.Int.{ℤ, pos, minus_one, beq_ℤ}
use nexran.Base.Map.{Map, find, contains}
use nexran.E2sm.Types.{Control, slice_config, slice_delete}
use nexran.Kpm.Period.{ms5120}
use nexran.E2ap.Types.{
  ControlRequest, ack, SubscriptionRequest, action_report, SubscriptionDeleteRequest,
  SubscriptionResponse, Pdu,
}
use nexran.E2ap.State.{
  Platform, E2ap, new_e2ap, send_subscription_delete_request, delete_request, delete_subscriptions,
  delete_all_subscriptions,
}
use nexran.E2ap.Handle.{handle_pdu}
use nexran.Resource.Policy.{Policy}
use nexran.Resource.Slice.{Slice}
use nexran.Resource.NodeB.{NodeB, is_slice_bound}
use nexran.App.Equalize.Float.{FloatOps}
use nexran.App.Equalize.Factors.{factor_at}
use nexran.App.Equalize.Handle.{next_share, apply_one, apply}
use nexran.App.Send.{send_control, send_to_bound, subscribe_kpm}
use nexran.App.Store.{delete_slices}
use nexran.App.Dispatch.{Decoders, models}

-- The requests that `send_control` and `subscribe_kpm` make, and the tracker that has numbered them.
abbrev pub control_request : Control → String → E2ap → ControlRequest
control_request c meid e = record {
  requestor_id = e.requestor_id;
  instance_id = pos e.next_instance_id;
  function_id = pos 1;
  meid = meid;
  control = c;
  ack_request = ack;
}

abbrev pub kpm_request : String → E2ap → SubscriptionRequest
kpm_request meid e = record {
  requestor_id = e.requestor_id;
  instance_id = pos e.next_instance_id;
  function_id = pos 0;
  meid = meid;
  trigger = some ms5120;
  actions =
      record {
        id = pos 1;
        action_type = action_report;
        definition = none;
        subsequent_action = minus_one;
      }
      ∷ [];
}

abbrev pub numbered : E2ap → E2ap
numbered e = record e { next_instance_id = suc e.next_instance_id }

module _ (platform : Platform) (ops : FloatOps) (decoders : Decoders) where
  -- One operation on the tracker.
  pub data Move : E2ap → E2ap → Type 0 where
    controls :
        (control : Control) (meid : String) (e : E2ap)
        → Move e (send_control platform control meid e)
    subscribes : (meid : String) (e : E2ap) → Move e (subscribe_kpm platform meid e)
    unsubscribes :
        (resp : SubscriptionResponse) (meid : String) (e : E2ap)
        → Move e
            (send_subscription_delete_request platform (delete_request platform meid resp) meid e).0
    receives :
        (now : ℤ) (pdu : Pdu) (subid : ℤ) (xid : String) (e : E2ap)
        → Move e (handle_pdu (models platform ops decoders now) pdu subid xid e).0

  -- Any number of them.
  pub data Moves (e : E2ap) : E2ap → Type 0 where
    none_yet : Moves e e
    later : (e1 e2 : E2ap) → Moves e e1 → Move e1 e2 → Moves e e2

  pub one : (e e1 : E2ap) → Move e e1 → Moves e e1
  one e e1 m = later e e1 none_yet m

  pub Moves_trans : (e e1 e2 : E2ap) → Moves e e1 → Moves e1 e2 → Moves e e2
  Moves_trans e e1 _ r none_yet = r
  Moves_trans e e1 _ r (later f g s m) = later f g (Moves_trans e e1 f r s) m

  pub send_to_bound-Moves :
      (slice_name : String) (control : Control) (nodebs : Map String NodeB) (e : E2ap)
      → Moves e (send_to_bound platform slice_name control nodebs e)
  unfolding send_to_bound
  send_to_bound-Moves slice_name control [] e = none_yet
  send_to_bound-Moves slice_name control ((k, nb) ∷ m) e =
      elim (Bool-cases (is_slice_bound slice_name nb)) [
        | inr n ↦ rw (n, send_to_bound) (send_to_bound-Moves slice_name control m e)
        | inl y ↦
            let e1 = send_control platform control nb.name e in
            rw (y, send_to_bound)
              (Moves_trans e e1 _ (one e e1 (controls control nb.name e))
                (send_to_bound-Moves slice_name control m e1))
      ]

  pub delete_slices-Moves :
      (names : List String) (meid : String) (e : E2ap)
      → Moves e (delete_slices platform names meid e)
  unfolding delete_slices
  delete_slices-Moves [] meid e = none_yet
  delete_slices-Moves (s ∷ ss) meid e = one e _ (controls (slice_delete (s ∷ ss)) meid e)

  delete_subscriptions-Moves :
      (meid : String) (l : Map ℤ SubscriptionResponse) (e : E2ap)
      → Moves e (delete_subscriptions platform meid l e)
  unfolding delete_subscriptions
  delete_subscriptions-Moves meid [] e = none_yet
  delete_subscriptions-Moves meid ((subid, resp) ∷ l) e =
      elim (Bool-cases (resp.req.meid == meid)) [
        | inr n ↦ rw (n, delete_subscriptions) (delete_subscriptions-Moves meid l e)
        | inl y ↦
            let req = delete_request platform meid resp in
            let e1 = (send_subscription_delete_request platform req meid e).0 in
            rw (y, delete_subscriptions)
              (Moves_trans e e1 _ (one e e1 (unsubscribes resp meid e))
                (delete_subscriptions-Moves meid l e1))
      ]

  pub delete_all_subscriptions-Moves :
      (meid : String) (e : E2ap) → Moves e (delete_all_subscriptions platform meid e)
  unfolding delete_all_subscriptions
  delete_all_subscriptions-Moves meid e = delete_subscriptions-Moves meid e.subscriptions e

  apply_one-Moves :
      (nodebs : Map String NodeB) (name : String) (f : ops.Float) (p : Policy) (e : E2ap)
      → Moves e (apply_one platform ops nodebs name f p e).1
  unfolding apply_one
  apply_one-Moves nodebs name f p e =
      let n = next_share platform ops p.share f in
      elim (Bool-cases (beq_ℤ p.share n)) [
        | inl y ↦ rw (y, apply_one) none_yet
        | inr n' ↦
            rw (n', apply_one)
              (send_to_bound-Moves name (slice_config (record { name = name; share = n } ∷ []))
                nodebs e)
      ]

  pub apply-Moves :
      (nodebs : Map String NodeB) (factors : Map String ops.Float) (slices : Map String Slice)
      (e : E2ap)
      → Moves e (apply platform ops nodebs factors slices e).1
  unfolding apply
  apply-Moves nodebs factors [] e = none_yet
  apply-Moves nodebs factors ((name, s) ∷ slices) e =
      let e1 =
        (apply_one platform ops nodebs name (factor_at ops name factors) s.allocation_policy e).1 in
      Moves_trans e e1 _
        (apply_one-Moves nodebs name (factor_at ops name factors) s.allocation_policy e)
        (apply-Moves nodebs factors slices e1)
