-- ===== src/App/Trace/Ids.antt =====
-- The instance ids of the requests that `App` makes, src/nexran.cc, over a row of operations.
use nexran.Base.{
  ℕ, suc, true, List, [], ◌∷◌, ◌++◌, ◌⊎◌, inl, inr, ◌≡◌, ◌≢◌, refl, sym, ap, ◌∙◌, arith,
}
use mathlib.Core.Path.{subst, ap₂}
use mathlib.Core.Bool.{Bool-set}
use mathlib.Core.Logic.Or
use mathlib.Core.List.{
  Mem, Nodup, Nodup-append, mem-append, mem-singleton, Pairwise-singleton, not-mem-nil, append-nil,
  append_assoc,
}
use mathlib.Core.List.Pairwise
use nexran.Base.{string_key}
use nexran.Base.Int.{ℤ, pos, ltb_ℤ, int_key}
use nexran.E2ap.State.{
  Platform, E2ap, Sent, Request, control, subscribe, unsubscribe, new_e2ap, get_next_instance_id,
  delete_request, send_subscription_delete_request,
}
use nexran.E2ap.State.Posts.{
  Posts, send_control_request-Posts, send_subscription_request-Posts,
  send_subscription_delete_request-Posts,
}
use nexran.E2ap.Handle.Entries.{next-handle_pdu, outbox-handle_pdu}
use nexran.App.Types.{App}
use nexran.Resource.Json.{Json}
use nexran.App.Trace.Served.{Served, Served-Moves}
use nexran.App.Equalize.Float.{FloatOps}
use nexran.App.Send.{send_control, subscribe_kpm}
use nexran.App.Dispatch.{Decoders, models}
use nexran.App.Trace.{
  control_request, kpm_request, numbered, Move, controls, subscribes, unsubscribes, receives, Moves,
  none_yet, later,
}

-- A deletion names the request that it ends; the others have an id of their own.
abbrev pub own_id : Request → List ℤ
own_id (control req) = req.instance_id ∷ []
own_id (subscribe req) = req.instance_id ∷ []
own_id (unsubscribe req) = []

abbrev pub ids : List Sent → List ℤ
ids [] = []
ids (s ∷ l) = own_id s.request ++ ids l

ids-append : (l : List Sent) (s : Sent) → ids (l ++ s ∷ []) ≡ ids l ++ own_id s.request
ids-append [] s = append-nil (own_id s.request)
ids-append (x ∷ l) s =
    ap (λ t. own_id x.request ++ t) (ids-append l s)
    ∙ sym (append_assoc (own_id x.request) (ids l) (own_id s.request))

-- The ids that were given out are below the next one, and no two requests have the same.
pub record IsNumbered (e : E2ap) : Type 0 where
  pub below : (i : ℤ) → Mem i (ids e.outbox) → ltb_ℤ i (pos e.next_instance_id) ≡ true
  pub distinct : Nodup (ids e.outbox)

new_e2ap-IsNumbered : IsNumbered new_e2ap
unfolding new_e2ap
new_e2ap-IsNumbered = record { below = λ i m. absurd (not-mem-nil m); distinct = Pairwise.nil }

-- What one operation does to the ids: the same next id and ids, or the next id may have been used.
abbrev Kept : E2ap → E2ap → Type 0
Kept e e' = (e'.next_instance_id ≡ e.next_instance_id) × (ids e'.outbox ≡ ids e.outbox)

abbrev Used : E2ap → E2ap → Type 0
Used e e' =
    (e'.next_instance_id ≡ suc e.next_instance_id)
    × ((ids e'.outbox ≡ ids e.outbox)
        ⊎ (ids e'.outbox ≡ ids e.outbox ++ pos e.next_instance_id ∷ []))

Kept-IsNumbered : (e e' : E2ap) → Kept e e' → IsNumbered e → IsNumbered e'
Kept-IsNumbered e e' k v = record {
  below = λ i m. subst (λ n. ltb_ℤ i (pos n) ≡ true) (sym k.0) (v.below i (subst (Mem i) k.1 m));
  distinct = subst Nodup (sym k.1) v.distinct;
}

ltb_ℤ-suc : (i : ℤ) (n : ℕ) → ltb_ℤ i (pos n) ≡ true → ltb_ℤ i (pos (suc n)) ≡ true
ltb_ℤ-suc i n h = ground arith

ltb_ℤ-self : (n : ℕ) → ltb_ℤ (pos n) (pos (suc n)) ≡ true
ltb_ℤ-self n = ground arith

ltb_ℤ-irrefl : (i : ℤ) → ltb_ℤ i i ≢ true
ltb_ℤ-irrefl i h = absurd (ground arith)

Used-IsNumbered : (e e' : E2ap) → Used e e' → IsNumbered e → IsNumbered e'
Used-IsNumbered e e' (n, inl k) v = record {
  below = λ i m.
      subst (λ n. ltb_ℤ i (pos n) ≡ true) (sym n) (ltb_ℤ-suc i _ (v.below i (subst (Mem i) k m)));
  distinct = subst Nodup (sym k) v.distinct;
}
Used-IsNumbered e e' (n, inr k) v =
    let next = pos e.next_instance_id in
    let last : (i : ℤ) → Mem i (next ∷ []) → i ≡ next = λ i m. (mem-singleton hlevel).0 m in
    record {
      below = λ i m.
          subst (λ n. ltb_ℤ i (pos n) ≡ true) (sym n)
            (Or.elim (Bool-set _ _) (mem-append.0 (subst (Mem i) k m))
              (λ old. ltb_ℤ-suc i _ (v.below i old))
              (λ new.
                subst (λ j. ltb_ℤ j (pos (suc e.next_instance_id)) ≡ true) (sym (last i new))
                  (ltb_ℤ-self _)));
      distinct = subst Nodup (sym k) (
          Nodup-append.1 (
            v.distinct,
            Pairwise-singleton _ next,
            λ i old new.
                ltb_ℤ-irrefl next (subst (λ j. ltb_ℤ j next ≡ true) (last i new) (v.below i old)),
          ));
    }

-- A request that goes out has the next id, or none of its own.
Posts-Used :
    (r : Request) (e e1 e' : E2ap)
    → own_id r ≡ pos e.next_instance_id ∷ []
    → (e1.next_instance_id ≡ suc e.next_instance_id)
    → (e1.outbox ≡ e.outbox)
    → (e'.next_instance_id ≡ e1.next_instance_id) × Posts r e1 e'
    → Used e e'
Posts-Used r e e1 e' own n o (k, inl same) = (k ∙ n, inl (ap ids (same ∙ o)))
Posts-Used r e e1 e' own n o (k, inr (s, grown, is)) =
    (k ∙ n, inr (ap ids grown ∙ ids-append e1.outbox s ∙ ap₂ ◌++◌ (ap ids o) (ap own_id is ∙ own)))

Posts-Kept :
    (r : Request) (e e' : E2ap)
    → own_id r ≡ []
    → (e'.next_instance_id ≡ e.next_instance_id) × Posts r e e'
    → Kept e e'
Posts-Kept r e e' own (k, inl same) = (k, ap ids same)
Posts-Kept r e e' own (k, inr (s, grown, is)) = (
  k,
  ap ids grown
      ∙ ids-append e.outbox s
      ∙ ap (λ l. ids e.outbox ++ l) (ap own_id is ∙ own)
      ∙ append-nil (ids e.outbox),
)

module _ (platform : Platform) (ops : FloatOps) (decoders : Decoders) where
  Move-IsNumbered : (e e' : E2ap) → Move platform ops decoders e e' → IsNumbered e → IsNumbered e'
  unfolding send_control subscribe_kpm get_next_instance_id
  Move-IsNumbered _ _ (controls c meid e) v =
      Used-IsNumbered e _
        (Posts-Used (control (control_request c meid e)) e (numbered e)
          (send_control platform c meid e) refl refl refl
          (send_control_request-Posts platform (control_request c meid e) meid (numbered e)))
        v
  Move-IsNumbered _ _ (subscribes meid e) v =
      Used-IsNumbered e _
        (Posts-Used (subscribe (kpm_request meid e)) e (numbered e) (subscribe_kpm platform meid e)
          refl refl refl
          (send_subscription_request-Posts platform (kpm_request meid e) meid (numbered e)))
        v
  Move-IsNumbered _ _ (unsubscribes resp meid e) v =
      let req = delete_request platform meid resp in
      Kept-IsNumbered e _
        (Posts-Kept (unsubscribe req) e (send_subscription_delete_request platform req meid e).0
          refl (send_subscription_delete_request-Posts platform req meid e))
        v
  Move-IsNumbered _ _ (receives now pdu subid xid e) v =
      Kept-IsNumbered e _
        (
          next-handle_pdu (models platform ops decoders now) pdu subid xid e,
          ap ids (outbox-handle_pdu (models platform ops decoders now) pdu subid xid e),
        )
        v

  Moves-IsNumbered : (e e' : E2ap) → Moves platform ops decoders e e' → IsNumbered e → IsNumbered e'
  Moves-IsNumbered e _ none_yet v = v
  Moves-IsNumbered e _ (later e1 e2 r m) v = Move-IsNumbered e1 e2 m (Moves-IsNumbered e e1 r v)

  module _ (json : Json) where
    -- However the program is used, no two of the control and subscription requests that it hands to RMR
    -- have the same instance id.
    pub Served-Nodup :
        (app : App) → Served platform json ops decoders app → Nodup (ids app.e2ap.outbox)
    Served-Nodup app s =
        (Moves-IsNumbered new_e2ap app.e2ap (Served-Moves platform json ops decoders app s)
          new_e2ap-IsNumbered).distinct
