-- ===== src/App/Equalize/Effects.antt =====
-- What the handler of src/nexran.cc leaves as it was, and whom it tells.
use mathlib.Core.List.{append-nil, append_assoc}
use nexran.Base.{
  ◌≡◌, ◌≢◌, ◌⊎◌, inl, inr, refl, sym, ap, ◌∙◌, String, Bool, true, false, List, [], ◌∷◌, ◌++◌,
  Option, none, some, arith, if◌then◌else◌, string_key, Bool-cases,
}
use nexran.Base.Int.{ℤ, beq_ℤ}
use nexran.Base.Map.{Map, find}
use nexran.Kpm.Report.{KpmReport}
use nexran.E2sm.Types.{Control, slice_config}
use nexran.Resource.Policy.{Policy, set_share, maybe_end_throttling, maybe_start_throttling}
use nexran.Resource.Slice.{Slice}
use nexran.Resource.NodeB.{NodeB}
use nexran.E2ap.Types.{ControlRequest}
use nexran.E2ap.Encode.{encode_control}
use nexran.E2ap.State.{Platform, E2ap}
use nexran.App.Types.{App}
use nexran.App.Send.Fanout.{
  IsFresh, orders, to_each, bound_nodes, send_to_bound-orders, send_to_bound-IsFresh,
}
use nexran.App.Linked.{IsConsistent}
use nexran.App.Equalize.Float.{FloatOps}
use nexran.App.Equalize.Collect.{add_metrics, flush_metrics, release_one, start_one}
use nexran.App.Equalize.Shares.{shares, prepare-shares}
use nexran.App.Equalize.Factors.{factor_at}
use nexran.App.Equalize.Handle.{next_share, apply_one, apply, prepare, handle_slices, handle_kpm}
use nexran.App.Equalize.Bounds.{apply_one-share, List-cases}
use nexran.App.Equalize.Pointwise.{IsStable, handle_slices-Pointwise}

abbrev SameEntries : Slice → Slice → Type 0
SameEntries s t = (t.name ≡ s.name) × (t.ues ≡ s.ues)

SameEntries-IsStable : (ops : FloatOps) → IsStable ops SameEntries
SameEntries-IsStable ops = record {
  same = λ s. (refl, refl);
  trans = λ s t u p q. (q.0 ∙ p.0, q.1 ∙ p.1);
  adds = λ now m s. (refl, refl);
  releases = λ now s. (refl, refl);
  starts = λ now s. (refl, refl);
  shares = λ n s. (refl, refl);
}

-- If throttling is switched off, then it stays so, and so do the marks of throttling.
abbrev pub IdleKept : Slice → Slice → Type 0
IdleKept s t =
    let p = s.allocation_policy in
    let q = t.allocation_policy in
    (q.throttle ≡ p.throttle)
    × ((p.throttle ≡ true)
        ⊎ ((q.is_throttling ≡ p.is_throttling)
            × (q.throttle_saved_share ≡ p.throttle_saved_share)
            × (q.throttle_end ≡ p.throttle_end)))

pub IdleKept-IsStable : (ops : FloatOps) → IsStable ops IdleKept
unfolding add_metrics release_one start_one set_share maybe_end_throttling maybe_start_throttling
    flush_metrics
IdleKept-IsStable ops = record {
  same = λ s. (refl, inr (refl, refl, refl));
  trans = λ s t u p q. ground arith;
  adds = λ now m s. (refl, inr (refl, refl, refl));
  releases = λ now s. ground arith;
  starts = λ now s. ground arith;
  shares = λ n s. ground arith;
}

module _ (platform : Platform) (ops : FloatOps) where
  -- The handler keeps the database consistent: it renames no slice and touches no entry.
  pub handle_slices-IsConsistent :
      (now : ℤ) (report : KpmReport) (app : App)
      → IsConsistent app
      → IsConsistent (handle_slices platform ops now report app)
  unfolding handle_slices
  handle_slices-IsConsistent now report app c =
      let p =
        handle_slices-Pointwise platform ops SameEntries (SameEntries-IsStable ops) now report
          app in
      record {
        nodebs_named = c.nodebs_named;
        slices_named = λ n t h. let (s, hs, same) = p.back n t h in same.0 ∙ c.slices_named n s hs;
        ues_named = c.ues_named;
        linked = λ n t h. let (s, hs, same) = p.back n t h in rw same.1 (c.linked n s hs);
      }

  pub handle_kpm-IsConsistent :
      (now : ℤ) (report : KpmReport) (app : App)
      → IsConsistent app
      → IsConsistent (handle_kpm platform ops now report app)
  unfolding handle_kpm
  handle_kpm-IsConsistent now report app c = elim (List-cases platform ops report.slices) [
    | inl e ↦ rw (e, handle_kpm) c
    | inr (x, m, e) ↦ rw (e, handle_kpm) (handle_slices-IsConsistent now report app c)
  ]

  -- A slice whose throttling is switched off while it is throttled is never released: every report
  -- leaves it marked as throttled, with the share that it had before still saved.
  pub handle_slices-stuck :
      (now : ℤ) (report : KpmReport) (app : App) (n : String) (s : Slice)
      → find n app.slices ≡ some s
      → s.allocation_policy.throttle ≡ false
      → s.allocation_policy.is_throttling ≡ true
      → (t : Slice) × (find n (handle_slices platform ops now report app).slices ≡ some t)
        × (t.allocation_policy.throttle ≡ false)
        × (t.allocation_policy.is_throttling ≡ true)
        × (t.allocation_policy.throttle_saved_share ≡ s.allocation_policy.throttle_saved_share)
  handle_slices-stuck now report app n s h off on =
      let p =
        handle_slices-Pointwise platform ops IdleKept (IdleKept-IsStable ops) now report app in
      let (t, ht, r) = p.forth n s h in (t, ht, ground arith, ground arith, ground arith)

  -- For each slice whose share is not what it was, the new share, to the nodes that it is bound to.
  abbrev pub told :
      Map String NodeB → List (String × ℤ) → List (String × ℤ) → List (String × Option Control)
  told nodebs ((k, x) ∷ before) ((j, y) ∷ after) =
      let rest = told nodebs before after in
      if beq_ℤ x y
      then rest
      else to_each (slice_config (record { name = k; share = y } ∷ [])) (bound_nodes k nodebs)
        ++ rest
  told nodebs _ _ = []

  module _ (encodes : (req : ControlRequest) → encode_control platform.codec req ≢ none) where
    if-append :
        {A : Type 0} (b : Bool) (xs ys : List A)
        → (if b then [] else xs) ++ ys ≡ (if b then ys else xs ++ ys)
    if-append true xs ys = refl
    if-append false xs ys = refl

    apply_one-IsFresh :
        (nodebs : Map String NodeB) (k : String) (f : ops.Float) (p : Policy) (e : E2ap)
        → IsFresh e
        → IsFresh (apply_one platform ops nodebs k f p e).1
    unfolding apply_one
    apply_one-IsFresh nodebs k f p e fresh =
        let n = next_share platform ops p.share f in
        let control = slice_config (record { name = k; share = n } ∷ []) in
        elim (Bool-cases (beq_ℤ p.share n)) [
          | inl y ↦ rw (y, apply_one) fresh
          | inr n' ↦ rw (n', apply_one) (send_to_bound-IsFresh platform k control nodebs e fresh)
        ]

    apply_one-orders :
        (nodebs : Map String NodeB) (k : String) (f : ops.Float) (p : Policy) (e : E2ap)
        → IsFresh e
        → let r = apply_one platform ops nodebs k f p e in
          orders r.1.outbox
          ≡ orders e.outbox
            ++ (if beq_ℤ p.share r.0.share
                then []
                else to_each
                    (slice_config (record { name = k; share = r.0.share } ∷ []))
                    (bound_nodes k nodebs))
    unfolding apply_one
    apply_one-orders nodebs k f p e fresh =
        let n = next_share platform ops p.share f in
        let control = slice_config (record { name = k; share = n } ∷ []) in
        rw (apply_one-share platform ops nodebs k f p e) (elim (Bool-cases (beq_ℤ p.share n)) [
          | inl y ↦ rw (y, apply_one) (sym (append-nil (orders e.outbox)))
          | inr n' ↦
              rw (n', apply_one) (send_to_bound-orders platform encodes k control nodebs e fresh)
        ])

    apply-orders :
        (nodebs : Map String NodeB) (factors : Map String ops.Float) (slices : Map String Slice)
        (e : E2ap)
        → IsFresh e
        → orders (apply platform ops nodebs factors slices e).1.outbox
          ≡ orders e.outbox
            ++ told nodebs (shares slices) (shares (apply platform ops nodebs factors slices e).0)
    unfolding apply
    apply-orders nodebs factors [] e f = sym (append-nil (orders e.outbox))
    apply-orders nodebs factors ((k, s) ∷ slices) e f =
        let one = apply_one platform ops nodebs k (factor_at ops k factors) s.allocation_policy e in
        let same = beq_ℤ s.allocation_policy.share one.0.share in
        let c = slice_config (record { name = k; share = one.0.share } ∷ []) in
        let rest =
          told nodebs (shares slices) (shares (apply platform ops nodebs factors slices one.1).0) in
        apply-orders nodebs factors slices one.1
          (apply_one-IsFresh nodebs k (factor_at ops k factors) s.allocation_policy e f)
        ∙ ap (λ l. l ++ rest)
            (apply_one-orders nodebs k (factor_at ops k factors) s.allocation_policy e f)
        ∙ append_assoc (orders e.outbox) (if same then [] else to_each c (bound_nodes k nodebs))
            rest
        ∙ ap (λ l. orders e.outbox ++ l) (if-append same (to_each c (bound_nodes k nodebs)) rest)

    -- If every request can be encoded and instance ids are fresh, then for each slice whose share after
    -- the handler is not the one before it, the new share is sent to each node that the slice is bound
    -- to, in the order of the slices and of the nodes, and nothing else is sent.
    pub handle_slices-orders :
        (now : ℤ) (report : KpmReport) (app : App)
        → IsFresh app.e2ap
        → let app' = handle_slices platform ops now report app in
          orders app'.e2ap.outbox
          ≡ orders app.e2ap.outbox ++ told app.nodebs (shares app.slices) (shares app'.slices)
    unfolding handle_slices
    handle_slices-orders now report app f =
        let (slices1, factors) = prepare platform ops now report app.slices in
        apply-orders app.nodebs factors slices1 app.e2ap f
        ∙ ap
            (λ l.
              orders app.e2ap.outbox
              ++ told app.nodebs l
                  (shares (apply platform ops app.nodebs factors slices1 app.e2ap).0))
            (prepare-shares ops platform now report app.slices)
