-- ===== src/App/Equalize/Pointwise.antt =====
-- What the handler of src/nexran.cc does to each slice: the loops relate every slice after the
-- handler to the slice of the same name before it.
use nexran.Base.{
  ◌≡◌, inl, inr, String, [], ◌∷◌, Option, some, arith, ◌==◌, string_key, Bool-cases, Option-cases,
}
use mathlib.Core.Path.{subst}
use nexran.Base.Int.{ℤ}
use nexran.Base.Map.{Map, find, put, find-put}
use nexran.Kpm.Metrics.{EntityMetrics}
use nexran.Kpm.Report.{KpmReport}
use nexran.Resource.Policy.{Policy, set_share}
use nexran.Resource.Slice.{Slice}
use nexran.Resource.NodeB.{NodeB}
use nexran.E2ap.State.{Platform, E2ap}
use nexran.App.Types.{App}
use nexran.App.Linked.{find-put-cases}
use nexran.App.Equalize.Float.{FloatOps}
use nexran.App.Equalize.Collect.{
  set_policy, add_metrics, Totals, no_totals, collect_one, collect, release_one, start_one,
  each_policy, placeholders,
}
use nexran.App.Equalize.Factors.{factor_at}
use nexran.App.Equalize.Handle.{next_share, apply_one, apply, prepare, handle_slices}

-- `after` has the slices of `before`, each related to what it was.
pub record Pointwise (R : Slice → Slice → Type 0) (before after : Map String Slice) : Type 0 where
  pub forth :
      (n : String) (s : Slice)
      → find n before ≡ some s
      → (t : Slice) × (find n after ≡ some t) × R s t
  pub back :
      (n : String) (t : Slice)
      → find n after ≡ some t
      → (s : Slice) × (find n before ≡ some s) × R s t

-- A relation that holds of each change which the loops make to a slice.
pub record IsStable (ops : FloatOps) (R : Slice → Slice → Type 0) : Type 0 where
  pub same : (s : Slice) → R s s
  pub trans : (s t u : Slice) → R s t → R t u → R s u
  pub adds :
      (now : ℤ) (m : EntityMetrics) (s : Slice)
      → R s (set_policy (add_metrics now m s.allocation_policy) s)
  pub releases :
      (now : ℤ) (s : Slice) → R s (set_policy (release_one ops now s.allocation_policy).0 s)
  pub starts : (now : ℤ) (s : Slice) → R s (set_policy (start_one ops now s.allocation_policy).0 s)
  pub shares : (n : ℤ) (s : Slice) → R s (set_policy (set_share n s.allocation_policy).0 s)

module _ (platform : Platform) (ops : FloatOps) (R : Slice → Slice → Type 0)
    (stable : IsStable ops R) where
  Pointwise-refl : (m : Map String Slice) → Pointwise R m m
  Pointwise-refl m = record {
    forth = λ n s h. (s, h, stable.same s);
    back = λ n s h. (s, h, stable.same s);
  }

  Pointwise-trans : (l m k : Map String Slice) → Pointwise R l m → Pointwise R m k → Pointwise R l k
  Pointwise-trans l m k p q = record {
    forth = λ n s h.
        let (t, ht, rt) = p.forth n s h in
        let (u, hu, ru) = q.forth n t ht in (u, hu, stable.trans s t u rt ru);
    back = λ n u h.
        let (t, ht, rt) = q.back n u h in
        let (s, hs, rs) = p.back n t ht in (s, hs, stable.trans s t u rs rt);
  }

  Pointwise-cons :
      (k : String) (s t : Slice) (m m' : Map String Slice)
      → R s t
      → Pointwise R m m'
      → Pointwise R ((k, s) ∷ m) ((k, t) ∷ m')
  unfolding find
  Pointwise-cons k s t m m' r p = record {
    forth = λ n u h. elim (Bool-cases (k == n)) [
      | inl y ↦ (t, ground arith, subst (λ w. R w t) (ground arith) r)
      | inr n' ↦ let (v, hv, rv) = p.forth n u (ground arith) in (v, ground arith, rv)
    ];
    back = λ n u h. elim (Bool-cases (k == n)) [
      | inl y ↦ (s, ground arith, subst (λ w. R s w) (ground arith) r)
      | inr n' ↦ let (v, hv, rv) = p.back n u (ground arith) in (v, ground arith, rv)
    ];
  }

  Pointwise-put :
      (k : String) (s t : Slice) (m : Map String Slice)
      → find k m ≡ some s
      → R s t
      → Pointwise R m (put k t m)
  Pointwise-put k s t m hs r = record {
    forth = λ n u h. elim (Bool-cases (k == n)) [
      | inl y ↦ (
        t,
        ground (arith, find-put k n t m),
        subst (λ w. R w t) (ground (arith, string_key.beq_iff k n)) r,
      )
      | inr n' ↦ (u, ground (arith, find-put k n t m), stable.same u)
    ];
    back = λ n u h. elim (find-put-cases k n t u m h) [
      | inl (here, same) ↦ (s, ground arith, subst (λ w. R s w) same r)
      | inr (_, old) ↦ (u, old, stable.same u)
    ];
  }

  collect_one-Pointwise :
      (now : ℤ) (name : String) (m : EntityMetrics) (slices : Map String Slice) (t : Totals)
      → Pointwise R slices (collect_one now name m (slices, t)).0
  collect_one-Pointwise now name m slices t = elim (Option-cases (find name slices)) [
    | inl n ↦ rw (n, collect_one) (Pointwise-refl slices)
    | inr (s, y) ↦
        rw (y, collect_one)
          (Pointwise-put name s (set_policy (add_metrics now m s.allocation_policy) s) slices y
            (stable.adds now m s))
  ]

  collect-Pointwise :
      (now : ℤ) (report : Map String EntityMetrics) (slices : Map String Slice) (t : Totals)
      → Pointwise R slices (collect now report (slices, t)).0
  unfolding collect
  collect-Pointwise now [] slices t = Pointwise-refl slices
  collect-Pointwise now ((name, m) ∷ report) slices t =
      let next = collect_one now name m (slices, t) in
      Pointwise-trans slices next.0 (collect now report next).0
        (collect_one-Pointwise now name m slices t) (collect-Pointwise now report next.0 next.1)

  each_policy-Pointwise :
      (body : Policy → Policy × Option ops.Float)
      → ((s : Slice) → R s (set_policy (body s.allocation_policy).0 s))
      → (m : Map String Slice) (factors : Map String ops.Float)
      → Pointwise R m (each_policy ops body m factors).0
  unfolding each_policy
  each_policy-Pointwise body b [] factors = Pointwise-refl []
  each_policy-Pointwise body b ((k, s) ∷ m) factors =
      Pointwise-cons k s _ m _ (b s) (each_policy-Pointwise body b m _)

  apply-Pointwise :
      (nodebs : Map String NodeB) (factors : Map String ops.Float) (m : Map String Slice) (e : E2ap)
      → Pointwise R m (apply platform ops nodebs factors m e).0
  unfolding apply apply_one
  apply-Pointwise nodebs factors [] e = Pointwise-refl []
  apply-Pointwise nodebs factors ((k, s) ∷ m) e =
      Pointwise-cons k s _ m _
        (stable.shares (next_share platform ops s.allocation_policy.share (factor_at ops k factors))
          s)
        (apply-Pointwise nodebs factors m
          (apply_one platform ops nodebs k (factor_at ops k factors) s.allocation_policy e).1)

  -- A relation that holds of each single change holds between every slice and what the handler
  -- makes of it, and the handler neither adds nor removes a slice.
  pub handle_slices-Pointwise :
      (now : ℤ) (report : KpmReport) (app : App)
      → Pointwise R app.slices (handle_slices platform ops now report app).slices
  unfolding handle_slices prepare
  handle_slices-Pointwise now report app =
      let c = collect now report.slices (app.slices, no_totals) in
      let r = each_policy ops (release_one ops now) c.0 (placeholders ops c.0) in
      let s = each_policy ops (start_one ops now) r.0 r.1 in
      Pointwise-trans _ c.0 _ (collect-Pointwise now report.slices app.slices no_totals) (
        Pointwise-trans _ r.0 _
          (each_policy-Pointwise (release_one ops now) (stable.releases now) c.0
            (placeholders ops c.0))
          (Pointwise-trans _ s.0 _
            (each_policy-Pointwise (start_one ops now) (stable.starts now) r.0 r.1)
            (apply-Pointwise app.nodebs _ s.0 app.e2ap)))
