-- ===== src/App/Equalize/Shares.antt =====
-- The loops of the handler of src/nexran.cc before the last one set no share.
use mathlib.Core.Path.{ap₂}
use nexran.Base.{
  ◌≡◌, refl, ◌∙◌, String, List, [], ◌∷◌, Option, some, arith, string_key, Option-cases, inl, inr,
}
use nexran.Base.Int.{ℤ}
use nexran.Base.Map.{Map, find, put}
use nexran.Kpm.Metrics.{EntityMetrics}
use nexran.Kpm.Report.{KpmReport}
use nexran.Resource.Policy.{Policy, maybe_end_throttling, maybe_start_throttling}
use nexran.Resource.Slice.{Slice}
use nexran.E2ap.State.{Platform}
use nexran.App.Equalize.Float.{FloatOps}
use nexran.App.Equalize.Collect.{
  set_policy, add_metrics, flush_metrics, Totals, no_totals, collect_one, collect, release_one,
  start_one, each_policy, placeholders,
}
use nexran.App.Equalize.Handle.{prepare}

-- The slices by name, with their shares.
abbrev pub shares : Map String Slice → List (String × ℤ)
shares [] = []
shares ((k, s) ∷ m) = (k, s.allocation_policy.share) ∷ shares m

shares-put :
    (k : String) (s t : Slice) (m : Map String Slice)
    → find k m ≡ some s
    → t.allocation_policy.share ≡ s.allocation_policy.share
    → shares (put k t m) ≡ shares m
unfolding find put
shares-put k s t [] h e = absurd (ground (arith, h))
shares-put k s t ((j, w) ∷ m) h e = ground (arith, h, e, string_key.beq_iff j k, shares-put k s t m)

collect_one-shares :
    (now : ℤ) (name : String) (m : EntityMetrics) (slices : Map String Slice) (t : Totals)
    → shares (collect_one now name m (slices, t)).0 ≡ shares slices
unfolding add_metrics
collect_one-shares now name m slices t = elim (Option-cases (find name slices)) [
  | inl n ↦ rw (n, collect_one) refl
  | inr (s, y) ↦
      rw (y, collect_one)
        (shares-put name s (set_policy (add_metrics now m s.allocation_policy) s) slices y refl)
]

collect-shares :
    (now : ℤ) (report : Map String EntityMetrics) (slices : Map String Slice) (t : Totals)
    → shares (collect now report (slices, t)).0 ≡ shares slices
unfolding collect
collect-shares now [] slices t = refl
collect-shares now ((name, m) ∷ report) slices t =
    let next = collect_one now name m (slices, t) in
    collect-shares now report next.0 next.1 ∙ collect_one-shares now name m slices t

module _ (ops : FloatOps) where
  release_one-share : (now : ℤ) (p : Policy) → (release_one ops now p).0.share ≡ p.share
  unfolding release_one flush_metrics maybe_end_throttling
  release_one-share now p = ground arith

  start_one-share : (now : ℤ) (p : Policy) → (start_one ops now p).0.share ≡ p.share
  unfolding start_one flush_metrics maybe_start_throttling
  start_one-share now p = ground arith

  each_policy-shares :
      (body : Policy → Policy × Option ops.Float)
      → ((p : Policy) → (body p).0.share ≡ p.share)
      → (m : Map String Slice) (factors : Map String ops.Float)
      → shares (each_policy ops body m factors).0 ≡ shares m
  unfolding each_policy
  each_policy-shares body b [] factors = refl
  each_policy-shares body b ((k, s) ∷ m) factors =
      ap₂ (λ x l. (k, x) ∷ l) (b s.allocation_policy) (each_policy-shares body b m _)

  -- Metrics, and the ends and starts of throttling, leave the shares as they were.
  pub prepare-shares :
      (platform : Platform) (now : ℤ) (report : KpmReport) (slices : Map String Slice)
      → shares (prepare platform ops now report slices).0 ≡ shares slices
  unfolding prepare
  prepare-shares platform now report slices =
      let c = collect now report.slices (slices, no_totals) in
      let r = each_policy ops (release_one ops now) c.0 (placeholders ops c.0) in
      each_policy-shares (start_one ops now) (start_one-share now) r.0 r.1
      ∙ each_policy-shares (release_one ops now) (release_one-share now) c.0 (placeholders ops c.0)
      ∙ collect-shares now report.slices slices no_totals
