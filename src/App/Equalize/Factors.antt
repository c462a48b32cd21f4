-- ===== src/App/Equalize/Factors.antt =====
-- The middle of the handler: whether the use of PRBs calls for new shares, and the factors.
use nexran.Base.{
  ℕ, String, Bool, true, false, not, ◌&&◌, ◌||◌, [], ◌∷◌, none, some, if◌then◌else◌, ltb,
  string_key,
}
use nexran.Base.Int.{pos, ◌*ℤ◌, div_ℤ, to_u64}
use nexran.Base.Map.{Map, find, put, contains}
use nexran.Kpm.Metrics.{EntityMetrics}
use nexran.Kpm.Report.{KpmReport}
use nexran.Resource.Slice.{Slice}
use nexran.App.Equalize.Float.{FloatOps}
use nexran.App.Equalize.Collect.{Totals}

-- `report->period_ms * 2 * report->available_dl_prbs / num_autoeq_slices`.
unfoldable pub available_prbs_per_slice : KpmReport → ℕ → ℕ
available_prbs_per_slice report num =
    if ltb 0 num
    then to_u64 (div_ℤ ((report.period_ms *ℤ pos 2) *ℤ report.available_dl_prbs) num)
    else 0

-- Whether a slice of the database is reported above the threshold. The loop stops at the first.
unfoldable pub any_above : ℕ → Map String Slice → Map String EntityMetrics → Bool
any_above threshold slices [] = false
any_above threshold slices ((name, m) ∷ report) =
    let rest = any_above threshold slices report in
    if contains name slices && ltb threshold m.dl_prbs then true else rest

module _ (ops : FloatOps) where
  open ops use {
    Float, of_int, of_u64, sub, mul, div, less, equal, to_word, zero, c15, c05, minus_c05,
  }

  -- `new_share_factors[name]`.
  abbrev pub factor_at : String → Map String Float → Float
  factor_at name factors = elim (find name factors) [ none ↦ zero | some f ↦ f ]

  unfoldable pub prb_threshold : ℕ → ℕ
  prb_threshold available = to_word (mul c15 (of_u64 available))

  -- `((float)slices_total / num_autoeq_slices - dl_bytes) / dl_bytes`.
  unfoldable pub candidate : Totals → EntityMetrics → Float
  candidate t m =
      div (sub (div (of_u64 t.slices_total) (of_int (pos t.num_autoeq_slices))) (of_u64 m.dl_bytes))
        (of_u64 m.dl_bytes)

  -- Whether the loops give the slice a new factor: a known slice that is equalised and has none.
  abbrev pub takes_factor : String → Map String Slice → Map String Float → Bool
  takes_factor name slices factors = elim (find name slices) [
    | none ↦ false
    | some s ↦ s.allocation_policy.auto_equalize && not (not (equal (factor_at name factors) zero))
  ]

  -- Whether a candidate is more than 5 % away.
  unfoldable pub any_candidate :
      Totals → Map String Slice → Map String Float → Map String EntityMetrics → Bool
  unfolding candidate
  any_candidate t slices factors [] = false
  any_candidate t slices factors ((name, m) ∷ report) =
      let rest = any_candidate t slices factors report in
      let nf = candidate t m in
      if takes_factor name slices factors && (less c05 nf || less nf minus_c05) then true else rest

  -- The second loop, which sets the factors.
  unfoldable pub set_factors :
      Totals → Map String Slice → Map String EntityMetrics → Map String Float → Map String Float
  unfolding candidate
  set_factors t slices [] factors = factors
  set_factors t slices ((name, m) ∷ report) factors =
      set_factors t slices report
        (if takes_factor name slices factors then put name (candidate t m) factors else factors)

  unfoldable pub new_factors :
      KpmReport → Totals → Map String Slice → Map String Float → Map String Float
  unfolding available_prbs_per_slice prb_threshold any_above any_candidate set_factors
  new_factors report t slices factors =
      let available = available_prbs_per_slice report t.num_autoeq_slices in
      if ltb 0 available
        && any_above (prb_threshold available) slices report.slices
        && any_candidate t slices factors report.slices
      then set_factors t slices report.slices factors
      else factors
