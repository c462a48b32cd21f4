-- ===== src/App/Equalize/Collect.antt =====
-- The first loops of the handler: the metrics of a report, and the ends and starts of throttling.
use nexran.Base.{ℕ, suc, String, not, ◌||◌, [], ◌∷◌, Option, none, some, if◌then◌else◌, string_key}
use nexran.Base.Int.{ℤ, ◌-ℤ◌, ltb_ℤ, minus_one}
use nexran.Base.Map.{Map, find, put}
use nexran.Kpm.Metrics.{EntityMetrics, u64_add}
use nexran.Kpm.Metrics
use nexran.Resource.Policy.{Policy, maybe_end_throttling, maybe_start_throttling}
use nexran.Resource.Slice.{Slice}
use nexran.App.Equalize.Float.{FloatOps}

abbrev pub set_policy : Policy → Slice → Slice
set_policy p s = record s { allocation_policy = p }

-- `now` is what `std::time` returns throughout the handler.
unfoldable pub add_metrics : ℤ → EntityMetrics → Policy → Policy
unfolding Metrics.add
add_metrics now m p = record p { metrics = Metrics.add now m p.metrics }

unfoldable pub flush_metrics : ℤ → Policy → Policy
unfolding Metrics.flush
flush_metrics now p = record p { metrics = Metrics.flush now p.metrics }

pub record Totals : Type 0 where
  pub slices_total : ℕ
  pub slices_prb_total : ℕ
  pub num_autoeq_slices : ℕ

abbrev pub no_totals : Totals
no_totals = record { slices_total = 0; slices_prb_total = 0; num_autoeq_slices = 0 }

abbrev pub count_slice : EntityMetrics → Totals → Totals
count_slice m t = record {
  slices_total = u64_add t.slices_total m.dl_bytes;
  slices_prb_total = u64_add t.slices_prb_total m.dl_prbs;
  num_autoeq_slices = suc t.num_autoeq_slices;
}

abbrev pub collect_one :
    ℤ → String → EntityMetrics → Map String Slice × Totals → Map String Slice × Totals
collect_one now name m (slices, t) = elim (find name slices) [
  | none ↦ (slices, t)
  | some s ↦ (
    put name (set_policy (add_metrics now m s.allocation_policy) s) slices,
    if s.allocation_policy.auto_equalize then count_slice m t else t,
  )
]

-- The loop over `report->slices`.
unfoldable pub collect :
    ℤ → Map String EntityMetrics → Map String Slice × Totals → Map String Slice × Totals
unfolding add_metrics
collect now [] st = st
collect now ((name, m) ∷ report) st = collect now report (collect_one now name m st)

module _ (ops : FloatOps) where
  open ops use {Float, of_int, div, zero}

  -- `(new_share - cur_share) / (float)cur_share`.
  unfoldable pub share_factor : ℤ → ℤ → Float
  share_factor new_share cur_share = div (of_int (new_share -ℤ cur_share)) (of_int cur_share)

  -- A share above -1 becomes the slice's factor.
  abbrev pub factor_for : Policy × ℤ → Policy × Option Float
  factor_for (p, new_share) =
      (p, if ltb_ℤ minus_one new_share then some (share_factor new_share p.share) else none)

  -- The body of the loop that releases slices, and of the one that throttles them.
  unfoldable pub release_one : ℤ → Policy → Policy × Option Float
  unfolding flush_metrics maybe_end_throttling share_factor
  release_one now p =
      if not p.throttle || not p.is_throttling
      then (p, none)
      else factor_for (maybe_end_throttling now (flush_metrics now p))

  unfoldable pub start_one : ℤ → Policy → Policy × Option Float
  unfolding flush_metrics maybe_start_throttling share_factor
  start_one now p =
      if not p.throttle || p.is_throttling
      then (p, none)
      else factor_for (maybe_start_throttling now (flush_metrics now p))

  -- The loop over `slices` with one of these bodies.
  abbrev pub put_factor : String → Option Float → Map String Float → Map String Float
  put_factor name none factors = factors
  put_factor name (some f) factors = put name f factors

  unfoldable pub each_policy :
      (Policy → Policy × Option Float)
      → Map String Slice
      → Map String Float
      → Map String Slice × Map String Float
  each_policy body [] factors = ([], factors)
  each_policy body ((name, s) ∷ slices) factors =
      let (p, f) = body s.allocation_policy in
      let (rest, factors') = each_policy body slices (put_factor name f factors) in
      ((name, set_policy p s) ∷ rest, factors')

  -- `new_share_factors` before the loops.
  abbrev pub placeholders : Map String Slice → Map String Float
  placeholders [] = []
  placeholders ((name, s) ∷ slices) = (name, zero) ∷ placeholders slices
