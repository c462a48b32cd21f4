-- ===== src/App/Equalize/Handle.antt =====
-- The last loop of the handler, and the whole handler.
use nexran.Base.{String, [], ◌∷◌, if◌then◌else◌, string_key}
use nexran.Base.Int.{ℤ, pos, ltb_ℤ, beq_ℤ, min_ℤ}
use nexran.Base.Map.{Map}
use nexran.E2sm.Types.{slice_config}
use nexran.Kpm.Report.{KpmReport}
use nexran.Resource.Policy.{Policy, set_share}
use nexran.Resource.Slice.{Slice}
use nexran.Resource.NodeB.{NodeB}
use nexran.E2ap.State.{Platform, E2ap}
use nexran.App.Types.{App}
use nexran.App.Send.{send_to_bound}
use nexran.App.Equalize.Float.{FloatOps}
use nexran.App.Equalize.Collect.{
  set_policy, no_totals, collect, release_one, start_one, each_policy, placeholders,
}
use nexran.App.Equalize.Factors.{factor_at, new_factors}

module _ (platform : Platform) (ops : FloatOps) where
  open ops use {Float, of_int, add, mul, to_int}

  -- `std::min((int)(cshare + (cshare * factor)),1024)`, and at least 64.
  unfoldable pub next_share : ℤ → Float → ℤ
  next_share cshare factor =
      let nshare = min_ℤ (to_int (add (of_int cshare) (mul (of_int cshare) factor))) (pos 1024) in
      if ltb_ℤ nshare (pos 64) then pos 64 else nshare

  -- One slice of the last loop: its new share, and the requests to the nodes that it is bound to.
  unfoldable pub apply_one : Map String NodeB → String → Float → Policy → E2ap → Policy × E2ap
  unfolding next_share set_share send_to_bound
  apply_one nodebs name factor p e =
      let nshare = next_share p.share factor in
      (
        (set_share nshare p).0,
        if beq_ℤ p.share nshare
            then e
            else send_to_bound platform name
                (slice_config (record { name = name; share = nshare } ∷ [])) nodebs e,
      )

  -- `new_share_factors` has the names of `slices`, in the same order.
  unfoldable pub apply :
      Map String NodeB → Map String Float → Map String Slice → E2ap → Map String Slice × E2ap
  unfolding apply_one
  apply nodebs factors [] e = ([], e)
  apply nodebs factors ((name, s) ∷ slices) e =
      let (p, e1) = apply_one nodebs name (factor_at ops name factors) s.allocation_policy e in
      let (rest, e2) = apply nodebs factors slices e1 in ((name, set_policy p s) ∷ rest, e2)

  -- The slices and the factors after the first seven loops.
  unfoldable pub prepare : ℤ → KpmReport → Map String Slice → Map String Slice × Map String Float
  unfolding collect release_one start_one each_policy new_factors
  prepare now report slices =
      let (slices1, totals) = collect now report.slices (slices, no_totals) in
      let (slices2, factors2) =
        each_policy ops (release_one ops now) slices1 (placeholders ops slices1) in
      let (slices3, factors3) = each_policy ops (start_one ops now) slices2 factors2 in
      (slices3, new_factors ops report totals slices3 factors3)

  -- What the handler does when a slice is reported.
  unfoldable pub handle_slices : ℤ → KpmReport → App → App
  unfolding prepare apply
  handle_slices now report app =
      let (slices1, factors) = prepare now report app.slices in
      let (slices2, e) = apply app.nodebs factors slices1 app.e2ap in
      record app { slices = slices2; e2ap = e }

  unfoldable pub handle_kpm : ℤ → KpmReport → App → App
  unfolding handle_slices
  handle_kpm now report app = elim report.slices [
    | [] ↦ app
    | first ∷ more ↦ handle_slices now report app
  ]
