-- ===== src/Examples/Equalize.antt =====
-- The properties of the KPM handler at the small database.
use nexran.Base.{◌≡◌, refl, true, false, [], ◌∷◌, some, string_key, All, arith}
use nexran.Base.Int.{pos}
use nexran.Base.Map.{find}
use nexran.Kpm.Metrics.{leading}
use nexran.Kpm.Report.{KpmReport}
use nexran.Resource.Slice.{Slice}
use nexran.E2ap.State.{new_e2ap}
use nexran.App.Types.{App}
use nexran.App.Equalize.Handle.{handle_slices, handle_kpm}
use nexran.App.Equalize.Bounds.{HasShareInBounds, handle_kpm-bounds}
use nexran.App.Equalize.Effects.{handle_slices-stuck}
use nexran.Examples.{platform, thousandths, node, fast, policy}

-- Two slices at a node, and a report on both.
abbrev slow : Slice
slow = record { address = 4; name = "slow"; allocation_policy = policy; ues = [] }

abbrev stuck_slice : Slice
stuck_slice = record {
  address = 5;
  name = "stuck";
  allocation_policy = record policy {
    throttle = false;
    is_throttling = true;
    throttle_saved_share = pos 700;
  };
  ues = [];
}

abbrev app : App
app = record {
  nodebs =
      (
        "gnB_001_001_000001",
        record node {
          slices =
              ("fast", record { name = "fast"; address = 2 })
              ∷ ("slow", record { name = "slow"; address = 4 })
              ∷ [];
        },
      )
      ∷ [];
  slices = ("fast", fast) ∷ ("slow", slow) ∷ ("stuck", stuck_slice) ∷ [];
  ues = [];
  e2ap = new_e2ap;
}

abbrev pub report : KpmReport
report = record {
  period_ms = pos 1;
  available_dl_prbs = pos 100;
  available_ul_prbs = pos 100;
  active_ues = pos 2;
  ues = [];
  slices = ("fast", leading (pos 120) 10 20 90 5) ∷ ("slow", leading (pos 120) 5 20 40 5) ∷ [];
}

handle_kpm-bounds_example :
    All HasShareInBounds (handle_kpm platform thousandths (pos 130) report app).slices
handle_kpm-bounds_example =
    handle_kpm-bounds platform thousandths (pos 130) report app (λ e. ground (arith, e))

handle_slices-stuck_example :
    (t : Slice) × (find "stuck" (handle_slices platform thousandths (pos 130) report app).slices
      ≡ some t)
    × (t.allocation_policy.throttle ≡ false)
    × (t.allocation_policy.is_throttling ≡ true)
    × (t.allocation_policy.throttle_saved_share ≡ pos 700)
unfolding find
handle_slices-stuck_example =
    handle_slices-stuck platform thousandths (pos 130) report app "stuck" stuck_slice refl refl refl
