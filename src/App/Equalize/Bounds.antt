-- ===== src/App/Equalize/Bounds.antt =====
-- The shares that the handler of src/nexran.cc sets.
use nexran.Base.{◌≡◌, ◌≢◌, ◌⊎◌, inl, inr, refl, String, [], ◌∷◌, All, arith}
use nexran.Base.Int.{ℤ, pos, ◌≤ℤ◌}
use nexran.Base.Map.{Map}
use nexran.Kpm.Metrics.{EntityMetrics}
use nexran.Kpm.Report.{KpmReport}
use nexran.Resource.Policy.{Policy, set_share}
use nexran.Resource.Slice.{Slice}
use nexran.Resource.NodeB.{NodeB}
use nexran.E2ap.State.{Platform, E2ap}
use nexran.App.Types.{App}
use nexran.App.Equalize.Float.{FloatOps}
use nexran.App.Equalize.Handle.{next_share, apply_one, apply, prepare, handle_slices, handle_kpm}

abbrev pub HasShareInBounds : String × Slice → Type 0
HasShareInBounds (name, s) =
    (pos 64 ≤ℤ s.allocation_policy.share) × (s.allocation_policy.share ≤ℤ pos 1024)

module _ (platform : Platform) (ops : FloatOps) where
  open ops use {Float}

  pub List-cases :
      (l : Map String EntityMetrics)
      → (l ≡ []) ⊎ ((x : String × EntityMetrics) × (m : Map String EntityMetrics) × (l ≡ x ∷ m))
  List-cases [] = inl refl
  List-cases (x ∷ m) = inr (x, m, refl)

  pub handle_kpm-reported :
      (now : ℤ) (report : KpmReport) (app : App)
      → report.slices ≢ []
      → handle_kpm platform ops now report app ≡ handle_slices platform ops now report app
  unfolding handle_kpm
  handle_kpm-reported now report app h = elim (List-cases report.slices) [
    | inl e ↦ absurd (h e)
    | inr (x, m, e) ↦ ground (arith, e)
  ]

  next_share-bounds :
      (c : ℤ) (f : Float)
      → (pos 64 ≤ℤ next_share platform ops c f) × (next_share platform ops c f ≤ℤ pos 1024)
  unfolding next_share
  next_share-bounds c f = ground arith

  -- `setShare` takes the new share.
  pub apply_one-share :
      (nodebs : Map String NodeB) (k : String) (f : Float) (p : Policy) (e : E2ap)
      → (apply_one platform ops nodebs k f p e).0.share ≡ next_share platform ops p.share f
  unfolding apply_one set_share
  apply_one-share nodebs k f p e = ground (arith, next_share-bounds p.share f)

  apply-bounds :
      (nodebs : Map String NodeB) (factors : Map String Float) (slices : Map String Slice)
      (e : E2ap)
      → All HasShareInBounds (apply platform ops nodebs factors slices e).0
  unfolding apply apply_one set_share
  apply-bounds nodebs factors [] e = tt
  apply-bounds nodebs factors ((name, s) ∷ slices) e = (
    ground (arith, next_share-bounds s.allocation_policy.share),
    apply-bounds nodebs factors slices _,
  )

  -- After a report on some slice, every slice of the database has a share from 64 to 1024, whatever
  -- it was and whether or not it is equalised or throttled.
  pub handle_kpm-bounds :
      (now : ℤ) (report : KpmReport) (app : App)
      → report.slices ≢ []
      → All HasShareInBounds (handle_kpm platform ops now report app).slices
  unfolding handle_slices handle_kpm
  handle_kpm-bounds now report app some_slice = rw (handle_kpm-reported now report app some_slice) (
      apply-bounds app.nodebs (prepare platform ops now report app.slices).1
        (prepare platform ops now report app.slices).0 app.e2ap)
