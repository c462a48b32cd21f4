-- ===== src/Examples/E2sm.antt =====
-- A row of calls on a control object of lib/e2sm/include/e2sm.h.
use nexran.Base.{[], ◌∷◌, ◌≡◌}
use nexran.E2sm.Types.{slice_delete}
use nexran.E2sm.Control.{encode, encode_parts}
use nexran.E2sm.Object.{new_object}
use nexran.E2sm.Object.Getters.{Getter, results, results-map}
use nexran.Examples.{platform}

-- The first call encodes, and later ones read the buffers.
results-map_example :
    results platform.codec.controls
      (Getter.message ∷ Getter.header ∷ Getter.message ∷ [])
      (new_object (slice_delete ("fast" ∷ [])))
    ≡ (2 ∷ []) ∷ (1 ∷ []) ∷ (2 ∷ []) ∷ []
unfolding encode encode_parts
results-map_example =
    results-map platform.codec.controls (slice_delete ("fast" ∷ []))
      (Getter.message ∷ Getter.header ∷ Getter.message ∷ [])
