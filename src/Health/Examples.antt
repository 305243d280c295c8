-- ===== src/Health/Examples.antt =====
-- Instances of the theorems on local health.
use keep_afloat_d.Prelude.{◌≡◌, refl, true, false, ◌&&◌, List, [], ◌∷◌, leb, arith}
use keep_afloat_d.Health.{new_health, check_continuity, observe, observe_probe}
use keep_afloat_d.Health.Dampening.{observed, succeeded, failures, observe_lem}
use keep_afloat_d.Health.Continuity.{Event, probed, run, happen}

-- Two failures after a success, under a delay of two.
observe_lem_example :
    (observe false (observed 2 (false ∷ true ∷ []))).1
    ≡ (succeeded (false ∷ false ∷ true ∷ []) && leb (failures (false ∷ false ∷ true ∷ [])) 2)
observe_lem_example = observe_lem 2 false (false ∷ true ∷ []) (omega arith)

third_failure : (observe false (observed 2 (false ∷ false ∷ true ∷ []))).1 ≡ false
unfolding observe observed
third_failure = refl

abbrev probes : List Event
probes = probed true ∷ probed true ∷ []

-- A loss that is repaired at once is noticed all the same.
lost : check_continuity 0 (run (probed false ∷ probed true ∷ []) (new_health true)) ≡ false
unfolding run happen observe_probe
lost = refl
