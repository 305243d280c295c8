-- ===== src/WarningLimit/Examples.antt =====
-- Instances of the theorems on the limit of warnings, with numbers for the sites.
use keep_afloat_d.Prelude.{ℕ, ◌+◌, ◌<◌, ◌≡◌, List, [], ◌∷◌, ◌++◌, nat_ord, arith}
use keep_afloat_d.Admission.Duration.{seconds}
use keep_afloat_d.WarningLimit.Account.{recorded, window_of, reported, reported_lem}
use keep_afloat_d.WarningLimit.Rate.{lines, lines_grow}

-- Three warnings of site 1 and one of site 2 within 30 seconds, and a last one of site 1.
abbrev between : List (ℕ × ℕ)
between = (1, seconds 20) ∷ (2, seconds 12) ∷ (1, seconds 10) ∷ []

abbrev history : List (ℕ × ℕ)
history = (1, seconds 35) ∷ between ++ (1, seconds 5) ∷ []

abbrev start : List (ℕ × ℕ)
start = []

reported_lem_example : reported 1 history + (window_of (recorded history) 1).suppressed ≡ 4
reported_lem_example = reported_lem 1 history (omega arith)

lines_grow_example : lines 1 start < lines 1 history
lines_grow_example = lines_grow (seconds 5) (seconds 35) 1 between start tt (omega arith)
