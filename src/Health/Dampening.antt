-- ===== src/Health/Dampening.antt =====
-- The dampener of src/health.rs against what it is for: a node that was healthy stays healthy while no
-- more probes than the delay have failed since the last success.
use keep_afloat_d.Prelude.{
  ℕ, ◌+◌, ◌<◌, ◌≡◌, ◌∙◌, refl, Bool, true, false, ◌&&◌, List, [], ◌∷◌, any, leb, u64_max, arith,
  Bool-cases, inl, inr,
}
use keep_afloat_d.Health.{FailureDampener, new_dampener, observe}

-- The dampener after the probes, the latest first.
unfoldable pub observed : ℕ → List Bool → FailureDampener
unfolding observe
observed delay [] = new_dampener delay
observed delay (probe ∷ earlier) = (observe probe (observed delay earlier)).0

-- Whether any probe succeeded, and how many have failed since.
abbrev pub succeeded : List Bool → Bool
succeeded = any (λ p. p)

abbrev pub failures : List Bool → ℕ
failures [] = 0
failures (true ∷ earlier) = 0
failures (false ∷ earlier) = failures earlier + 1

-- The dampener tells whether a probe succeeded and how many have failed since.
record Tracks (delay : ℕ) (success : Bool) (fails : ℕ) (d : FailureDampener) : Type 0 where
  delay_kept : d.delay_ticks ≡ delay
  health : d.effective_healthy ≡ (success && leb fails delay)
  ticks : d.effective_healthy ≡ true → d.failure_ticks ≡ fails

failure-Tracks :
    (delay : ℕ) (success : Bool) (fails : ℕ) (d : FailureDampener)
    → delay < u64_max
    → Tracks delay success fails d
    → Tracks delay success (fails + 1) (observe false d).0
unfolding observe
failure-Tracks delay success fails d small t = elim (Bool-cases d.effective_healthy) [
  | inl up ↦
      let same = t.ticks up in
      let kept = t.delay_kept in
      let was = t.health in
      rw up (record { delay_kept = kept; health = ground arith; ticks = λ e. ground arith })
  | inr down ↦
      let was = t.health in
      rw down
        (record { delay_kept = t.delay_kept; health = ground arith; ticks = λ e. ground arith })
]

observed-Tracks :
    (delay : ℕ) (probes : List Bool)
    → delay < u64_max
    → Tracks delay (succeeded probes) (failures probes) (observed delay probes)
unfolding observed observe
observed-Tracks delay [] small = record { delay_kept = refl; health = refl; ticks = λ e. refl }
observed-Tracks delay (true ∷ earlier) small =
    let t = observed-Tracks delay earlier small in
    record { delay_kept = t.delay_kept; health = ground arith; ticks = λ e. refl }
observed-Tracks delay (false ∷ earlier) small =
    failure-Tracks delay (succeeded earlier) (failures earlier) (observed delay earlier) small
      (observed-Tracks delay earlier small)

shown : (d : FailureDampener) → (observe false d).1 ≡ (observe false d).0.effective_healthy
unfolding observe
shown d = ground arith

-- For a delay below the largest counter, the health that the dampener shows after any probes is that
-- some probe succeeded and no more than the delay have failed since the last one that did.
pub observe_lem :
    (delay : ℕ) (probe : Bool) (earlier : List Bool)
    → delay < u64_max
    → (observe probe (observed delay earlier)).1
      ≡ (succeeded (probe ∷ earlier) && leb (failures (probe ∷ earlier)) delay)
unfolding observe
observe_lem delay true earlier small = ground arith
observe_lem delay false earlier small =
    shown (observed delay earlier)
    ∙ (failure-Tracks delay (succeeded earlier) (failures earlier) (observed delay earlier) small
        (observed-Tracks delay earlier small)).health
