-- ===== src/Health/Continuity.antt =====
-- A continuity that still checks has seen no loss of health (src/health/local.rs).
use keep_afloat_d.Prelude.{
  ℕ, ◌≤◌, ◌≡◌, Bool, true, false, not, List, [], ◌∷◌, ◌==◌, saturating_add, u64_max, arith,
  Bool-cases, inl, inr,
}
use keep_afloat_d.Health.{BindFault, Status, healthy, check_continuity, observe_probe, fail_binding}

pub data Event : Type 0 where
  probed : Bool → Event
  bind_failed : BindFault → Event

unfoldable pub happen : Event → Status → Status
unfolding observe_probe fail_binding
happen (probed b) s = (observe_probe b s).0
happen (bind_failed fault) s = fail_binding fault s

-- The events, the earliest first, and whether the node is healthy before and after each.
unfoldable pub run : List Event → Status → Status
unfolding happen
run [] s = s
run (e ∷ es) s = run es (happen e s)

abbrev pub HealthyThroughout : List Event → Status → Type 0
HealthyThroughout [] s = healthy s ≡ true
HealthyThroughout (e ∷ es) s = (healthy s ≡ true) × HealthyThroughout es (happen e s)

happen-epoch :
    (e : Event) (s : Status)
    → s.loss_epoch ≤ u64_max
    → (s.loss_epoch ≤ (happen e s).loss_epoch) × ((happen e s).loss_epoch ≤ u64_max)
unfolding happen observe_probe fail_binding
happen-epoch (probed b) s small = ground arith
happen-epoch (bind_failed fault) s small = ground arith

happen-loss :
    (e : Event) (s : Status)
    → healthy s ≡ true
    → healthy (happen e s) ≡ false
    → (happen e s).loss_epoch ≡ saturating_add s.loss_epoch 1
unfolding happen observe_probe fail_binding
happen-loss (probed b) s up down = ground arith
happen-loss (bind_failed fault) s up down = ground arith

run-epoch :
    (es : List Event) (s : Status) → s.loss_epoch ≤ u64_max → s.loss_epoch ≤ (run es s).loss_epoch
unfolding run
run-epoch [] s small = omega arith
run-epoch (e ∷ es) s small =
    let (step, bound) = happen-epoch e s small in omega (arith, run-epoch es (happen e s) bound)

check_continuity-eq :
    (n : ℕ) (s : Status)
    → check_continuity n s ≡ true
    → (healthy s ≡ true) × (s.loss_epoch ≡ n) × (not (n == u64_max) ≡ true)
check_continuity-eq n s h = (ground arith, ground arith, ground arith)

-- A continuity that was observed while the node was healthy, and that checks after any probes and bind
-- faults, has seen the node healthy all along; its epoch is a 64-bit number.
pub check_continuity-HealthyThroughout :
    (es : List Event) (s : Status)
    → s.loss_epoch ≤ u64_max
    → healthy s ≡ true
    → check_continuity s.loss_epoch (run es s) ≡ true
    → HealthyThroughout es s
unfolding run
check_continuity-HealthyThroughout [] s small up h = up
check_continuity-HealthyThroughout (e ∷ es) s small up h =
    let (step, bound) = happen-epoch e s small in
    let later = run-epoch es (happen e s) bound in
    let (_, final, unsaturated) = check_continuity-eq s.loss_epoch (run es (happen e s)) h in
    let same : (happen e s).loss_epoch ≡ s.loss_epoch = omega arith in
    (
      up,
      elim (Bool-cases (healthy (happen e s))) [
        | inl still ↦ check_continuity-HealthyThroughout es (happen e s) bound still (rw same h)
        | inr down ↦ absurd (ground (arith, happen-loss e s up down))
      ],
    )
