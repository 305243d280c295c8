-- ===== src/Health.antt =====
-- The local health of a node (src/health.rs, src/health/local.rs): the dampening of failed probes, and
-- the continuity that an effect in flight rests on.
pub mod Dampening
pub mod Continuity
pub mod Examples
use keep_afloat_d.Prelude.{
  ℕ, Bool, true, false, not, ◌&&◌, Option, none, some, List, [], ◌∷◌, ltb, ◌==◌, if◌then◌else◌,
  is_some, saturating_add, u64_max,
}

pub record FailureDampener : Type 0 where
  pub delay_ticks : ℕ
  pub failure_ticks : ℕ
  pub effective_healthy : Bool

-- `FailureDampener::new`
abbrev pub new_dampener : ℕ → FailureDampener
new_dampener delay_ticks = record {
  delay_ticks = delay_ticks;
  failure_ticks = 0;
  effective_healthy = false;
}

-- `FailureDampener::observe`: the dampener after it, and the health that it shows.
unfoldable pub observe : Bool → FailureDampener → FailureDampener × Bool
observe true d = (record d { failure_ticks = 0; effective_healthy = true }, true)
observe false d =
    if not d.effective_healthy
    then (d, false)
    else (let ticks = saturating_add d.failure_ticks 1 in
        let healthy = not (ltb d.delay_ticks ticks) in
        (record d { failure_ticks = ticks; effective_healthy = healthy }, healthy))

pub data BindFault : Type 0 where
  failed timed_out : BindFault

pub record Status : Type 0 where
  pub probe_healthy : Bool
  pub bind_fault : Option BindFault
  pub loss_epoch : ℕ

-- `Status::healthy`
abbrev pub healthy : Status → Bool
healthy s = s.probe_healthy && not (is_some s.bind_fault)

-- `LocalHealth::new`
abbrev pub new_health : Bool → Status
new_health probe_healthy = record {
  probe_healthy = probe_healthy;
  bind_fault = none;
  loss_epoch = 0;
}

-- `HealthContinuity::check` of a continuity that was observed at this epoch.
abbrev pub check_continuity : ℕ → Status → Bool
check_continuity loss_epoch s =
    healthy s && s.loss_epoch == loss_epoch && not (loss_epoch == u64_max)

-- `LocalHealth::observe_probe`: the status after it, and the health before it.
unfoldable pub observe_probe : Bool → Status → Status × Bool
observe_probe probe s =
    let next = record s { probe_healthy = probe } in
    (
      if healthy s && not (healthy next)
          then record next { loss_epoch = saturating_add s.loss_epoch 1 }
          else next,
      healthy s,
    )

-- `LocalHealth::fail_binding`
unfoldable pub fail_binding : BindFault → Status → Status
fail_binding fault s = if is_some s.bind_fault then s else record s {
  loss_epoch = if healthy s then saturating_add s.loss_epoch 1 else s.loss_epoch;
  bind_fault = some fault;
}
