-- ===== src/Admission/Timing.antt =====
-- `LeaseTiming` of src/runtime_permission/timing.rs: the lifetimes of consumer, issuer and restart.
pub mod Rates
use keep_afloat_d.Prelude.{
  ℕ, ◌+◌, ◌*◌, ◌/◌, min, max, Option, none, some, ◌==◌, if◌then◌else◌, Result, ok, err, String,
  ◌>>=◌, ok_or, and_then,
}
use keep_afloat_d.Admission.Duration.{
  millis, seconds, u32_max, checked, checked_mul, checked_add, saturating_duration_add,
  saturating_mul,
}
use keep_afloat_d.VipLogic.Reconcile.{ownership_activation_holdoff_ticks}

abbrev pub clock_rate_ratio : ℕ
clock_rate_ratio = 2

pub record LeaseTiming : Type 0 where
  pub consumer_use : ℕ
  pub issuer_reservation : ℕ
  pub restart_quarantine : ℕ
  pub vip_activation_delay : ℕ
  pub rpc_budget : ℕ
  pub renewal_interval : ℕ
  pub renewal_round_budget : ℕ

-- `LeaseTiming::new`
unfoldable pub new_timing : ℕ → ℕ → Result LeaseTiming String
new_timing consumer_use cleanup_budget =
    if consumer_use == 0
    then err "admission lifetime must be positive"
    else and_then
        (ok_or (checked_mul consumer_use clock_rate_ratio)
          "admission reservation duration overflow")
        (λ issuer_reservation.
          and_then
            (ok_or (checked_mul issuer_reservation clock_rate_ratio)
              "admission quarantine duration overflow")
            (λ restart_quarantine.
              and_then
                (ok_or
                  (checked_add consumer_use cleanup_budget >>= λ d. checked_mul d clock_rate_ratio)
                  "VIP activation duration overflow")
                (λ vip_activation_delay. ok (record {
                  consumer_use = consumer_use;
                  issuer_reservation = issuer_reservation;
                  restart_quarantine = restart_quarantine;
                  vip_activation_delay = vip_activation_delay;
                  rpc_budget = min (consumer_use / 6) (millis 500);
                  renewal_interval = consumer_use / 4;
                  renewal_round_budget = consumer_use;
                }))))

-- What `for_config` reads of the configuration, and the number of VIPs.
pub record TimingInputs : Type 0 where
  pub interval_ms : ℕ
  pub stale_missed_probes : ℕ
  pub election_timeout_min_ms : ℕ
  pub election_timeout_max_ms : ℕ
  pub heartbeat_interval_ms : ℕ
  pub peers : ℕ
  pub vip_count : ℕ

-- `vip::SHUTDOWN_VIP_BUDGET` and `vip::RECONCILE_TICK`
abbrev pub shutdown_vip_budget : ℕ
shutdown_vip_budget = seconds 12

abbrev pub reconcile_tick : ℕ
reconcile_tick = millis 250

-- The lifetime of `ConsensusFreshness::for_probe_cadence`.
unfoldable pub probe_cadence : ℕ → ℕ → ℕ
probe_cadence interval_ms stale_missed_probes =
    saturating_duration_add (millis (saturating_mul interval_ms stale_missed_probes))
      (millis (saturating_mul interval_ms ownership_activation_holdoff_ticks) / 2)

unfoldable pub cleanup_budget : ℕ → Result ℕ String
cleanup_budget vip_count =
    and_then (ok_or (checked u32_max vip_count) "too many VIPs for admission cleanup budget")
      (λ count.
        ok_or (checked_mul shutdown_vip_budget count >>= λ d. checked_add d reconcile_tick)
          "admission cleanup budget overflow")

unfoldable pub election_budget : TimingInputs → Result ℕ String
election_budget c =
    ok_or
      (checked_mul (millis c.election_timeout_max_ms) 3 >>= λ d.
        checked_add d (millis c.heartbeat_interval_ms * 3 / 2) >>= λ d.
        checked_add d (millis c.election_timeout_min_ms * 2))
      "admission election budget overflow"

unfoldable pub round_budget : ℕ → ℕ → Result ℕ String
round_budget rpc_budget peers =
    and_then
      (ok_or (checked u32_max peers >>= λ count. checked u32_max (count + 4))
        "admission renewal roster too large")
      (λ slots. ok_or (checked_mul rpc_budget slots) "admission renewal budget overflow")

unfoldable pub recovery_budget : ℕ → ℕ → ℕ → Result ℕ String
recovery_budget election round renewal_interval =
    ok_or
      (checked_mul election clock_rate_ratio >>= λ d.
        checked_add d (round * 4) >>= λ d. checked_add d (renewal_interval * 2))
      "admission recovery budget overflow"

-- `LeaseTiming::for_config`
unfoldable pub for_config : TimingInputs → Result LeaseTiming String
unfolding new_timing probe_cadence cleanup_budget election_budget round_budget recovery_budget
for_config c = and_then (cleanup_budget c.vip_count) (λ cleanup.
    let health_window = probe_cadence c.interval_ms c.stale_missed_probes in
    let rpc_budget = min (health_window / 6) (millis 500) in
    let renewal_interval = health_window / 4 in
    and_then (election_budget c) (λ election. and_then (round_budget rpc_budget c.peers) (λ round.
      and_then (recovery_budget election round renewal_interval) (λ recovery.
        and_then (new_timing (max health_window recovery) cleanup) (λ timing. ok (record timing {
          rpc_budget = rpc_budget;
          renewal_interval = renewal_interval;
          renewal_round_budget = round;
        }))))))

-- `deadline`, where `limit` is the last `Instant` that the platform represents.
unfoldable pub deadline : ℕ → ℕ → ℕ → Result ℕ String
deadline limit start lifetime =
    ok_or (checked limit (start + lifetime)) "admission deadline overflow"

unfoldable pub consumer_deadline : ℕ → LeaseTiming → ℕ → Result ℕ String
unfolding deadline
consumer_deadline limit t request_started = deadline limit request_started t.consumer_use

unfoldable pub reservation_deadline : ℕ → LeaseTiming → ℕ → Result ℕ String
unfolding deadline
reservation_deadline limit t reserved = deadline limit reserved t.issuer_reservation

unfoldable pub quarantine_deadline : ℕ → LeaseTiming → ℕ → Result ℕ String
unfolding deadline
quarantine_deadline limit t boot_started = deadline limit boot_started t.restart_quarantine

unfoldable pub vip_activation_deadline : ℕ → LeaseTiming → ℕ → Result ℕ String
unfolding deadline
vip_activation_deadline limit t admitted = deadline limit admitted t.vip_activation_delay

-- `startup_vip_delay`
unfoldable pub startup_vip_delay : LeaseTiming → Result ℕ String
startup_vip_delay t =
    ok_or (checked_add t.restart_quarantine t.vip_activation_delay) "VIP startup duration overflow"
