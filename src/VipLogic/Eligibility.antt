-- ===== src/VipLogic/Eligibility.antt =====
-- Which nodes may hold a VIP, and the committed probe rounds (src/raft/store/vip_logic.rs).
use keep_afloat_d.Prelude.{
  ℕ, max, Bool, true, false, Option, none, some, ltb, leb, if◌then◌else◌, not, unwrap_or,
  saturating_add, saturating_sub, nat_ord,
}
use keep_afloat_d.BTreeMap
use keep_afloat_d.BTreeMap.{BTreeMap}
use keep_afloat_d.BTreeSet
use keep_afloat_d.BTreeSet.{BTreeSet}

pub record EligibilityInputs : Type 0 where
  pub node_health : BTreeMap ℕ Bool
  pub node_probe_ticks : BTreeMap ℕ ℕ
  pub latest_probe_tick : ℕ
  pub stale_missed_probes : ℕ
  pub failback_delay_ticks : ℕ
  pub node_recovery_tick : BTreeMap ℕ ℕ

unfoldable pub is_node_probe_fresh : ℕ → BTreeMap ℕ ℕ → ℕ → ℕ → Bool
is_node_probe_fresh node_id node_probe_ticks latest_probe_tick stale_missed_probes =
    elim (BTreeMap.get node_probe_ticks node_id) [
      | none ↦ false
      | some last_tick ↦ leb (saturating_sub latest_probe_tick last_tick) stale_missed_probes
    ]

unfoldable pub is_node_base_eligible : ℕ → BTreeMap ℕ Bool → BTreeMap ℕ ℕ → ℕ → ℕ → Bool
is_node_base_eligible node_id node_health node_probe_ticks latest_probe_tick stale_missed_probes =
    if not (BTreeMap.get_or node_health node_id false)
    then false
    else is_node_probe_fresh node_id node_probe_ticks latest_probe_tick stale_missed_probes

-- The failback delay has not passed yet.
unfoldable pub is_recovering : ℕ → EligibilityInputs → Bool
is_recovering node_id inputs = elim (BTreeMap.get inputs.node_recovery_tick node_id) [
  | none ↦ false
  | some recovery_tick ↦
      ltb (saturating_sub inputs.latest_probe_tick recovery_tick) inputs.failback_delay_ticks
]

unfoldable pub is_node_eligible : ℕ → EligibilityInputs → BTreeSet ℕ → Bool
unfolding is_recovering
is_node_eligible node_id inputs node_failback_blocked =
    if BTreeSet.contains node_failback_blocked node_id
    then false
    else if not (
        is_node_base_eligible node_id inputs.node_health inputs.node_probe_ticks
          inputs.latest_probe_tick inputs.stale_missed_probes)
    then false
    else if is_recovering node_id inputs
    then false
    else true

unfoldable pub next_probe_tick : Option ℕ → ℕ → ℕ
next_probe_tick prev latest_probe_tick = max (saturating_add (unwrap_or prev 0) 1) latest_probe_tick
