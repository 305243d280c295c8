-- ===== src/Store/Examples/Replicas.antt =====
-- Instances of the theorems on what nodes make of one log.
use keep_afloat_d.Prelude.{
  ℕ, true, false, none, some, [], ◌∷◌, ◌≡◌, refl, nat_ord, arith, sort_unstable,
}
use keep_afloat_d.BTreeMap
use keep_afloat_d.BTreeMap.{BTreeMap}
use keep_afloat_d.BTreeSet
use keep_afloat_d.Addr.{v4, ip_ord}
use keep_afloat_d.Identity.{replica_ord}
use keep_afloat_d.VipLogic.Eligibility.{
  is_node_eligible, is_node_probe_fresh, next_probe_tick, is_node_base_eligible,
}
use keep_afloat_d.VipLogic.Reconcile.{reconcile_vip_assignments}
use keep_afloat_d.VipLogic.Assign.{assign_vips_minimal_movement}
use keep_afloat_d.BindPolicy.{BindGates, all_open, is_fence_lifted, should_bind_or_keep_vip}
use keep_afloat_d.Store.Recompute.{new_holders}
use keep_afloat_d.Store.State.{KafStorageState, Entry, blank, normal, health_update, new}
use keep_afloat_d.Store.Machine.{apply_health, activate_v2, update_v2_failback_tracking}
use keep_afloat_d.Store.Membership.{unique_voters, forget_changed, apply_membership}
use keep_afloat_d.Store.Snapshot.{snapshot_of, restore_into}
use keep_afloat_d.Store.Apply.{apply_one, apply_all}
use keep_afloat_d.Store.Apply.Takeover.{IsFencedOff, apply_one-IsFencedOff}
use keep_afloat_d.Store.Local.CatchUp.{SameConfig, restore_into-apply_all}
use keep_afloat_d.Store.Examples.{
  engine, entry, booted, began, failed, running, waiting, listed, listed-IsDistinct,
}

abbrev failing : Entry engine
failing = entry 4 (normal (health_update 1 false))

abbrev open_gates : BindGates
open_gates = record { has_leader = true; local_healthy = true; consensus_fresh = true }

-- Node 1 has not reported since round 2, and node 2 sees round 9.
abbrev seen : BTreeMap ℕ ℕ
seen = (1, 2) ∷ (2, 9) ∷ []

held_before :
    (BTreeMap.get running.vip_last_holder (v4 10) ≡ some 1)
    × (BTreeMap.get_or running.vip_generation (v4 10) 0 ≡ 1)
unfolding apply_all apply_one new apply_membership unique_voters forget_changed apply_health
    next_probe_tick new_holders update_v2_failback_tracking activate_v2 is_node_eligible
    is_node_base_eligible is_node_probe_fresh reconcile_vip_assignments assign_vips_minimal_movement
    BTreeMap.insert BTreeMap.get BTreeMap.remove BTreeMap.retain BTreeSet.contains BTreeSet.insert
    BTreeSet.remove BTreeSet.collect BTreeSet.extend sort_unstable ip_ord replica_ord
held_before = (refl, refl)

handed_over :
    (BTreeMap.get (apply_one failing running).0.vip_assignments (v4 10) ≡ some waiting)
    × ((apply_one failing running).0.latest_probe_tick ≡ 2)
unfolding apply_all apply_one new apply_membership unique_voters forget_changed apply_health
    next_probe_tick new_holders update_v2_failback_tracking activate_v2 is_node_eligible
    is_node_base_eligible is_node_probe_fresh reconcile_vip_assignments assign_vips_minimal_movement
    BTreeMap.insert BTreeMap.get BTreeMap.remove BTreeMap.retain BTreeSet.contains BTreeSet.insert
    BTreeSet.remove BTreeSet.collect BTreeSet.extend sort_unstable ip_ord replica_ord
handed_over = (refl, refl)

may_bind : should_bind_or_keep_vip open_gates 2 (some waiting) seen 9 3 none ≡ true
unfolding should_bind_or_keep_vip all_open is_fence_lifted is_node_probe_fresh BTreeMap.get
may_bind = refl

apply_one-IsFencedOff_example :
    IsFencedOff 1 (apply_one failing running).0.latest_probe_tick 2 waiting seen 9 3
apply_one-IsFencedOff_example =
    apply_one-IsFencedOff listed 3 true 2 began failing (v4 10) 1 waiting open_gates 2 seen 9 3 none
      listed-IsDistinct held_before.0 handed_over.0 (λ e. omega (arith, e))
      (omega (arith, held_before.1)) (omega (arith, handed_over.1)) tt may_bind

-- A node with another log and a vote of its own.
abbrev behind : KafStorageState engine
behind = record booted { log = (1, entry 1 blank) ∷ []; vote = some 7 }

running-behind : SameConfig running behind
unfolding apply_all apply_one new apply_membership unique_voters forget_changed apply_health
    next_probe_tick new_holders update_v2_failback_tracking activate_v2 is_node_eligible
    is_node_base_eligible is_node_probe_fresh reconcile_vip_assignments assign_vips_minimal_movement
    BTreeMap.insert BTreeMap.get BTreeMap.remove BTreeMap.retain BTreeSet.contains BTreeSet.insert
    BTreeSet.remove BTreeSet.collect BTreeSet.extend sort_unstable ip_ord replica_ord
running-behind = record {
  vip_list = refl;
  stale_missed_probes = refl;
  failback = refl;
  failback_delay_ticks = refl;
}

restore_into-apply_all_example :
    snapshot_of (apply_all failed (restore_into (snapshot_of running) behind))
    ≡ snapshot_of (apply_all failed running)
restore_into-apply_all_example =
    restore_into-apply_all listed 3 true 2 began failed behind running-behind
