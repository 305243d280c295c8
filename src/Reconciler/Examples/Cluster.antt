-- ===== src/Reconciler/Examples/Cluster.antt =====
-- An instance of the theorem on the parts together: a list of one VIP and a cluster of two nodes.
use keep_afloat_d.Prelude.{
  ◌≡◌, refl, true, some, none, List, [], ◌∷◌, nat_ord, ok, arith, sort_unstable,
}
use keep_afloat_d.BTreeMap
use keep_afloat_d.BTreeSet
use keep_afloat_d.Addr.{v4, ip_ord}
use keep_afloat_d.Identity.{replica_ord}
use keep_afloat_d.VipLogic.Eligibility.{
  is_node_eligible, is_node_probe_fresh, next_probe_tick, is_node_base_eligible,
}
use keep_afloat_d.VipLogic.Reconcile.{VipAssignment, reconcile_vip_assignments}
use keep_afloat_d.VipLogic.Assign.{assign_vips_minimal_movement}
use keep_afloat_d.BindPolicy.{all_open, is_fence_lifted, should_bind_or_keep_vip}
use keep_afloat_d.Config.Vips.{
  VipConfig, any_char, is_interface, check_vip, check_vips, insert_by_address, sort_by_address,
  dedup_after, dedup_by_address, normalize_vips, sorted_vips,
}
use keep_afloat_d.Config.Examples.{ascii}
use keep_afloat_d.Store.Recompute.{new_holders}
use keep_afloat_d.Store.Machine.{apply_health, activate_v2, update_v2_failback_tracking}
use keep_afloat_d.Store.Membership.{unique_voters, forget_changed, apply_membership}
use keep_afloat_d.Store.State.{KafStorageState, Entry, new, normal, health_update}
use keep_afloat_d.Store.Apply.{apply_one, apply_all}
use keep_afloat_d.Store.Examples.{engine, entry, began}
use keep_afloat_d.Reconciler.Intent.{capture}
use keep_afloat_d.Reconciler.Exclusive.{capture-one_holder}
use keep_afloat_d.Reconciler.Examples.{open_gates}

abbrev vips : List VipConfig
vips =
    record { address = record { addr = v4 10; prefix = 24 }; interface = "eth0"; vlan = none } ∷ []

-- The second node has applied one more report of the first one.
abbrev report : List (Entry engine)
report = entry 4 (normal (health_update 1 true)) ∷ []

abbrev here : KafStorageState engine
here = apply_all began (new (sorted_vips ascii vips) 3 true 2)

abbrev held : VipAssignment
held = record {
  holder = 1;
  generation = 1;
  previous_holder = none;
  previous_holder_released = true;
  activation_tick = 1;
}

accepted : normalize_vips ascii vips ≡ ok vips
unfolding normalize_vips check_vips check_vip is_interface any_char insert_by_address
    sort_by_address dedup_after dedup_by_address BTreeMap.get BTreeMap.insert ip_ord
accepted = refl

binds_here :
    (capture (v4 10) 1 open_gates here none).assignment ≡ some held
    × (capture (v4 10) 1 open_gates here none).bind_policy ≡ true
unfolding capture should_bind_or_keep_vip all_open is_fence_lifted apply_all apply_one new
    apply_membership unique_voters forget_changed apply_health next_probe_tick new_holders
    update_v2_failback_tracking activate_v2 is_node_eligible is_node_base_eligible
    is_node_probe_fresh reconcile_vip_assignments assign_vips_minimal_movement BTreeMap.insert
    BTreeMap.get BTreeMap.remove BTreeMap.retain BTreeSet.contains BTreeSet.insert BTreeSet.remove
    BTreeSet.collect BTreeSet.extend sort_unstable ip_ord replica_ord
binds_here = (refl, refl)

binds_there :
    (capture (v4 10) 1 open_gates (apply_all report here) none).assignment ≡ some held
    × (capture (v4 10) 1 open_gates (apply_all report here) none).bind_policy ≡ true
unfolding capture should_bind_or_keep_vip all_open is_fence_lifted apply_all apply_one new
    apply_membership unique_voters forget_changed apply_health next_probe_tick new_holders
    update_v2_failback_tracking activate_v2 is_node_eligible is_node_base_eligible
    is_node_probe_fresh reconcile_vip_assignments assign_vips_minimal_movement BTreeMap.insert
    BTreeMap.get BTreeMap.remove BTreeMap.retain BTreeSet.contains BTreeSet.insert BTreeSet.remove
    BTreeSet.collect BTreeSet.extend sort_unstable ip_ord replica_ord
binds_there = (refl, refl)

capture-one_holder_example : held.holder ≡ held.holder
capture-one_holder_example =
    capture-one_holder ascii vips vips 3 true 2 began report (v4 10) 1 1 open_gates open_gates none
      none held held accepted binds_here.0 binds_there.0 refl (omega arith) binds_here.1
      binds_there.1
