-- ===== src/Store/Recompute.antt =====
-- The recomputation of the VIP holders: `recompute_vip_holder` and `recompute_vip_holder_v2` of
-- src/raft/store/vip_logic.rs, and the end of `apply_one` of src/raft/store/state_machine.rs.
use keep_afloat_d.Prelude.{
  ℕ, not, List, [], ◌∷◌, map, if◌then◌else◌, nat_ord, String, retain, sort_unstable,
}
use keep_afloat_d.BTreeMap
use keep_afloat_d.BTreeMap.{BTreeMap}
use keep_afloat_d.BTreeSet
use keep_afloat_d.BTreeSet.{BTreeSet}
use keep_afloat_d.Addr.{IpAddr, ip_ord, VipAddr}
use keep_afloat_d.Identity.{replica_ord}
use keep_afloat_d.VipLogic.Eligibility.{EligibilityInputs, is_node_eligible}
use keep_afloat_d.VipLogic.Assign.{
  assign_vips_minimal_movement, assign_vips_minimal_movement_with_receivers,
}
use keep_afloat_d.VipLogic.Reconcile.{VipAssignment, reconcile_vip_assignments, Fences}
use keep_afloat_d.Store.OpenRaft.{OpenRaft}
use keep_afloat_d.Store.State.{KafStorageState, legacy, v2, is_v2, StoredMembership}
use keep_afloat_d.Store.Membership.{unique_voters}
use keep_afloat_d.Store.Machine.{eligibility_inputs, update_v2_failback_tracking}

abbrev pub addresses : List (VipAddr × String) → List IpAddr
addresses vip_list = map (λ (v : VipAddr × String). v.0.addr) vip_list

-- `state.vip_assignments.iter().map(|(ip, a)| (*ip, a.holder)).collect()`
abbrev pub holders : BTreeMap IpAddr VipAssignment → BTreeMap IpAddr ℕ
holders [] = []
holders ((vip, a) ∷ m) = (vip, a.holder) ∷ holders m

module _ {raft : OpenRaft} where
  unfoldable pub eligible_nodes : StoredMembership raft → EligibilityInputs → BTreeSet ℕ → List ℕ
  eligible_nodes stored inputs node_failback_blocked =
      retain (λ id. is_node_eligible id inputs node_failback_blocked)
        (sort_unstable (BTreeMap.keys (unique_voters stored)))

  unfoldable pub recompute_vip_holder :
      StoredMembership raft
      → EligibilityInputs
      → BTreeSet ℕ
      → List (VipAddr × String)
      → BTreeMap IpAddr ℕ
      → BTreeMap IpAddr ℕ
  unfolding eligible_nodes
  recompute_vip_holder stored inputs node_failback_blocked vip_list current_holders =
      assign_vips_minimal_movement (eligible_nodes stored inputs node_failback_blocked)
        (addresses vip_list) current_holders

  unfoldable pub recompute_vip_holder_v2 :
      StoredMembership raft
      → EligibilityInputs
      → BTreeSet ℕ
      → List (VipAddr × String)
      → BTreeMap IpAddr ℕ
      → BTreeMap IpAddr ℕ
  unfolding eligible_nodes
  recompute_vip_holder_v2 stored inputs node_nopreempt vip_list current_holders =
      let eligible = eligible_nodes stored inputs [] in
      assign_vips_minimal_movement_with_receivers eligible
        (retain (λ node_id. not (BTreeSet.contains node_nopreempt node_id)) eligible)
        (addresses vip_list) current_holders

  -- The new holders, by the semantics in force.
  unfoldable pub new_holders : KafStorageState raft → BTreeMap IpAddr ℕ
  unfolding recompute_vip_holder recompute_vip_holder_v2
  new_holders state = elim state.failover_semantics [
    | legacy ↦
        recompute_vip_holder state.last_membership (eligibility_inputs state)
          state.node_failback_blocked state.vip_list (holders state.vip_assignments)
    | v2 ↦
        recompute_vip_holder_v2 state.last_membership (eligibility_inputs state)
          state.node_nopreempt state.vip_list (holders state.vip_assignments)
  ]

  -- The maps that the reconciliation returns.
  unfoldable pub fences : KafStorageState raft → Fences
  fences state =
      reconcile_vip_assignments (new_holders state) state.latest_probe_tick
        (addresses state.vip_list) state.vip_assignments state.vip_generation state.vip_last_holder

  -- `if should_recompute { … }`
  unfoldable pub recompute : KafStorageState raft → KafStorageState raft
  unfolding fences
  recompute before =
      let state =
        if is_v2 before.failover_semantics then update_v2_failback_tracking before else before in
      let f = fences state in
      record state {
        vip_assignments = f.assignments;
        vip_generation = f.generation;
        vip_last_holder = f.last_holder;
      }
