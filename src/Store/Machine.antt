-- ===== src/Store/Machine.antt =====
-- The state machine: what one committed entry does (src/raft/store/state_machine.rs).
pub mod Frame
pub mod Health
use keep_afloat_d.Prelude.{
  ℕ, Bool, true, false, not, ◌&&◌, Option, List, [], ◌∷◌, ◌++◌, map, leb, if◌then◌else◌, nat_ord,
  retain, saturating_sub, unwrap_or,
}
use keep_afloat_d.BTreeMap
use keep_afloat_d.BTreeMap.{BTreeMap}
use keep_afloat_d.BTreeSet
use keep_afloat_d.BTreeSet.{BTreeSet}
use keep_afloat_d.Addr.{ip_ord}
use keep_afloat_d.Identity.{replica_ord}
use keep_afloat_d.VipLogic.Eligibility.{EligibilityInputs, is_node_base_eligible, next_probe_tick}
use keep_afloat_d.VipLogic.Reconcile.{VipAssignment}
use keep_afloat_d.Store.OpenRaft.{OpenRaft}
use keep_afloat_d.Store.State.{KafStorageState, FailoverSemantics, legacy, v2, is_v2}
use keep_afloat_d.Store.Membership.{unique_voters}

module _ {raft : OpenRaft} where
  -- `From<&KafStorageState> for EligibilityInputs`
  abbrev pub eligibility_inputs : KafStorageState raft → EligibilityInputs
  eligibility_inputs state = record {
    node_health = state.node_health;
    node_probe_ticks = state.node_probe_ticks;
    latest_probe_tick = state.latest_probe_tick;
    stale_missed_probes = state.stale_missed_probes;
    failback_delay_ticks = state.failback_delay_ticks;
    node_recovery_tick = state.node_recovery_tick;
  }

  unfoldable pub activate_v2 : KafStorageState raft → KafStorageState raft
  activate_v2 state =
      if is_v2 state.failover_semantics
      then state
      else if state.failback
      then record state {
        failover_semantics = v2;
        node_recovery_pending =
            BTreeSet.extend state.node_recovery_pending (BTreeMap.keys state.node_recovery_tick);
        node_failback_blocked = [];
      }
      else record state {
        failover_semantics = v2;
        node_nopreempt = BTreeSet.extend state.node_nopreempt state.node_failback_blocked;
        node_recovery_tick = [];
        node_failback_blocked = [];
      }

  -- A node that is a voter and healthy and fresh.
  abbrev pub is_alive : KafStorageState raft → ℕ → Bool
  is_alive state node_id =
      BTreeMap.contains_key (unique_voters state.last_membership) node_id
      && is_node_base_eligible node_id state.node_health state.node_probe_ticks
          state.latest_probe_tick state.stale_missed_probes

  unfoldable pub failed_owners : KafStorageState raft → BTreeSet ℕ
  failed_owners state = BTreeSet.collect (
      retain (λ node_id. not (is_alive state node_id))
        (map (λ (a : VipAssignment). a.holder) (BTreeMap.values state.vip_assignments)))

  -- `for node_id in failed_owners`
  unfoldable pub mark_failed : List ℕ → KafStorageState raft → KafStorageState raft
  mark_failed [] state = state
  mark_failed (node_id ∷ failed) state = mark_failed failed (record state {
    node_recovery_pending = BTreeSet.insert state.node_recovery_pending node_id;
    node_recovery_tick = BTreeMap.remove state.node_recovery_tick node_id;
  })

  -- One round of `for node_id in pending`, with the completed nodes so far.
  unfoldable pub recover_one : ℕ → KafStorageState raft × List ℕ → KafStorageState raft × List ℕ
  recover_one node_id (state, completed) =
      if not (is_alive state node_id)
      then (
        record state { node_recovery_tick = BTreeMap.remove state.node_recovery_tick node_id },
        completed,
      )
      else (let recovery_tick =
            BTreeMap.get_or state.node_recovery_tick node_id state.latest_probe_tick in
          (
            record state {
              node_recovery_tick = BTreeMap.insert state.node_recovery_tick node_id recovery_tick;
            },
            if leb state.failback_delay_ticks (saturating_sub state.latest_probe_tick recovery_tick)
                then completed ++ node_id ∷ []
                else completed,
          ))

  unfoldable pub recover_pending :
      List ℕ → KafStorageState raft × List ℕ → KafStorageState raft × List ℕ
  unfolding recover_one
  recover_pending [] acc = acc
  recover_pending (node_id ∷ pending) acc = recover_pending pending (recover_one node_id acc)

  -- `for node_id in completed`
  unfoldable pub complete_recovery : List ℕ → KafStorageState raft → KafStorageState raft
  complete_recovery [] state = state
  complete_recovery (node_id ∷ completed) state = complete_recovery completed (record state {
    node_recovery_pending = BTreeSet.remove state.node_recovery_pending node_id;
    node_recovery_tick = BTreeMap.remove state.node_recovery_tick node_id;
  })

  unfoldable pub update_v2_failback_tracking : KafStorageState raft → KafStorageState raft
  unfolding failed_owners mark_failed recover_pending complete_recovery
  update_v2_failback_tracking state =
      if not state.failback
      then record state {
        node_nopreempt = BTreeSet.extend state.node_nopreempt (failed_owners state);
        node_recovery_pending = [];
        node_recovery_tick = [];
      }
      else (let marked = mark_failed (failed_owners state) (record state { node_nopreempt = [] }) in
          let (recovered, completed) = recover_pending marked.node_recovery_pending (marked, []) in
          complete_recovery completed recovered)

  -- `previous_health` is what `insert` returned.
  abbrev pub track_legacy :
      FailoverSemantics → Bool → Option Bool → ℕ → ℕ → KafStorageState raft → KafStorageState raft
  track_legacy v2 healthy previous_health node_id next_tick state = state
  track_legacy legacy true previous_health node_id next_tick state =
      if state.failback && not (unwrap_or previous_health true)
      then record state {
        node_recovery_tick = BTreeMap.insert state.node_recovery_tick node_id next_tick;
      }
      else state
  track_legacy legacy false previous_health node_id next_tick state = record state {
    node_recovery_tick = BTreeMap.remove state.node_recovery_tick node_id;
    node_failback_blocked =
        if not state.failback && unwrap_or previous_health false
        then BTreeSet.insert state.node_failback_blocked node_id
        else state.node_failback_blocked;
  }

  unfoldable pub apply_health : ℕ → Bool → KafStorageState raft → KafStorageState raft
  apply_health node_id healthy state =
      let next_tick =
        next_probe_tick (BTreeMap.get state.node_probe_ticks node_id) state.latest_probe_tick in
      track_legacy state.failover_semantics healthy (BTreeMap.get state.node_health node_id) node_id
        next_tick
        (record state {
          node_health = BTreeMap.insert state.node_health node_id healthy;
          node_probe_ticks = BTreeMap.insert state.node_probe_ticks node_id next_tick;
          latest_probe_tick = next_tick;
        })
