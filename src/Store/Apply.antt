-- ===== src/Store/Apply.antt =====
-- `apply_one` of src/raft/store/state_machine.rs: each kind of committed entry.
pub mod Steady
pub mod Facts
pub mod Fencing
pub mod History
pub mod Holders
pub mod Takeover
use keep_afloat_d.Prelude.{
  ℕ, Bool, true, false, not, ◌&&◌, ◌||◌, Option, none, some, List, [], ◌∷◌, ◌==◌, if◌then◌else◌,
  is_some, nat_ord, is_ok,
}
use keep_afloat_d.BTreeMap
use keep_afloat_d.BTreeMap.{BTreeMap}
use keep_afloat_d.Addr.{IpAddr, ip_ord}
use keep_afloat_d.Identity.{ReplicaId, replica_ord, Genesis, HealthProgress, validate_progress}
use keep_afloat_d.VipLogic.Reconcile.{VipAssignment}
use keep_afloat_d.Store.OpenRaft.{OpenRaft}
use keep_afloat_d.Store.State.{
  KafStorageState, KafResponse, ok, rejected, health_progress, admission_genesis,
  admission_membership, health_update, vip_released, cluster_formed, enable_failover_semantics_v2,
  enable_config_identity_v1, EntryPayload, blank, normal, membership, Entry, FailoverSemantics,
  is_v2,
}
use keep_afloat_d.Store.Membership.{
  unique_voters, same_genesis, same_replica, has_replica, apply_admission_membership,
  apply_membership,
}
use keep_afloat_d.Store.Recompute.{recompute}
use keep_afloat_d.Store.Snapshot.{differs}
use keep_afloat_d.Store.Machine.{activate_v2, apply_health}

-- What the `match` on the payload returns: the state, the response and `should_recompute`.
pub record Dispatched (raft : OpenRaft) : Type 0 where
  pub state : KafStorageState raft
  pub response : KafResponse
  pub should_recompute : Bool

abbrev pub other_epoch : Option ℕ → ℕ → Bool
other_epoch none epoch = false
other_epoch (some current) epoch = not (current == epoch)

abbrev pub is_previous : Option ℕ → ℕ → Bool
is_previous none node_id = false
is_previous (some previous) node_id = previous == node_id

-- `assignment.previous_holder_released = true`, if the acknowledgement is for this handoff.
abbrev pub release :
    Option VipAssignment
    → ℕ
    → IpAddr
    → ℕ
    → BTreeMap IpAddr VipAssignment
    → BTreeMap IpAddr VipAssignment
release none node_id vip generation assignments = assignments
release (some a) node_id vip generation assignments =
    if a.generation == generation && is_previous a.previous_holder node_id
    then BTreeMap.insert assignments vip (record a { previous_holder_released = true })
    else assignments

module _ {raft : OpenRaft} where
  -- What the first genesis resets.
  unfoldable pub first_genesis : KafStorageState raft → KafStorageState raft
  first_genesis state =
      record (activate_v2 (record state {
        node_health = [];
        node_probe_ticks = [];
        node_recovery_tick = [];
        applied_progress = [];
      })) { config_identity_enforced = true }

  unfoldable pub apply_genesis : Genesis → KafStorageState raft → Dispatched raft
  unfolding first_genesis
  apply_genesis genesis state =
      if differs state.genesis genesis || other_epoch state.cluster_epoch genesis.epoch
      then record {
        state = state;
        response = rejected "immutable genesis mismatch";
        should_recompute = false;
      }
      else record {
        state = record (if is_some state.genesis then state else first_genesis state) {
          genesis = some genesis;
          cluster_epoch = some genesis.epoch;
        };
        response = ok;
        should_recompute = not (is_some state.genesis);
      }

  abbrev pub publish :
      Option Bool
      → HealthProgress
      → BTreeMap ℕ ReplicaId
      → KafStorageState raft
      → KafStorageState raft
  publish none progress voters state = state
  publish (some healthy) progress voters state =
      apply_health progress.node_id
        (healthy && same_replica (BTreeMap.get voters progress.node_id) (some progress.replica))
        state

  -- The guard of the `HealthProgress` arm.
  abbrev pub is_foreign : HealthProgress → KafStorageState raft → Bool
  is_foreign progress state =
      not (is_ok (validate_progress progress))
      || not (same_genesis state.genesis progress.genesis)
      || not (has_replica (raft.node_ids state.last_membership.membership) progress.replica)

  unfoldable pub apply_progress :
      HealthProgress → raft.LogId → KafStorageState raft → Dispatched raft
  apply_progress progress log_id state =
      if is_foreign progress state
      then record {
        state = state;
        response = rejected "progress context differs from committed genesis";
        should_recompute = false;
      }
      else record {
        state =
            publish progress.healthy progress (unique_voters state.last_membership) (record state {
              applied_progress =
                  BTreeMap.insert state.applied_progress progress.node_id
                    (record { request = progress; log_id = log_id });
            });
        response = ok;
        should_recompute = is_some progress.healthy;
      }

  abbrev pub form_cluster : ℕ → FailoverSemantics → Bool → KafStorageState raft → Dispatched raft
  form_cluster cluster_id semantics enforced state =
      if is_some state.cluster_epoch
      then record { state = state; response = ok; should_recompute = false }
      else (let formed : KafStorageState raft = record state {
        cluster_epoch = some cluster_id;
        config_identity_enforced = state.config_identity_enforced || enforced;
      } in
          record {
            state = if is_v2 semantics then activate_v2 formed else formed;
            response = ok;
            should_recompute = is_v2 semantics;
          })

  unfoldable pub dispatch : EntryPayload raft → raft.LogId → KafStorageState raft → Dispatched raft
  unfolding apply_genesis apply_progress
  dispatch blank log_id state = record { state = state; response = ok; should_recompute = false }
  dispatch (normal (admission_membership command)) log_id state =
      let (changed, response) = apply_admission_membership command log_id state in
      record { state = changed; response = response; should_recompute = false }
  dispatch (normal (admission_genesis genesis)) log_id state = apply_genesis genesis state
  dispatch (normal (health_progress progress)) log_id state = apply_progress progress log_id state
  dispatch (normal (health_update node_id healthy)) log_id state =
      if is_some state.genesis
      then record {
        state = state;
        response = rejected "physical-only health has no boot authority";
        should_recompute = false;
      }
      else record {
        state = apply_health node_id healthy state;
        response = ok;
        should_recompute = true;
      }
  dispatch (normal (vip_released node_id vip generation)) log_id state = record {
    state = record state {
      vip_assignments =
          release (BTreeMap.get state.vip_assignments vip) node_id vip generation
            state.vip_assignments;
    };
    response = ok;
    should_recompute = false;
  }
  dispatch (normal (cluster_formed cluster_id semantics enforced)) log_id state =
      form_cluster cluster_id semantics enforced state
  dispatch (normal enable_failover_semantics_v2) log_id state = record {
    state = activate_v2 state;
    response = ok;
    should_recompute = true;
  }
  dispatch (normal enable_config_identity_v1) log_id state = record {
    state = record state { config_identity_enforced = true };
    response = ok;
    should_recompute = false;
  }
  dispatch (membership members) log_id state = record {
    state = apply_membership members log_id state;
    response = ok;
    should_recompute = true;
  }

  unfoldable pub apply_one : Entry raft → KafStorageState raft → KafStorageState raft × KafResponse
  unfolding dispatch recompute
  apply_one entry before =
      let d =
        dispatch entry.payload entry.log_id
          (record before { last_applied_log = some entry.log_id }) in
      (if d.should_recompute then recompute d.state else d.state, d.response)

  -- The replicated log, applied entry by entry.
  unfoldable pub apply_all : List (Entry raft) → KafStorageState raft → KafStorageState raft
  apply_all [] state = state
  apply_all (entry ∷ entries) state = apply_all entries (apply_one entry state).0
