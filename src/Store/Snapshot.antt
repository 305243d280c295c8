-- ===== src/Store/Snapshot.antt =====
-- Snapshots and the installing of admission authority (src/raft/store/state.rs).
pub mod Restore
use keep_afloat_d.Prelude.{
  ℕ, Bool, true, false, Option, none, some, [], if◌then◌else◌, not, is_some, Result, ok, err, equal,
}
use keep_afloat_d.Identity.{
  AdmissionSession, AdmissionDenied, check_session, Genesis, Genesis-discrete,
}
use keep_afloat_d.Store.OpenRaft.{OpenRaft}
use keep_afloat_d.Store.State.{KafStorageState, KafSnapshot, FailoverSemantics, legacy, v2}

abbrev pub differs : Option Genesis → Genesis → Bool
differs none genesis = false
differs (some current) genesis = not (equal Genesis-discrete current genesis)

module _ {raft : OpenRaft} where
  -- `From<&KafStorageState> for KafSnapshot`
  unfoldable pub snapshot_of : KafStorageState raft → KafSnapshot raft
  snapshot_of state = record {
    prepared_join = state.prepared_join;
    completed_joins = state.completed_joins;
    genesis = state.genesis;
    applied_progress = state.applied_progress;
    last_applied = state.last_applied_log;
    last_membership = state.last_membership;
    node_health = state.node_health;
    node_probe_ticks = state.node_probe_ticks;
    latest_probe_tick = state.latest_probe_tick;
    vip_assignments = state.vip_assignments;
    vip_generation = state.vip_generation;
    vip_last_holder = state.vip_last_holder;
    cluster_epoch = state.cluster_epoch;
    node_recovery_tick = state.node_recovery_tick;
    node_failback_blocked = state.node_failback_blocked;
    failover_semantics = state.failover_semantics;
    config_identity_enforced = state.config_identity_enforced;
    node_nopreempt = state.node_nopreempt;
    node_recovery_pending = state.node_recovery_pending;
  }

  -- The `match` at the end of `restore_into`, by the restored semantics and the local `failback`.
  abbrev pub reconcile_failback :
      FailoverSemantics → Bool → KafSnapshot raft → KafStorageState raft → KafStorageState raft
  reconcile_failback legacy true snap state = record state { node_failback_blocked = [] }
  reconcile_failback legacy false snap state = record state {
    node_failback_blocked = snap.node_failback_blocked;
  }
  reconcile_failback v2 true snap state = record state {
    node_failback_blocked = [];
    node_nopreempt = [];
  }
  reconcile_failback v2 false snap state = record state {
    node_failback_blocked = [];
    node_recovery_pending = [];
    node_recovery_tick = [];
  }

  -- `KafSnapshot::restore_into`
  unfoldable pub restore_into : KafSnapshot raft → KafStorageState raft → KafStorageState raft
  restore_into snap state =
      reconcile_failback snap.failover_semantics state.failback snap (record state {
        prepared_join = snap.prepared_join;
        completed_joins = snap.completed_joins;
        genesis = snap.genesis;
        applied_progress = snap.applied_progress;
        last_applied_log = snap.last_applied;
        last_membership = snap.last_membership;
        node_health = snap.node_health;
        node_probe_ticks = snap.node_probe_ticks;
        latest_probe_tick = snap.latest_probe_tick;
        vip_assignments = snap.vip_assignments;
        vip_generation = snap.vip_generation;
        vip_last_holder = snap.vip_last_holder;
        cluster_epoch = snap.cluster_epoch;
        node_recovery_tick = snap.node_recovery_tick;
        failover_semantics = snap.failover_semantics;
        config_identity_enforced = snap.config_identity_enforced;
        node_nopreempt = snap.node_nopreempt;
        node_recovery_pending = snap.node_recovery_pending;
      })

  -- The payload of `snapshot_at`, before it is written as JSON.
  unfoldable pub snapshot_at : raft.LogId → KafStorageState raft → KafSnapshot raft
  unfolding snapshot_of
  snapshot_at last_applied state = record (snapshot_of state) { last_applied = some last_applied }

  -- `KafStorageState::bind_admission`, at the time `now`.
  unfoldable pub bind_admission :
      ℕ → AdmissionSession → KafStorageState raft → Result (KafStorageState raft) AdmissionDenied
  unfolding check_session
  bind_admission now session state = elim (check_session now session) [
    | err e ↦ err e
    | ok _ ↦
        if is_some state.admission
        then err "admission context is already bound"
        else if differs state.genesis session.context.genesis
        then err "admission genesis differs from applied history"
        else ok (record state { admission = some session })
  ]
