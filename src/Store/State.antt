-- ===== src/Store/State.antt =====
-- `KafStorageState`, `KafSnapshot` and the types of a log entry (src/raft/store/state.rs,
-- src/raft/types.rs, src/raft/admission/membership.rs).
use keep_afloat_d.Prelude.{ℕ, Bool, true, false, Option, none, some, List, [], String, nat_ord}
use keep_afloat_d.BTreeMap.{BTreeMap}
use keep_afloat_d.BTreeSet.{BTreeSet}
use keep_afloat_d.Addr.{IpAddr, VipAddr}
use keep_afloat_d.Identity.{ReplicaId, Genesis, HealthProgress, JoinPlan, AdmissionSession}
use keep_afloat_d.Store.OpenRaft.{OpenRaft}
use keep_afloat_d.VipLogic.Reconcile.{VipAssignment}

pub data FailoverSemantics : Type 0 where
  legacy v2 : FailoverSemantics

abbrev pub is_v2 : FailoverSemantics → Bool
is_v2 legacy = false
is_v2 v2 = true

pub data AdmissionCommand (raft : OpenRaft) : Type 0 where
  prepare_join : JoinPlan → AdmissionCommand raft
  cancel_join : JoinPlan → raft.LogId → AdmissionCommand raft
  learner_applied : ReplicaId → ℕ → raft.LogId → AdmissionCommand raft

pub data KafRequest (raft : OpenRaft) : Type 0 where
  health_progress : HealthProgress → KafRequest raft
  admission_genesis : Genesis → KafRequest raft
  admission_membership : AdmissionCommand raft → KafRequest raft
  health_update : ℕ → Bool → KafRequest raft
  vip_released : ℕ → IpAddr → ℕ → KafRequest raft
  cluster_formed : ℕ → FailoverSemantics → Bool → KafRequest raft
  enable_failover_semantics_v2 : KafRequest raft
  enable_config_identity_v1 : KafRequest raft

pub data KafResponse : Type 0 where
  ok : KafResponse
  rejected : String → KafResponse

-- `KafRequest::node_id`
unfoldable pub request_node_id : {raft : OpenRaft} → KafRequest raft → Option ℕ
request_node_id (health_progress p) = some p.node_id
request_node_id (admission_genesis g) = none
request_node_id (admission_membership c) = none
request_node_id (health_update node_id healthy) = some node_id
request_node_id (vip_released node_id vip generation) = some node_id
request_node_id (cluster_formed cluster_id semantics enforced) = none
request_node_id enable_failover_semantics_v2 = none
request_node_id enable_config_identity_v1 = none

-- `openraft::EntryPayload` and `openraft::Entry`, as the state machine matches them.
pub data EntryPayload (raft : OpenRaft) : Type 0 where
  blank : EntryPayload raft
  normal : KafRequest raft → EntryPayload raft
  membership : raft.Membership → EntryPayload raft

pub record Entry (raft : OpenRaft) : Type 0 where
  pub log_id : raft.LogId
  pub payload : EntryPayload raft

-- `openraft::StoredMembership`
pub record StoredMembership (raft : OpenRaft) : Type 0 where
  pub log_id : Option raft.LogId
  pub membership : raft.Membership

pub record PreparedJoin (raft : OpenRaft) : Type 0 where
  pub plan : JoinPlan
  pub prepared : raft.LogId
  pub learner_applied : Option raft.LogId

pub record CompletedJoin (raft : OpenRaft) : Type 0 where
  pub prepared : PreparedJoin raft
  pub promoted : raft.LogId

pub record AppliedHealthProgress (raft : OpenRaft) : Type 0 where
  pub request : HealthProgress
  pub log_id : raft.LogId

pub record KafSnapshot (raft : OpenRaft) : Type 0 where
  pub prepared_join : Option (PreparedJoin raft)
  pub completed_joins : BTreeMap ℕ (CompletedJoin raft)
  pub genesis : Option Genesis
  pub applied_progress : BTreeMap ℕ (AppliedHealthProgress raft)
  pub last_applied : Option raft.LogId
  pub last_membership : StoredMembership raft
  pub node_health : BTreeMap ℕ Bool
  pub node_probe_ticks : BTreeMap ℕ ℕ
  pub latest_probe_tick : ℕ
  pub vip_assignments : BTreeMap IpAddr VipAssignment
  pub vip_generation : BTreeMap IpAddr ℕ
  pub vip_last_holder : BTreeMap IpAddr ℕ
  pub cluster_epoch : Option ℕ
  pub node_recovery_tick : BTreeMap ℕ ℕ
  pub node_failback_blocked : BTreeSet ℕ
  pub failover_semantics : FailoverSemantics
  pub config_identity_enforced : Bool
  pub node_nopreempt : BTreeSet ℕ
  pub node_recovery_pending : BTreeSet ℕ

pub record KafStorageState (raft : OpenRaft) : Type 0 where
  pub prepared_join : Option (PreparedJoin raft)
  pub completed_joins : BTreeMap ℕ (CompletedJoin raft)
  pub genesis : Option Genesis
  pub applied_progress : BTreeMap ℕ (AppliedHealthProgress raft)
  pub admission : Option AdmissionSession
  pub admission_required : Bool
  pub last_purged_log_id : Option raft.LogId
  pub log : BTreeMap ℕ (Entry raft)
  pub vote : Option raft.Vote
  pub committed : Option raft.LogId
  pub last_applied_log : Option raft.LogId
  pub last_membership : StoredMembership raft
  pub node_health : BTreeMap ℕ Bool
  pub node_probe_ticks : BTreeMap ℕ ℕ
  pub latest_probe_tick : ℕ
  pub vip_assignments : BTreeMap IpAddr VipAssignment
  pub vip_generation : BTreeMap IpAddr ℕ
  pub vip_last_holder : BTreeMap IpAddr ℕ
  pub cluster_epoch : Option ℕ
  pub vip_list : List (VipAddr × String)
  pub stale_missed_probes : ℕ
  pub failback : Bool
  pub failback_delay_ticks : ℕ
  pub node_recovery_tick : BTreeMap ℕ ℕ
  pub node_failback_blocked : BTreeSet ℕ
  pub failover_semantics : FailoverSemantics
  pub config_identity_enforced : Bool
  pub node_nopreempt : BTreeSet ℕ
  pub node_recovery_pending : BTreeSet ℕ
  pub current_snapshot : Option (KafSnapshot raft)

-- `KafStorageState::new`
unfoldable pub new :
    {raft : OpenRaft} → List (VipAddr × String) → ℕ → Bool → ℕ → KafStorageState raft
new {raft} vip_list stale_missed_probes failback failback_delay_ticks = record {
  prepared_join = none;
  completed_joins = [];
  genesis = none;
  applied_progress = [];
  admission = none;
  admission_required = true;
  last_purged_log_id = none;
  log = [];
  vote = none;
  committed = none;
  last_applied_log = none;
  last_membership = record { log_id = none; membership = raft.empty_membership };
  node_health = [];
  node_probe_ticks = [];
  latest_probe_tick = 0;
  vip_assignments = [];
  vip_generation = [];
  vip_last_holder = [];
  cluster_epoch = none;
  vip_list = vip_list;
  stale_missed_probes = stale_missed_probes;
  failback = failback;
  failback_delay_ticks = failback_delay_ticks;
  node_recovery_tick = [];
  node_failback_blocked = [];
  failover_semantics = legacy;
  config_identity_enforced = false;
  node_nopreempt = [];
  node_recovery_pending = [];
  current_snapshot = none;
}
