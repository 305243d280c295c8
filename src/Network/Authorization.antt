-- ===== src/Network/Authorization.antt =====
-- The authorization of what peers send (src/raft/network/authorization.rs): votes, log ids, memberships
-- and commands against one view of the controller. The view's diagnostic history, bootstrap proof
-- and replication history are left out, and so are the messages that carry them.
pub mod Apply
pub mod Examples
use keep_afloat_d.Prelude.{
  ℕ, Bool, true, false, not, ◌&&◌, ◌||◌, Option, none, some, List, [], ◌∷◌, ◌++◌, any, all, leb,
  ltb, ◌==◌, if◌then◌else◌, equal, same, Result, ok, err, and_then, is_some, nat_ord,
}
use keep_afloat_d.BTreeSet
use keep_afloat_d.BTreeSet.{BTreeSet}
use keep_afloat_d.Identity.{
  ReplicaId, replica_ord, Genesis, Genesis-discrete, Voters-discrete, AdmissionDenied,
  AdmissionSession, check_session, validate_roster, JoinPlan, JoinPlan-discrete, validate_plan,
  validate_progress, HealthProgress,
}
use keep_afloat_d.Store.OpenRaft.{OpenRaft}
use keep_afloat_d.Store.State.{
  KafRequest, health_progress, admission_genesis, admission_membership, health_update, vip_released,
  cluster_formed, enable_failover_semantics_v2, enable_config_identity_v1, AdmissionCommand,
  prepare_join, cancel_join, learner_applied, PreparedJoin, StoredMembership,
}
use keep_afloat_d.Store.Membership.{is_log_id, has_replica}

-- What the authorization uses of the `openraft` crate besides `OpenRaft`: the node of a leader id, and
-- the equality of memberships.
pub record Peers (raft : OpenRaft) : Type 0 where
  pub node_id : raft.Leader → ReplicaId
  pub same_membership : raft.Membership → raft.Membership → Bool

pub record RaftAuthorization (raft : OpenRaft) : Type 0 where
  pub session : AdmissionSession
  pub peer : ReplicaId
  pub configured_physical_ids : BTreeSet ℕ
  pub voters : BTreeSet ReplicaId
  pub memberships : List raft.Membership
  pub committed_membership : StoredMembership raft
  pub last_applied : Option raft.LogId
  pub prepared_join : Option (PreparedJoin raft)

-- `anyhow::Result<()>`
abbrev pub Check : Type 0
Check = Result (Unit {0}) AdmissionDenied

-- `anyhow::ensure!`
abbrev pub ensure : Bool → AdmissionDenied → Check
ensure test message = if not test then err message else ok tt

-- `configs.len() == 1 && configs[0] == voters`
abbrev pub is_only : List (BTreeSet ReplicaId) → BTreeSet ReplicaId → Bool
is_only [] voters = false
is_only (config ∷ []) voters = equal Voters-discrete config voters
is_only (config ∷ other ∷ more) voters = false

module _ (raft : OpenRaft) where
  -- `RaftAuthorization::stable_previous`
  abbrev pub stable_previous : raft.Membership → JoinPlan → Bool
  stable_previous membership plan = is_only (raft.joint_config membership) plan.previous_voters

  -- Whether the applied log has this entry.
  abbrev pub is_historical : Option raft.LogId → raft.LogId → Bool
  is_historical none log = false
  is_historical (some applied) log = leb (raft.index log) (raft.index applied)

  -- The tests of the `LearnerApplied` arm on the pending join.
  abbrev pub is_exact : PreparedJoin raft → ReplicaId → ℕ → raft.LogId → Bool
  is_exact pending consumer request_nonce prepared =
      same pending.plan.consumer consumer
      && pending.plan.request_nonce == request_nonce
      && is_log_id raft pending.prepared prepared

  abbrev pub is_staged : RaftAuthorization raft → PreparedJoin raft → ReplicaId → Bool
  is_staged a pending consumer =
      is_some pending.learner_applied
      || (stable_previous a.committed_membership.membership pending.plan
          && has_replica (raft.learner_ids a.committed_membership.membership) consumer)

module _ {raft : OpenRaft} where
  abbrev pub is_configured : RaftAuthorization raft → ReplicaId → Bool
  is_configured a id = BTreeSet.contains a.configured_physical_ids id.physical_id

  -- `RaftAuthorization::check`
  unfoldable pub check_authorization : ℕ → RaftAuthorization raft → ReplicaId → ReplicaId → Check
  check_authorization now a local peer = and_then (check_session now a.session) (λ _.
      ensure (same a.session.context.local_replica local && same a.peer peer)
        "admission authorization belongs to another boot")

  -- `RaftAuthorization::join_plan_data`
  unfoldable pub join_plan_data : RaftAuthorization raft → JoinPlan → Check
  join_plan_data a plan = and_then (validate_plan plan) (λ _.
      and_then (validate_roster plan.genesis a.configured_physical_ids) (λ _.
        and_then
          (ensure (equal Genesis-discrete plan.genesis a.session.context.genesis)
            "join plan differs from admission")
          (λ _.
            ensure (all (is_configured a) (plan.previous_voters ++ plan.next_voters))
              "join plan names an unconfigured physical member")))

module _ {raft : OpenRaft} (peers : Peers raft) where
  -- `RaftAuthorization::log`
  unfoldable pub check_log : RaftAuthorization raft → Option raft.LogId → Check
  check_log a none = ok tt
  check_log a (some log) =
      ensure (is_configured a (peers.node_id (raft.leader log)))
        "Raft log names an unauthorized replica"

  -- `memberships.contains(membership)`
  abbrev pub is_listed : RaftAuthorization raft → raft.Membership → Bool
  is_listed a membership = any (λ m. peers.same_membership m membership) a.memberships

  -- `RaftAuthorization::membership`
  unfoldable pub check_membership : RaftAuthorization raft → raft.Membership → Check
  check_membership a membership =
      ensure (is_listed a membership && all (is_configured a) (raft.node_ids membership))
        "Raft membership is outside the authorized transition"

  -- `RaftAuthorization::stored_membership`
  unfoldable pub check_stored_membership : RaftAuthorization raft → StoredMembership raft → Check
  unfolding check_log check_membership
  check_stored_membership a stored =
      and_then (check_log a stored.log_id) (λ _. check_membership a stored.membership)

  -- The end of `RaftAuthorization::join_plan`, by whether the entry is historical and by the pending join.
  abbrev pub check_stage :
      RaftAuthorization raft → JoinPlan → Bool → Option (PreparedJoin raft) → Check
  check_stage a plan true pending =
      ensure (any (λ m. stable_previous raft m plan) a.memberships)
        "join plan requires the exact authorized stable previous membership"
  check_stage a plan false (some pending) =
      ensure (equal JoinPlan-discrete pending.plan plan) "another committed join is pending"
  check_stage a plan false none =
      ensure
        (stable_previous raft a.committed_membership.membership plan
          && is_listed a a.committed_membership.membership)
        "join plan requires the exact authorized stable previous membership"

  -- The fresh part of the `CancelJoin` arm.
  abbrev pub check_cancel :
      RaftAuthorization raft → JoinPlan → raft.LogId → Bool → Option (PreparedJoin raft) → Check
  check_cancel a plan prepared true pending = ok tt
  check_cancel a plan prepared false none = err "no committed join is pending"
  check_cancel a plan prepared false (some pending) =
      ensure
        (equal JoinPlan-discrete pending.plan plan
          && is_log_id raft pending.prepared prepared
          && stable_previous raft a.committed_membership.membership plan
          && not (has_replica (raft.node_ids a.committed_membership.membership) plan.consumer))
        "cancellation differs from the committed pending operation or removed learner"

  -- The fresh part of the `LearnerApplied` arm.
  abbrev pub check_learner :
      RaftAuthorization raft
      → ReplicaId
      → ℕ
      → raft.LogId
      → Bool
      → Option (PreparedJoin raft)
      → Check
  check_learner a consumer request_nonce prepared true pending = ok tt
  check_learner a consumer request_nonce prepared false none = err "no committed join is pending"
  check_learner a consumer request_nonce prepared false (some pending) =
      and_then (join_plan_data a pending.plan) (λ _.
        and_then
          (ensure (is_exact raft pending consumer request_nonce prepared)
            "learner acknowledgement differs from committed preparation")
          (λ _.
            ensure (is_staged raft a pending consumer)
              "learner acknowledgement requires the committed learner stage"))

  -- The arm of `AdmissionMembership` in `RaftAuthorization::command`.
  unfoldable pub check_admission :
      RaftAuthorization raft → AdmissionCommand raft → raft.LogId → Check
  unfolding check_log join_plan_data
  check_admission a (prepare_join plan) log =
      and_then (join_plan_data a plan)
        (λ _. check_stage a plan (is_historical raft a.last_applied log) a.prepared_join)
  check_admission a (cancel_join plan prepared) log = and_then (join_plan_data a plan) (λ _.
      and_then (check_log a (some prepared)) (λ _.
        and_then
          (ensure (ltb (raft.index prepared) (raft.index log)) "cancellation precedes preparation")
          (λ _.
            check_cancel a plan prepared (is_historical raft a.last_applied log) a.prepared_join)))
  check_admission a (learner_applied consumer request_nonce prepared) log =
      and_then (ensure (is_configured a consumer) "learner names an unauthorized replica") (λ _.
        and_then (check_log a (some prepared)) (λ _.
          and_then
            (ensure (ltb (raft.index prepared) (raft.index log))
              "learner acknowledgement precedes preparation")
            (λ _.
              check_learner a consumer request_nonce prepared
                (is_historical raft a.last_applied log) a.prepared_join)))

  -- `RaftAuthorization::command`
  unfoldable pub check_command : RaftAuthorization raft → KafRequest raft → raft.LogId → Check
  unfolding check_admission
  check_command a (admission_membership command) log = check_admission a command log
  check_command a (admission_genesis genesis) log =
      ensure (equal Genesis-discrete genesis a.session.context.genesis)
        "Raft genesis differs from admission"
  check_command a (health_progress progress) log = and_then (validate_progress progress) (λ _.
      ensure
        (equal Genesis-discrete progress.genesis a.session.context.genesis
          && is_configured a progress.replica)
        "Raft progress differs from admission")
  check_command a (cluster_formed cluster_id semantics enforced) log =
      ensure (cluster_id == a.session.context.genesis.epoch) "Raft epoch differs from admission"
  check_command a (health_update node_id healthy) log = ok tt
  check_command a (vip_released node_id vip generation) log = ok tt
  check_command a enable_failover_semantics_v2 log = ok tt
  check_command a enable_config_identity_v1 log = ok tt
