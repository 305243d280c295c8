-- ===== src/Store/Membership.antt =====
-- Admission history and membership transitions (src/raft/store/membership.rs).
use keep_afloat_d.Prelude.{
  ℕ, Bool, true, false, not, length, ◌&&◌, ◌||◌, Option, none, some, List, [], ◌∷◌, ◌++◌, any, ltb,
  leb, ◌==◌, if◌then◌else◌, is_some, nat_ord, equal, same, is_ok,
}
use keep_afloat_d.BTreeMap
use keep_afloat_d.BTreeMap.{BTreeMap}
use keep_afloat_d.BTreeSet
use keep_afloat_d.BTreeSet.{BTreeSet}
use keep_afloat_d.Identity.{
  ReplicaId, replica_ord, Genesis, Genesis-discrete, Voters-discrete, JoinPlan, JoinPlan-discrete,
  validate_plan,
}
use keep_afloat_d.Store.OpenRaft.{OpenRaft}
use keep_afloat_d.Store.State.{
  KafStorageState, KafResponse, ok, rejected, AdmissionCommand, prepare_join, cancel_join,
  learner_applied, PreparedJoin, AppliedHealthProgress, StoredMembership,
}

-- The loop of `unique_voters` over the voters, with the voters and the ambiguous members so far.
unfoldable pub voters_from :
    List ReplicaId → BTreeMap ℕ ReplicaId → BTreeSet ℕ → BTreeMap ℕ ReplicaId × BTreeSet ℕ
voters_from [] voters ambiguous = (voters, ambiguous)
voters_from (replica ∷ rest) voters ambiguous =
    voters_from rest (BTreeMap.insert voters replica.physical_id replica) (
      if BTreeMap.contains_key voters replica.physical_id
      then BTreeSet.insert ambiguous replica.physical_id
      else ambiguous)

unfoldable pub unique_voters : {raft : OpenRaft} → StoredMembership raft → BTreeMap ℕ ReplicaId
unfolding voters_from
unique_voters {raft} stored =
    let (voters, ambiguous) = voters_from (raft.voter_ids stored.membership) [] [] in
    BTreeMap.retain (λ id _. not (BTreeSet.contains ambiguous id)) voters

abbrev pub same_genesis : Option Genesis → Genesis → Bool
same_genesis none genesis = false
same_genesis (some current) genesis = equal Genesis-discrete current genesis

-- `==` on two results of `BTreeMap::get`.
abbrev pub same_replica : Option ReplicaId → Option ReplicaId → Bool
same_replica none none = true
same_replica (some a) (some b) = same a b
same_replica none (some b) = false
same_replica (some a) none = false

abbrev pub has_replica : List ReplicaId → ReplicaId → Bool
has_replica ids replica = any (λ id. same id replica) ids

module _ (raft : OpenRaft) where
  abbrev pub is_log_id : raft.LogId → raft.LogId → Bool
  is_log_id = equal raft.log_id-discrete

  -- The applied membership is not joint, and its voters are exactly these.
  abbrev pub stable_voters : raft.Membership → BTreeSet ReplicaId → Bool
  stable_voters membership voters =
      length (raft.joint_config membership) == 1
      && equal Voters-discrete (BTreeSet.collect (raft.voter_ids membership)) voters

  -- Whether the acknowledgement precedes `log_id`.
  abbrev pub acknowledged_before : Option raft.LogId → raft.LogId → Bool
  acknowledged_before none log_id = false
  acknowledged_before (some ack) log_id = ltb (raft.index ack) (raft.index log_id)

module _ {raft : OpenRaft} where
  -- The `CancelJoin` arm, by the pending join.
  abbrev pub apply_cancel :
      Option (PreparedJoin raft)
      → JoinPlan
      → raft.LogId
      → raft.LogId
      → KafStorageState raft
      → KafStorageState raft × KafResponse
  apply_cancel none plan prepared log_id state = (state, rejected "no join is pending")
  apply_cancel (some pending) plan prepared log_id state =
      if not (equal JoinPlan-discrete pending.plan plan)
        || not (is_log_id raft pending.prepared prepared)
        || not (same_genesis state.genesis plan.genesis)
        || leb (raft.index log_id) (raft.index prepared)
        || not (stable_voters raft state.last_membership.membership plan.previous_voters)
        || has_replica (raft.node_ids state.last_membership.membership) plan.consumer
      then (state, rejected "cancellation requires the exact pending join and removed learner")
      else (record state { prepared_join = none }, ok)

  -- The end of the `PrepareJoin` arm, by the pending join.
  abbrev pub apply_prepare :
      Option (PreparedJoin raft)
      → JoinPlan
      → raft.LogId
      → KafStorageState raft
      → KafStorageState raft × KafResponse
  apply_prepare (some pending) plan log_id state =
      if equal JoinPlan-discrete pending.plan plan
      then (state, ok)
      else (state, rejected "another join is pending")
  apply_prepare none plan log_id state =
      if not (stable_voters raft state.last_membership.membership plan.previous_voters)
      then (state, rejected "join requires the exact stable applied voter set")
      else (
        record state {
          prepared_join = some (record { plan = plan; prepared = log_id; learner_applied = none });
        },
        ok,
      )

  -- The `LearnerApplied` arm, by the pending join.
  abbrev pub apply_learner :
      Option (PreparedJoin raft)
      → ReplicaId
      → ℕ
      → raft.LogId
      → raft.LogId
      → KafStorageState raft
      → KafStorageState raft × KafResponse
  apply_learner none consumer request_nonce prepared log_id state =
      (state, rejected "no join is pending")
  apply_learner (some pending) consumer request_nonce prepared log_id state =
      if not (same pending.plan.consumer consumer)
        || not (pending.plan.request_nonce == request_nonce)
        || not (is_log_id raft pending.prepared prepared)
        || not (same_genesis state.genesis pending.plan.genesis)
      then (state, rejected "learner acknowledgement differs from prepared join")
      else if is_some pending.learner_applied
      then (state, ok)
      else if not (has_replica (raft.learner_ids state.last_membership.membership) consumer)
          || not (stable_voters raft state.last_membership.membership pending.plan.previous_voters)
          || leb (raft.index log_id) (raft.index prepared)
      then (state, rejected "acknowledgement requires the prepared learner stage")
      else (
        record state { prepared_join = some (record pending { learner_applied = some log_id }) },
        ok,
      )

  unfoldable pub apply_admission_membership :
      AdmissionCommand raft → raft.LogId → KafStorageState raft → KafStorageState raft × KafResponse
  apply_admission_membership (cancel_join plan prepared) log_id state =
      apply_cancel state.prepared_join plan prepared log_id state
  apply_admission_membership (prepare_join plan) log_id state =
      if not (is_ok (validate_plan plan)) || not (same_genesis state.genesis plan.genesis)
      then (state, rejected "join plan differs from immutable genesis or replacement")
      else apply_prepare state.prepared_join plan log_id state
  apply_admission_membership (learner_applied consumer request_nonce prepared) log_id state =
      apply_learner state.prepared_join consumer request_nonce prepared log_id state

  -- The physical-only facts of a member whose replica changes are forgotten.
  unfoldable pub forget_member : ℕ → KafStorageState raft → KafStorageState raft
  forget_member id state = record state {
    node_health = BTreeMap.remove state.node_health id;
    node_probe_ticks = BTreeMap.remove state.node_probe_ticks id;
    node_recovery_tick = BTreeMap.remove state.node_recovery_tick id;
    applied_progress = BTreeMap.remove state.applied_progress id;
  }

  unfoldable pub forget_changed :
      BTreeMap ℕ ReplicaId
      → BTreeMap ℕ ReplicaId
      → List ℕ
      → KafStorageState raft
      → KafStorageState raft
  unfolding forget_member
  forget_changed before after [] state = state
  forget_changed before after (id ∷ physical) state = forget_changed before after physical (
      if is_some state.genesis
        && not (same_replica (BTreeMap.get before id) (BTreeMap.get after id))
      then forget_member id state
      else state)

  -- A pending join whose next voters are the new membership is complete.
  abbrev pub complete_join :
      Option (PreparedJoin raft)
      → raft.Membership
      → raft.LogId
      → KafStorageState raft
      → KafStorageState raft
  complete_join none membership log_id state = state
  complete_join (some pending) membership log_id state =
      if acknowledged_before raft pending.learner_applied log_id
        && stable_voters raft membership pending.plan.next_voters
      then record state {
        completed_joins =
            BTreeMap.insert state.completed_joins pending.plan.consumer.physical_id
              (record { prepared = pending; promoted = log_id });
        prepared_join = none;
      }
      else state

  unfoldable pub apply_membership :
      raft.Membership → raft.LogId → KafStorageState raft → KafStorageState raft
  unfolding unique_voters forget_changed
  apply_membership membership log_id state =
      let stored : StoredMembership raft = record {
        log_id = some log_id;
        membership = membership;
      } in
      let before = unique_voters state.last_membership in
      let after = unique_voters stored in
      let physical = BTreeSet.collect (BTreeMap.keys before ++ BTreeMap.keys after) in
      let forgotten = forget_changed before after physical state in
      let kept : KafStorageState raft = record forgotten {
        applied_progress =
            BTreeMap.retain
              (λ _ (progress : AppliedHealthProgress raft).
                has_replica (raft.node_ids membership) progress.request.replica)
              forgotten.applied_progress;
      } in
      let joined = complete_join kept.prepared_join membership log_id kept in
      record joined { last_membership = stored }
