-- ===== src/Store/Local/Membership.antt =====
-- What a node keeps for itself takes no part in the membership's history (src/raft/store/membership.rs).
use keep_afloat_d.Prelude.{
  ℕ, ◌≡◌, refl, ◌∙◌, ap, not, ◌&&◌, Option, none, some, List, [], ◌∷◌, arith, nat_ord, is_ok, ◌||◌,
  ◌++◌, if◌then◌else◌, Bool-cases, inl, inr, is_some,
}
use keep_afloat_d.BTreeMap
use keep_afloat_d.BTreeMap.{BTreeMap}
use keep_afloat_d.BTreeSet
use keep_afloat_d.Identity.{ReplicaId, JoinPlan, validate_plan, replica_ord}
use keep_afloat_d.Store.OpenRaft.{OpenRaft}
use keep_afloat_d.Store.State.{
  KafStorageState, KafResponse, AdmissionCommand, prepare_join, cancel_join, learner_applied,
  PreparedJoin, StoredMembership, AppliedHealthProgress,
}
use keep_afloat_d.Store.Membership.{
  unique_voters, has_replica, same_genesis, forget_changed, forget_member, same_replica,
  acknowledged_before, stable_voters, complete_join, apply_membership, apply_prepare, apply_cancel,
  apply_learner, apply_admission_membership,
}
use keep_afloat_d.Store.Local.{Local, with_local, if-local}

module _ {raft : OpenRaft} (x : Local raft) where
  forget_changed-local :
      (before after : BTreeMap ℕ ReplicaId) (physical : List ℕ) (s : KafStorageState raft)
      → forget_changed before after physical (with_local x s)
        ≡ with_local x (forget_changed before after physical s)
  unfolding forget_changed forget_member
  forget_changed-local before after [] s = refl
  forget_changed-local before after (id ∷ physical) s =
      let changed =
        is_some s.genesis && not (same_replica (BTreeMap.get before id) (BTreeMap.get after id)) in
      let forgotten = if changed then forget_member id s else s in
      ap (forget_changed before after physical) (
        if-local x changed (forget_member id s) s (forget_member id (with_local x s))
          (with_local x s) refl refl)
      ∙ forget_changed-local before after physical forgotten

  complete_join-local :
      (p : Option (PreparedJoin raft)) (m : raft.Membership) (l : raft.LogId)
      (s : KafStorageState raft)
      → complete_join p m l (with_local x s) ≡ with_local x (complete_join p m l s)
  complete_join-local none m l s = refl
  complete_join-local (some pending) m l s =
      elim (Bool-cases (
        acknowledged_before raft pending.learner_applied l
        && stable_voters raft m pending.plan.next_voters)) [ inl e ↦ rw e refl | inr e ↦ rw e refl ]

  abbrev pub answered : KafStorageState raft × KafResponse → KafStorageState raft × KafResponse
  answered (s, response) = (with_local x s, response)

  apply_cancel-local :
      (p : Option (PreparedJoin raft)) (plan : JoinPlan) (prepared l : raft.LogId)
      (s : KafStorageState raft)
      → apply_cancel p plan prepared l (with_local x s)
        ≡ answered (apply_cancel p plan prepared l s)
  apply_cancel-local none plan prepared l s = refl
  apply_cancel-local (some pending) plan prepared l s = ground arith

  apply_prepare-local :
      (p : Option (PreparedJoin raft)) (plan : JoinPlan) (l : raft.LogId) (s : KafStorageState raft)
      → apply_prepare p plan l (with_local x s) ≡ answered (apply_prepare p plan l s)
  apply_prepare-local p plan l s = ground arith

  apply_learner-local :
      (p : Option (PreparedJoin raft)) (consumer : ReplicaId) (nonce : ℕ) (prepared l : raft.LogId)
      (s : KafStorageState raft)
      → apply_learner p consumer nonce prepared l (with_local x s)
        ≡ answered (apply_learner p consumer nonce prepared l s)
  apply_learner-local p consumer nonce prepared l s = ground arith

  pub apply_admission_membership-local :
      (c : AdmissionCommand raft) (l : raft.LogId) (s : KafStorageState raft)
      → apply_admission_membership c l (with_local x s)
        ≡ answered (apply_admission_membership c l s)
  unfolding apply_admission_membership
  apply_admission_membership-local (cancel_join plan prepared) l s =
      apply_cancel-local s.prepared_join plan prepared l s
  apply_admission_membership-local (learner_applied consumer nonce prepared) l s =
      apply_learner-local s.prepared_join consumer nonce prepared l s
  apply_admission_membership-local (prepare_join plan) l s =
      elim (Bool-cases
        (not (is_ok (validate_plan plan)) || not (same_genesis s.genesis plan.genesis))) [
          | inl e ↦ rw e refl
          | inr e ↦ rw e (apply_prepare-local s.prepared_join plan l s)
        ]

  -- What `apply_membership` does with the state that has forgotten the changed members.
  abbrev join : raft.Membership → raft.LogId → KafStorageState raft → KafStorageState raft
  join m l forgotten =
      let kept : KafStorageState raft = record forgotten {
        applied_progress =
            BTreeMap.retain
              (λ _ (progress : AppliedHealthProgress raft).
                has_replica (raft.node_ids m) progress.request.replica)
              forgotten.applied_progress;
      } in
      record (complete_join kept.prepared_join m l kept) {
        last_membership = record { log_id = some l; membership = m };
      }

  join-local :
      (m : raft.Membership) (l : raft.LogId) (s : KafStorageState raft)
      → join m l (with_local x s) ≡ with_local x (join m l s)
  join-local m l s =
      let kept : KafStorageState raft = record s {
        applied_progress =
            BTreeMap.retain
              (λ _ (progress : AppliedHealthProgress raft).
                has_replica (raft.node_ids m) progress.request.replica)
              s.applied_progress;
      } in
      ap
        (λ (t : KafStorageState raft). record t {
          last_membership = record { log_id = some l; membership = m };
        })
        (complete_join-local s.prepared_join m l kept)

  pub apply_membership-local :
      (m : raft.Membership) (l : raft.LogId) (s : KafStorageState raft)
      → apply_membership m l (with_local x s) ≡ with_local x (apply_membership m l s)
  unfolding apply_membership
  apply_membership-local m l s =
      let before = unique_voters s.last_membership in
      let stored : StoredMembership raft = record { log_id = some l; membership = m } in
      let after = unique_voters stored in
      let physical = BTreeSet.collect (BTreeMap.keys before ++ BTreeMap.keys after) in
      ap (join m l) (forget_changed-local before after physical s)
      ∙ join-local m l (forget_changed before after physical s)
