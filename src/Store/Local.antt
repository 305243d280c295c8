-- ===== src/Store/Local.antt =====
-- What a node keeps for itself takes no part in the state machine: here the health reports and the
-- recovery tracking (src/raft/store/state_machine.rs).
pub mod Membership
pub mod Apply
pub mod Tidy
pub mod CatchUp
use keep_afloat_d.Prelude.{
  ℕ, ◌≡◌, refl, ◌∙◌, ap, sym, Bool, true, false, not, ◌&&◌, unwrap_or, Option, none, some, List, [],
  ◌∷◌, arith, nat_ord, is_ok, ◌||◌, ◌++◌, if◌then◌else◌, Bool-cases, inl, inr, is_some,
}
use keep_afloat_d.BTreeMap
use keep_afloat_d.BTreeMap.{BTreeMap}
use keep_afloat_d.BTreeSet
use keep_afloat_d.VipLogic.Eligibility.{next_probe_tick}
use keep_afloat_d.Identity.{
  AdmissionSession, ReplicaId, Genesis, HealthProgress, JoinPlan, validate_plan, replica_ord,
}
use keep_afloat_d.Store.OpenRaft.{OpenRaft}
use keep_afloat_d.Store.State.{
  KafStorageState, KafSnapshot, KafResponse, ok, FailoverSemantics, legacy, v2, is_v2, EntryPayload,
  Entry, blank, normal, membership, health_progress, admission_genesis, admission_membership,
  health_update, vip_released, cluster_formed, enable_failover_semantics_v2,
  enable_config_identity_v1, AdmissionCommand, prepare_join, cancel_join, learner_applied,
  PreparedJoin, StoredMembership, AppliedHealthProgress,
}
use keep_afloat_d.Store.Machine.{
  is_alive, failed_owners, mark_failed, recover_one, recover_pending, complete_recovery,
  update_v2_failback_tracking, activate_v2, track_legacy, apply_health,
}
use keep_afloat_d.Store.Membership.{
  unique_voters, has_replica, same_genesis, forget_changed, forget_member, same_replica,
  acknowledged_before, stable_voters, complete_join, apply_membership, apply_prepare, apply_cancel,
  apply_learner, apply_admission_membership,
}
use keep_afloat_d.Store.Recompute.{recompute, fences, new_holders}
use keep_afloat_d.Store.Snapshot.{differs}
use keep_afloat_d.Store.Apply.{
  Dispatched, other_epoch, is_foreign, first_genesis, apply_genesis, publish, apply_progress,
  form_cluster, dispatch, apply_one, apply_all,
}

-- Local authority, the Raft log with its vote, and the node's own snapshot.
pub record Local (raft : OpenRaft) : Type 0 where
  pub admission : Option AdmissionSession
  pub admission_required : Bool
  pub last_purged_log_id : Option raft.LogId
  pub log : BTreeMap ℕ (Entry raft)
  pub vote : Option raft.Vote
  pub committed : Option raft.LogId
  pub current_snapshot : Option (KafSnapshot raft)

module _ {raft : OpenRaft} where
  abbrev pub with_local : Local raft → KafStorageState raft → KafStorageState raft
  with_local x s = record s {
    admission = x.admission;
    admission_required = x.admission_required;
    last_purged_log_id = x.last_purged_log_id;
    log = x.log;
    vote = x.vote;
    committed = x.committed;
    current_snapshot = x.current_snapshot;
  }

module _ {raft : OpenRaft} (x : Local raft) where
  pub activate_v2-local :
      (s : KafStorageState raft) → activate_v2 (with_local x s) ≡ with_local x (activate_v2 s)
  unfolding activate_v2
  activate_v2-local s = elim (Bool-cases (is_v2 s.failover_semantics)) [
    | inl e ↦ rw e refl
    | inr e ↦ rw e (elim (Bool-cases s.failback) [ inl f ↦ rw f refl | inr f ↦ rw f refl ])
  ]

  mark_failed-local :
      (failed : List ℕ) (s : KafStorageState raft)
      → mark_failed failed (with_local x s) ≡ with_local x (mark_failed failed s)
  unfolding mark_failed
  mark_failed-local [] s = refl
  mark_failed-local (n ∷ failed) s = mark_failed-local failed _

  complete_recovery-local :
      (completed : List ℕ) (s : KafStorageState raft)
      → complete_recovery completed (with_local x s) ≡ with_local x (complete_recovery completed s)
  unfolding complete_recovery
  complete_recovery-local [] s = refl
  complete_recovery-local (n ∷ completed) s = complete_recovery-local completed _

  abbrev both : KafStorageState raft × List ℕ → KafStorageState raft × List ℕ
  both (s, completed) = (with_local x s, completed)

  recover_one-local :
      (n : ℕ) (acc : KafStorageState raft × List ℕ)
      → recover_one n (both acc) ≡ both (recover_one n acc)
  unfolding recover_one
  recover_one-local n (s, completed) = elim (Bool-cases (is_alive s n)) [
    | inl e ↦ rw e refl
    | inr e ↦ rw e refl
  ]

  recover_pending-local :
      (pending : List ℕ) (acc : KafStorageState raft × List ℕ)
      → recover_pending pending (both acc) ≡ both (recover_pending pending acc)
  unfolding recover_pending
  recover_pending-local [] (s, completed) = refl
  recover_pending-local (n ∷ pending) (s, completed) =
      ap (recover_pending pending) (recover_one-local n (s, completed))
      ∙ recover_pending-local pending (recover_one n (s, completed))

  abbrev finish : KafStorageState raft → KafStorageState raft
  finish marked =
      let start : KafStorageState raft × List ℕ = (marked, []) in
      let r = recover_pending marked.node_recovery_pending start in complete_recovery r.1 r.0

  finish-local : (m : KafStorageState raft) → finish (with_local x m) ≡ with_local x (finish m)
  finish-local m =
      let start : KafStorageState raft × List ℕ = (m, []) in
      let r = recover_pending m.node_recovery_pending start in
      ap (λ (q : KafStorageState raft × List ℕ). complete_recovery q.1 q.0)
        (recover_pending-local m.node_recovery_pending start)
      ∙ complete_recovery-local r.1 r.0

  pub if-local :
      (b : Bool) (s t s' t' : KafStorageState raft)
      → s' ≡ with_local x s
      → t' ≡ with_local x t
      → (if b then s' else t') ≡ with_local x (if b then s else t)
  if-local true s t s' t' p q = p
  if-local false s t s' t' p q = q

  -- The two branches of `update_v2_failback_tracking`.
  abbrev stop : KafStorageState raft → KafStorageState raft
  stop s = record s {
    node_nopreempt = BTreeSet.extend s.node_nopreempt (failed_owners s);
    node_recovery_pending = [];
    node_recovery_tick = [];
  }

  abbrev track : KafStorageState raft → KafStorageState raft
  track s = finish (mark_failed (failed_owners s) (record s { node_nopreempt = [] }))

  pub update_v2_failback_tracking-local :
      (s : KafStorageState raft)
      → update_v2_failback_tracking (with_local x s) ≡ with_local x (update_v2_failback_tracking s)
  unfolding update_v2_failback_tracking failed_owners
  update_v2_failback_tracking-local s =
      let cleared : KafStorageState raft = record s { node_nopreempt = [] } in
      if-local (not s.failback) (stop s) (track s) (stop (with_local x s)) (track (with_local x s))
        refl
        (ap finish (mark_failed-local (failed_owners s) cleared)
          ∙ finish-local (mark_failed (failed_owners s) cleared))

  track_legacy-local :
      (f : FailoverSemantics) (healthy : Bool) (previous : Option Bool) (n tick : ℕ)
      (s : KafStorageState raft)
      → track_legacy f healthy previous n tick (with_local x s)
        ≡ with_local x (track_legacy f healthy previous n tick s)
  track_legacy-local v2 healthy previous n tick s = refl
  track_legacy-local legacy true previous n tick s =
      elim (Bool-cases (s.failback && not (unwrap_or previous true))) [
        | inl e ↦ rw e refl
        | inr e ↦ rw e refl
      ]
  track_legacy-local legacy false previous n tick s = refl

  pub apply_health-local :
      (n : ℕ) (healthy : Bool) (s : KafStorageState raft)
      → apply_health n healthy (with_local x s) ≡ with_local x (apply_health n healthy s)
  unfolding apply_health
  apply_health-local n healthy s =
      let tick = next_probe_tick (BTreeMap.get s.node_probe_ticks n) s.latest_probe_tick in
      track_legacy-local s.failover_semantics healthy (BTreeMap.get s.node_health n) n tick
        (record s {
          node_health = BTreeMap.insert s.node_health n healthy;
          node_probe_ticks = BTreeMap.insert s.node_probe_ticks n tick;
          latest_probe_tick = tick;
        })
