-- ===== src/Store/Local/Tidy/Apply.antt =====
-- The recovery history of a node over the log (src/raft/store/state_machine.rs).
use keep_afloat_d.Prelude.{
  ℕ, ◌≡◌, refl, ◌∙◌, ap, Bool, not, ◌&&◌, ◌||◌, Option, none, some, List, [], ◌∷◌, ◌++◌, nat_ord,
  if◌then◌else◌, Bool-cases, inl, inr, is_some, arith,
}
use keep_afloat_d.BTreeMap
use keep_afloat_d.BTreeMap.{BTreeMap}
use keep_afloat_d.BTreeSet
use keep_afloat_d.Identity.{ReplicaId, Genesis, HealthProgress, replica_ord}
use keep_afloat_d.Store.OpenRaft.{OpenRaft}
use keep_afloat_d.Store.State.{
  KafStorageState, FailoverSemantics, is_v2, EntryPayload, Entry, blank, normal, membership,
  health_progress, admission_genesis, admission_membership, health_update, vip_released,
  cluster_formed, enable_failover_semantics_v2, enable_config_identity_v1, AdmissionCommand,
  PreparedJoin, AppliedHealthProgress, StoredMembership,
}
use keep_afloat_d.Store.Machine.{activate_v2, update_v2_failback_tracking}
use keep_afloat_d.Store.Membership.{
  unique_voters, same_replica, has_replica, forget_member, forget_changed, complete_join,
  apply_membership, apply_admission_membership,
}
use keep_afloat_d.Store.Snapshot.{differs}
use keep_afloat_d.Store.Recompute.{recompute}
use keep_afloat_d.Store.Apply.{
  other_epoch, is_foreign, first_genesis, apply_genesis, publish, apply_progress, form_cluster,
  dispatch, apply_one, apply_all,
}
use keep_afloat_d.Store.Local.Tidy.{
  IsTidy, activate_v2-IsTidy, update_v2_failback_tracking-IsTidy, apply_health-IsTidy,
  either-IsTidy,
}

-- The recovery history, with what decides which parts of it are in use.
record Tracking : Type 0 where
  semantics : FailoverSemantics
  failback : Bool
  blocked : List ℕ
  nopreempt : List ℕ
  pending : List ℕ
  ticks : BTreeMap ℕ ℕ

module _ {raft : OpenRaft} where
  abbrev tracking_of : KafStorageState raft → Tracking
  tracking_of s = record {
    semantics = s.failover_semantics;
    failback = s.failback;
    blocked = s.node_failback_blocked;
    nopreempt = s.node_nopreempt;
    pending = s.node_recovery_pending;
    ticks = s.node_recovery_tick;
  }

  tracking-IsTidy :
      (s t : KafStorageState raft) → tracking_of t ≡ tracking_of s → IsTidy s → IsTidy t
  tracking-IsTidy s t e tidy =
      let semantics : t.failover_semantics ≡ s.failover_semantics =
        ap (λ (x : Tracking). x.semantics) e in
      let failback : t.failback ≡ s.failback = ap (λ (x : Tracking). x.failback) e in
      record {
        blocked =
            λ h. ap (λ (x : Tracking). x.blocked) e ∙ tidy.blocked (rw (semantics, failback) at h);
        nopreempt = λ h.
            ap (λ (x : Tracking). x.nopreempt) e ∙ tidy.nopreempt (rw (semantics, failback) at h);
        pending =
            λ h. ap (λ (x : Tracking). x.pending) e ∙ tidy.pending (rw (semantics, failback) at h);
        ticks = λ h. ap (λ (x : Tracking). x.ticks) e ∙ tidy.ticks (rw failback at h);
      }

  forget_member-IsTidy : (n : ℕ) (s : KafStorageState raft) → IsTidy s → IsTidy (forget_member n s)
  unfolding forget_member
  forget_member-IsTidy n s t = record {
    blocked = t.blocked;
    nopreempt = t.nopreempt;
    pending = t.pending;
    ticks = λ h. rw (t.ticks h) (unfold BTreeMap.remove in refl);
  }

  forget_changed-IsTidy :
      (before after : BTreeMap ℕ ReplicaId) (physical : List ℕ) (s : KafStorageState raft)
      → IsTidy s
      → IsTidy (forget_changed before after physical s)
  unfolding forget_changed
  forget_changed-IsTidy before after [] s t = t
  forget_changed-IsTidy before after (id ∷ physical) s t =
      forget_changed-IsTidy before after physical _ (
        either-IsTidy
          (is_some s.genesis && not (same_replica (BTreeMap.get before id) (BTreeMap.get after id)))
          (forget_member id s) s (λ e. forget_member-IsTidy id s t) (λ e. t))

  complete_join-tracking :
      (p : Option (PreparedJoin raft)) (m : raft.Membership) (l : raft.LogId)
      (s : KafStorageState raft)
      → tracking_of (complete_join p m l s) ≡ tracking_of s
  complete_join-tracking p m l s = ground arith

  apply_membership-IsTidy :
      (m : raft.Membership) (l : raft.LogId) (s : KafStorageState raft)
      → IsTidy s
      → IsTidy (apply_membership m l s)
  unfolding apply_membership
  apply_membership-IsTidy m l s t =
      let before = unique_voters s.last_membership in
      let stored : StoredMembership raft = record { log_id = some l; membership = m } in
      let after = unique_voters stored in
      let physical = BTreeSet.collect (BTreeMap.keys before ++ BTreeMap.keys after) in
      let forgotten = forget_changed before after physical s in
      tracking-IsTidy forgotten _
        (complete_join-tracking forgotten.prepared_join m l (record forgotten {
          applied_progress =
              BTreeMap.retain
                (λ _ (progress : AppliedHealthProgress raft).
                  has_replica (raft.node_ids m) progress.request.replica)
                forgotten.applied_progress;
        }))
        (forget_changed-IsTidy before after physical s t)

  apply_admission_membership-tracking :
      (c : AdmissionCommand raft) (l : raft.LogId) (s : KafStorageState raft)
      → tracking_of (apply_admission_membership c l s).0 ≡ tracking_of s
  unfolding apply_admission_membership
  apply_admission_membership-tracking c l s = ground arith

  first_genesis-IsTidy : (s : KafStorageState raft) → IsTidy s → IsTidy (first_genesis s)
  unfolding first_genesis
  first_genesis-IsTidy s t =
      let reset : KafStorageState raft = record s {
        node_health = [];
        node_probe_ticks = [];
        node_recovery_tick = [];
        applied_progress = [];
      } in
      tracking-IsTidy (activate_v2 reset) _ refl (
        activate_v2-IsTidy reset (record {
          blocked = t.blocked;
          nopreempt = t.nopreempt;
          pending = t.pending;
          ticks = λ h. refl;
        }))

  apply_genesis-IsTidy :
      (g : Genesis) (s : KafStorageState raft) → IsTidy s → IsTidy (apply_genesis g s).state
  unfolding apply_genesis
  apply_genesis-IsTidy g s t =
      elim (Bool-cases (differs s.genesis g || other_epoch s.cluster_epoch g.epoch)) [
        | inl e ↦ rw e t
        | inr e ↦ rw e (
            tracking-IsTidy (if is_some s.genesis then s else first_genesis s) _ refl (
              either-IsTidy (is_some s.genesis) s (first_genesis s) (λ h. t)
                (λ h. first_genesis-IsTidy s t)))
      ]

  publish-IsTidy :
      (healthy : Option Bool) (p : HealthProgress) (voters : BTreeMap ℕ ReplicaId)
      (s : KafStorageState raft)
      → IsTidy s
      → IsTidy (publish healthy p voters s)
  publish-IsTidy none p voters s t = t
  publish-IsTidy (some healthy) p voters s t =
      apply_health-IsTidy p.node_id
        (healthy && same_replica (BTreeMap.get voters p.node_id) (some p.replica)) s t

  apply_progress-IsTidy :
      (p : HealthProgress) (l : raft.LogId) (s : KafStorageState raft)
      → IsTidy s
      → IsTidy (apply_progress p l s).state
  unfolding apply_progress
  apply_progress-IsTidy p l s t = elim (Bool-cases (is_foreign p s)) [
    | inl e ↦ rw e t
    | inr e ↦
        let noted : KafStorageState raft = record s {
          applied_progress =
              BTreeMap.insert s.applied_progress p.node_id (record { request = p; log_id = l });
        } in
        rw e (
          publish-IsTidy p.healthy p (unique_voters s.last_membership) noted
            (tracking-IsTidy s noted refl t))
  ]

  form_cluster-IsTidy :
      (id : ℕ) (f : FailoverSemantics) (enforced : Bool) (s : KafStorageState raft)
      → IsTidy s
      → IsTidy (form_cluster id f enforced s).state
  form_cluster-IsTidy id f enforced s t = elim (Bool-cases (is_some s.cluster_epoch)) [
    | inl e ↦ rw e t
    | inr e ↦
        let formed : KafStorageState raft = record s {
          cluster_epoch = some id;
          config_identity_enforced = s.config_identity_enforced || enforced;
        } in
        let tidy = tracking-IsTidy s formed refl t in
        rw e (
          either-IsTidy (is_v2 f) (activate_v2 formed) formed (λ h. activate_v2-IsTidy formed tidy)
            (λ h. tidy))
  ]

  dispatch-IsTidy :
      (e : EntryPayload raft) (l : raft.LogId) (s : KafStorageState raft)
      → IsTidy s
      → IsTidy (dispatch e l s).state
  unfolding dispatch
  dispatch-IsTidy blank l s t = t
  dispatch-IsTidy (membership m) l s t = apply_membership-IsTidy m l s t
  dispatch-IsTidy (normal (admission_membership c)) l s t =
      tracking-IsTidy s _ (apply_admission_membership-tracking c l s) t
  dispatch-IsTidy (normal (admission_genesis g)) l s t = apply_genesis-IsTidy g s t
  dispatch-IsTidy (normal (health_progress p)) l s t = apply_progress-IsTidy p l s t
  dispatch-IsTidy (normal (health_update n healthy)) l s t = elim (Bool-cases (is_some s.genesis)) [
    | inl e ↦ rw e t
    | inr e ↦ rw e (apply_health-IsTidy n healthy s t)
  ]
  dispatch-IsTidy (normal (vip_released n vip generation)) l s t = tracking-IsTidy s _ refl t
  dispatch-IsTidy (normal (cluster_formed id f enforced)) l s t =
      form_cluster-IsTidy id f enforced s t
  dispatch-IsTidy (normal enable_failover_semantics_v2) l s t = activate_v2-IsTidy s t
  dispatch-IsTidy (normal enable_config_identity_v1) l s t = tracking-IsTidy s _ refl t

  recompute-IsTidy : (s : KafStorageState raft) → IsTidy s → IsTidy (recompute s)
  unfolding recompute
  recompute-IsTidy s t =
      let followed : KafStorageState raft =
        if is_v2 s.failover_semantics then update_v2_failback_tracking s else s in
      tracking-IsTidy followed _ refl (
        either-IsTidy (is_v2 s.failover_semantics) (update_v2_failback_tracking s) s
          (λ e. update_v2_failback_tracking-IsTidy s e t) (λ e. t))

  pub apply_all-IsTidy :
      (log : List (Entry raft)) (s : KafStorageState raft) → IsTidy s → IsTidy (apply_all log s)
  unfolding apply_all apply_one
  apply_all-IsTidy [] s t = t
  apply_all-IsTidy (e ∷ log) s t =
      let logged : KafStorageState raft = record s { last_applied_log = some e.log_id } in
      let d = dispatch e.payload e.log_id logged in
      let tidy = dispatch-IsTidy e.payload e.log_id logged (tracking-IsTidy s logged refl t) in
      apply_all-IsTidy log (apply_one e s).0 (
        either-IsTidy d.should_recompute (recompute d.state) d.state
          (λ h. recompute-IsTidy d.state tidy) (λ h. tidy))
