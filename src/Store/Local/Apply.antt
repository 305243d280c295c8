-- ===== src/Store/Local/Apply.antt =====
-- What a node keeps for itself takes no part in the applying of entries
-- (src/raft/store/state_machine.rs).
use keep_afloat_d.Prelude.{
  ℕ, ◌≡◌, refl, ◌∙◌, ap, Bool, true, false, not, ◌&&◌, Option, none, some, List, [], ◌∷◌, nat_ord,
  ◌||◌, if◌then◌else◌, Bool-cases, inl, inr, is_some,
}
use keep_afloat_d.BTreeMap
use keep_afloat_d.BTreeMap.{BTreeMap}
use keep_afloat_d.Identity.{ReplicaId, Genesis, HealthProgress, replica_ord}
use keep_afloat_d.Store.OpenRaft.{OpenRaft}
use keep_afloat_d.Store.State.{
  KafStorageState, KafResponse, ok, FailoverSemantics, is_v2, EntryPayload, Entry, blank, normal,
  membership, health_progress, admission_genesis, admission_membership, health_update, vip_released,
  cluster_formed, enable_failover_semantics_v2, enable_config_identity_v1,
}
use keep_afloat_d.Store.Machine.{update_v2_failback_tracking, activate_v2}
use keep_afloat_d.Store.Membership.{unique_voters, same_replica}
use keep_afloat_d.Store.Recompute.{recompute, fences, new_holders}
use keep_afloat_d.Store.Snapshot.{differs}
use keep_afloat_d.Store.Apply.{
  Dispatched, other_epoch, is_foreign, first_genesis, apply_genesis, publish, apply_progress,
  form_cluster, dispatch, apply_one, apply_all,
}
use keep_afloat_d.Store.Local.{
  Local, with_local, activate_v2-local, if-local, update_v2_failback_tracking-local,
  apply_health-local,
}
use keep_afloat_d.Store.Local.Membership.{
  answered, apply_admission_membership-local, apply_membership-local,
}

module _ {raft : OpenRaft} (x : Local raft) where
  first_genesis-local :
      (s : KafStorageState raft) → first_genesis (with_local x s) ≡ with_local x (first_genesis s)
  unfolding first_genesis
  first_genesis-local s =
      ap (λ (t : KafStorageState raft). record t { config_identity_enforced = true })
        (activate_v2-local x (record s {
          node_health = [];
          node_probe_ticks = [];
          node_recovery_tick = [];
          applied_progress = [];
        }))

  abbrev dispatched : Dispatched raft → Dispatched raft
  dispatched d = record d { state = with_local x d.state }

  apply_genesis-local :
      (g : Genesis) (s : KafStorageState raft)
      → apply_genesis g (with_local x s) ≡ dispatched (apply_genesis g s)
  unfolding apply_genesis
  apply_genesis-local g s =
      elim (Bool-cases (differs s.genesis g || other_epoch s.cluster_epoch g.epoch)) [
        | inl e ↦ rw e refl
        | inr e ↦ rw e (
            ap
              (λ (t : KafStorageState raft). record {
                state = record t { genesis = some g; cluster_epoch = some g.epoch };
                response = ok;
                should_recompute = not (is_some s.genesis);
              })
              (if-local x (is_some s.genesis) s (first_genesis s) (with_local x s)
                (first_genesis (with_local x s)) refl (first_genesis-local s)))
      ]

  publish-local :
      (healthy : Option Bool) (p : HealthProgress) (voters : BTreeMap ℕ ReplicaId)
      (s : KafStorageState raft)
      → publish healthy p voters (with_local x s) ≡ with_local x (publish healthy p voters s)
  publish-local none p voters s = refl
  publish-local (some healthy) p voters s =
      apply_health-local x p.node_id
        (healthy && same_replica (BTreeMap.get voters p.node_id) (some p.replica)) s

  apply_progress-local :
      (p : HealthProgress) (l : raft.LogId) (s : KafStorageState raft)
      → apply_progress p l (with_local x s) ≡ dispatched (apply_progress p l s)
  unfolding apply_progress
  apply_progress-local p l s = elim (Bool-cases (is_foreign p s)) [
    | inl e ↦ rw e refl
    | inr e ↦ rw e (
        ap
          (λ (t : KafStorageState raft). record {
            state = t;
            response = ok;
            should_recompute = is_some p.healthy;
          })
          (publish-local p.healthy p (unique_voters s.last_membership) (record s {
            applied_progress =
                BTreeMap.insert s.applied_progress p.node_id (record { request = p; log_id = l });
          })))
  ]

  form_cluster-local :
      (id : ℕ) (f : FailoverSemantics) (enforced : Bool) (s : KafStorageState raft)
      → form_cluster id f enforced (with_local x s) ≡ dispatched (form_cluster id f enforced s)
  form_cluster-local id f enforced s = elim (Bool-cases (is_some s.cluster_epoch)) [
    | inl e ↦ rw e refl
    | inr e ↦
        let formed : KafStorageState raft = record s {
          cluster_epoch = some id;
          config_identity_enforced = s.config_identity_enforced || enforced;
        } in
        rw e (
          ap
            (λ (t : KafStorageState raft). record {
              state = t;
              response = ok;
              should_recompute = is_v2 f;
            })
            (if-local x (is_v2 f) (activate_v2 formed) formed (activate_v2 (with_local x formed))
              (with_local x formed) (activate_v2-local x formed) refl))
  ]

  abbrev settled_as : KafResponse → Bool → KafStorageState raft → Dispatched raft
  settled_as response should_recompute t = record {
    state = t;
    response = response;
    should_recompute = should_recompute;
  }

  dispatch-local :
      (e : EntryPayload raft) (l : raft.LogId) (s : KafStorageState raft)
      → dispatch e l (with_local x s) ≡ dispatched (dispatch e l s)
  unfolding dispatch
  dispatch-local blank l s = refl
  dispatch-local (membership m) l s = ap (settled_as ok true) (apply_membership-local x m l s)
  dispatch-local (normal (admission_membership c)) l s =
      ap (λ (r : KafStorageState raft × KafResponse). settled_as r.1 false r.0)
        (apply_admission_membership-local x c l s)
  dispatch-local (normal (admission_genesis g)) l s = apply_genesis-local g s
  dispatch-local (normal (health_progress p)) l s = apply_progress-local p l s
  dispatch-local (normal (health_update n healthy)) l s = elim (Bool-cases (is_some s.genesis)) [
    | inl e ↦ rw e refl
    | inr e ↦ rw e (ap (settled_as ok true) (apply_health-local x n healthy s))
  ]
  dispatch-local (normal (vip_released n vip generation)) l s = refl
  dispatch-local (normal (cluster_formed id f enforced)) l s = form_cluster-local id f enforced s
  dispatch-local (normal enable_failover_semantics_v2) l s =
      ap (settled_as ok true) (activate_v2-local x s)
  dispatch-local (normal enable_config_identity_v1) l s = refl

  -- What `recompute` does with the state that it starts from.
  abbrev fenced : KafStorageState raft → KafStorageState raft
  fenced t = record t {
    vip_assignments = (fences t).assignments;
    vip_generation = (fences t).generation;
    vip_last_holder = (fences t).last_holder;
  }

  recompute-local :
      (s : KafStorageState raft) → recompute (with_local x s) ≡ with_local x (recompute s)
  unfolding recompute fences new_holders
  recompute-local s =
      let t : KafStorageState raft =
        if is_v2 s.failover_semantics then update_v2_failback_tracking s else s in
      ap fenced (
        if-local x (is_v2 s.failover_semantics) (update_v2_failback_tracking s) s
          (update_v2_failback_tracking (with_local x s)) (with_local x s)
          (update_v2_failback_tracking-local x s) refl)

  apply_one-local :
      (e : Entry raft) (s : KafStorageState raft)
      → apply_one e (with_local x s) ≡ answered x (apply_one e s)
  unfolding apply_one
  apply_one-local e s =
      let logged : KafStorageState raft = record s { last_applied_log = some e.log_id } in
      let d = dispatch e.payload e.log_id logged in
      ap
        (λ (q : Dispatched raft).
          (if q.should_recompute then recompute q.state else q.state, q.response))
        (dispatch-local e.payload e.log_id logged)
      ∙ ap (λ t. (t, d.response))
          (if-local x d.should_recompute (recompute d.state) d.state
            (recompute (with_local x d.state)) (with_local x d.state) (recompute-local d.state)
            refl)

  pub apply_all-local :
      (log : List (Entry raft)) (s : KafStorageState raft)
      → apply_all log (with_local x s) ≡ with_local x (apply_all log s)
  unfolding apply_all
  apply_all-local [] s = refl
  apply_all-local (e ∷ log) s =
      ap (λ (r : KafStorageState raft × KafResponse). apply_all log r.0) (apply_one-local e s)
      ∙ apply_all-local log (apply_one e s).0
