-- ===== src/Store/Apply/Steady.antt =====
-- Which steps leave the VIP maps and the committed facts alone.
use keep_afloat_d.Prelude.{
  ℕ, Bool, true, false, Option, none, some, List, [], ◌∷◌, ◌≡◌, refl, ◌∙◌, if◌then◌else◌, arith,
  nat_ord, ◌++◌,
}
use keep_afloat_d.BTreeMap
use keep_afloat_d.BTreeMap.{BTreeMap}
use keep_afloat_d.BTreeSet
use keep_afloat_d.Identity.{replica_ord}
use keep_afloat_d.Identity.{ReplicaId}
use keep_afloat_d.Store.OpenRaft.{OpenRaft}
use keep_afloat_d.Store.State.{
  KafStorageState, FailoverSemantics, legacy, v2, AdmissionCommand, prepare_join, cancel_join,
  learner_applied, PreparedJoin, AppliedHealthProgress, StoredMembership,
}
use keep_afloat_d.Store.Machine.Frame.{vips_of, facts_of}
use keep_afloat_d.Store.Machine.{apply_health, track_legacy}
use keep_afloat_d.Store.Membership.{
  apply_admission_membership, apply_membership, forget_changed, forget_member, complete_join,
  unique_voters, has_replica,
}

module _ {raft : OpenRaft} where
  pub record IsSteady (s t : KafStorageState raft) : Type 0 where
    pub vips : vips_of t ≡ vips_of s
    pub facts : facts_of t ≡ facts_of s

  pub steady : (s : KafStorageState raft) → IsSteady s s
  steady s = record { vips = refl; facts = refl }

  pub IsSteady-trans : (s t u : KafStorageState raft) → IsSteady s t → IsSteady t u → IsSteady s u
  IsSteady-trans s t u p q = record { vips = q.vips ∙ p.vips; facts = q.facts ∙ p.facts }

  pub IsSteady-if :
      (s : KafStorageState raft) (b : Bool) (x y : KafStorageState raft)
      → IsSteady s x
      → IsSteady s y
      → IsSteady s (if b then x else y)
  IsSteady-if s true x y p q = p
  IsSteady-if s false x y p q = q

  forget_changed-IsSteady :
      (before after : BTreeMap ℕ ReplicaId) (ids : List ℕ) (s : KafStorageState raft)
      → IsSteady s (forget_changed before after ids s)
  unfolding forget_changed forget_member
  forget_changed-IsSteady before after [] s = steady s
  forget_changed-IsSteady before after (id ∷ ids) s =
      IsSteady-trans s _ _
        (IsSteady-if s _ (forget_member id s) s (record { vips = refl; facts = refl }) (steady s))
        (forget_changed-IsSteady before after ids _)

  complete_join-IsSteady :
      (pending : Option (PreparedJoin raft)) (m : raft.Membership) (l : raft.LogId)
      (s : KafStorageState raft)
      → IsSteady s (complete_join pending m l s)
  complete_join-IsSteady none m l s = steady s
  complete_join-IsSteady (some p) m l s = record { vips = ground arith; facts = ground arith }

  pub apply_membership-IsSteady :
      (m : raft.Membership) (l : raft.LogId) (s : KafStorageState raft)
      → IsSteady s (apply_membership m l s)
  unfolding apply_membership
  apply_membership-IsSteady m l s =
      let before = unique_voters s.last_membership in
      let stored : StoredMembership raft = record { log_id = some l; membership = m } in
      let after = unique_voters stored in
      let forgotten =
        forget_changed before after (BTreeSet.collect (BTreeMap.keys before ++ BTreeMap.keys after))
          s in
      let kept : KafStorageState raft = record forgotten {
        applied_progress =
            BTreeMap.retain
              (λ _ (progress : AppliedHealthProgress raft).
                has_replica (raft.node_ids m) progress.request.replica)
              forgotten.applied_progress;
      } in
      IsSteady-trans s forgotten _
        (forget_changed-IsSteady before after
          (BTreeSet.collect (BTreeMap.keys before ++ BTreeMap.keys after)) s)
        (IsSteady-trans forgotten kept _ (record { vips = refl; facts = refl })
          (IsSteady-trans kept (complete_join kept.prepared_join m l kept) _
            (complete_join-IsSteady kept.prepared_join m l kept)
            (record { vips = refl; facts = refl })))

  pub track_legacy-IsSteady :
      (f : FailoverSemantics) (healthy : Bool) (previous : Option Bool) (n tick : ℕ)
      (s : KafStorageState raft)
      → IsSteady s (track_legacy f healthy previous n tick s)
  track_legacy-IsSteady v2 healthy previous n tick s = steady s
  track_legacy-IsSteady legacy true previous n tick s = record {
    vips = ground arith;
    facts = ground arith;
  }
  track_legacy-IsSteady legacy false previous n tick s = record { vips = refl; facts = refl }

  pub apply_health-IsSteady :
      (n : ℕ) (healthy : Bool) (s : KafStorageState raft) → IsSteady s (apply_health n healthy s)
  unfolding apply_health
  apply_health-IsSteady n healthy s =
      IsSteady-trans s _ _ (record { vips = refl; facts = refl })
        (track_legacy-IsSteady s.failover_semantics healthy (BTreeMap.get s.node_health n) n _ _)

  pub apply_admission_membership-IsSteady :
      (c : AdmissionCommand raft) (l : raft.LogId) (s : KafStorageState raft)
      → IsSteady s (apply_admission_membership c l s).0
  unfolding apply_admission_membership
  apply_admission_membership-IsSteady (cancel_join plan prepared) l s = record {
    vips = ground arith;
    facts = ground arith;
  }
  apply_admission_membership-IsSteady (prepare_join plan) l s = record {
    vips = ground arith;
    facts = ground arith;
  }
  apply_admission_membership-IsSteady (learner_applied consumer nonce prepared) l s = record {
    vips = ground arith;
    facts = ground arith;
  }
