-- ===== src/Store/Apply/Facts.antt =====
-- The facts that the log commits once and never takes back.
use keep_afloat_d.Prelude.{
  ℕ, Bool, true, false, Option, none, some, List, [], ◌∷◌, ◌≡◌, refl, subst, sym, if◌then◌else◌,
  arith, is_some, equal_iff, nat_ord,
}
use keep_afloat_d.BTreeMap
use keep_afloat_d.BTreeMap.{BTreeMap}
use keep_afloat_d.Identity.{Genesis, ReplicaId, HealthProgress, Genesis-discrete}
use keep_afloat_d.Store.OpenRaft.{OpenRaft}
use keep_afloat_d.Store.State.{
  KafStorageState, FailoverSemantics, v2, is_v2, EntryPayload, Entry, health_progress,
  admission_genesis, admission_membership, health_update, vip_released, cluster_formed,
  enable_failover_semantics_v2, enable_config_identity_v1, blank, normal, membership,
}
use keep_afloat_d.Store.Machine.Frame.{Facts, facts_of, followed-Agree}
use keep_afloat_d.Store.Machine.{activate_v2}
use keep_afloat_d.Store.Membership.{unique_voters}
use keep_afloat_d.Store.Recompute.{recompute}
use keep_afloat_d.Store.Snapshot.{differs}
use keep_afloat_d.Store.Apply.{
  Dispatched, first_genesis, apply_genesis, publish, apply_progress, is_foreign, form_cluster,
  dispatch, apply_one, apply_all,
}
use keep_afloat_d.Store.Apply.Steady.{
  IsSteady, steady, IsSteady-trans, apply_membership-IsSteady, apply_health-IsSteady,
  apply_admission_membership-IsSteady,
}

-- A genesis and an epoch stay what they are, and the two upgrades are not undone.
pub record IsKept (s t : Facts) : Type 0 where
  pub genesis : (g : Genesis) → s.genesis ≡ some g → t.genesis ≡ some g
  pub epoch : (e : ℕ) → s.cluster_epoch ≡ some e → t.cluster_epoch ≡ some e
  pub enforced : s.config_identity_enforced ≡ true → t.config_identity_enforced ≡ true
  pub semantics : s.failover_semantics ≡ v2 → t.failover_semantics ≡ v2

kept : (s : Facts) → IsKept s s
kept s = record { genesis = λ g h. h; epoch = λ e h. h; enforced = λ h. h; semantics = λ h. h }

IsKept-trans : (s t u : Facts) → IsKept s t → IsKept t u → IsKept s u
IsKept-trans s t u p q = record {
  genesis = λ g h. q.genesis g (p.genesis g h);
  epoch = λ e h. q.epoch e (p.epoch e h);
  enforced = λ h. q.enforced (p.enforced h);
  semantics = λ h. q.semantics (p.semantics h);
}

differs_lem :
    (known : Option Genesis) (genesis old : Genesis)
    → known ≡ some old
    → differs known genesis ≡ false
    → genesis ≡ old
differs_lem none genesis old h e = ground arith
differs_lem (some known) genesis old h e = ground (arith, equal_iff Genesis-discrete known genesis)

module _ {raft : OpenRaft} where
  steady-IsKept : (s t : KafStorageState raft) → IsSteady s t → IsKept (facts_of s) (facts_of t)
  steady-IsKept s t p = subst (IsKept (facts_of s)) (sym p.facts) (kept (facts_of s))

  recompute-facts : (s : KafStorageState raft) → facts_of (recompute s) ≡ facts_of s
  unfolding recompute
  recompute-facts s = (followed-Agree (is_v2 s.failover_semantics) s).facts

  activate_v2-IsKept : (s : KafStorageState raft) → IsKept (facts_of s) (facts_of (activate_v2 s))
  unfolding activate_v2
  activate_v2-IsKept s = record {
    genesis = ground arith;
    epoch = ground arith;
    enforced = ground arith;
    semantics = ground arith;
  }

  apply_genesis-IsKept :
      (g : Genesis) (s : KafStorageState raft)
      → IsKept (facts_of s) (facts_of (apply_genesis g s).state)
  unfolding apply_genesis first_genesis activate_v2
  apply_genesis-IsKept g s = record {
    genesis = λ old h. ground (arith, differs_lem s.genesis g old h);
    epoch = λ e h. ground arith;
    enforced = λ h. ground arith;
    semantics = λ h. ground arith;
  }

  form_cluster-IsKept :
      (id : ℕ) (f : FailoverSemantics) (enforced : Bool) (s : KafStorageState raft)
      → IsKept (facts_of s) (facts_of (form_cluster id f enforced s).state)
  unfolding activate_v2
  form_cluster-IsKept id f enforced s = ground arith

  publish-IsSteady :
      (healthy : Option Bool) (p : HealthProgress) (voters : BTreeMap ℕ ReplicaId)
      (s : KafStorageState raft)
      → IsSteady s (publish healthy p voters s)
  publish-IsSteady none p voters s = steady s
  publish-IsSteady (some healthy) p voters s = apply_health-IsSteady p.node_id _ s

  pub either-IsSteady :
      (s : KafStorageState raft) (b : Bool) (x y : Dispatched raft)
      → IsSteady s x.state
      → IsSteady s y.state
      → IsSteady s (if b then x else y).state
  either-IsSteady s true x y p q = p
  either-IsSteady s false x y p q = q

  pub apply_progress-IsSteady :
      (p : HealthProgress) (l : raft.LogId) (s : KafStorageState raft)
      → IsSteady s (apply_progress p l s).state
  unfolding apply_progress
  apply_progress-IsSteady p l s =
      let noted : KafStorageState raft = record s {
        applied_progress =
            BTreeMap.insert s.applied_progress p.node_id (record { request = p; log_id = l });
      } in
      either-IsSteady s (is_foreign p s) _ _ (steady s) (
        IsSteady-trans s noted _ (record { vips = refl; facts = refl })
          (publish-IsSteady p.healthy p (unique_voters s.last_membership) noted))

  dispatch-IsKept :
      (e : EntryPayload raft) (l : raft.LogId) (s : KafStorageState raft)
      → IsKept (facts_of s) (facts_of (dispatch e l s).state)
  unfolding dispatch
  dispatch-IsKept blank l s = kept (facts_of s)
  dispatch-IsKept (membership m) l s = steady-IsKept s _ (apply_membership-IsSteady m l s)
  dispatch-IsKept (normal (admission_membership command)) l s =
      steady-IsKept s _ (apply_admission_membership-IsSteady command l s)
  dispatch-IsKept (normal (admission_genesis genesis)) l s = apply_genesis-IsKept genesis s
  dispatch-IsKept (normal (health_progress p)) l s =
      steady-IsKept s _ (apply_progress-IsSteady p l s)
  dispatch-IsKept (normal (health_update n healthy)) l s =
      steady-IsKept s _
        (either-IsSteady s (is_some s.genesis) _ _ (steady s) (apply_health-IsSteady n healthy s))
  dispatch-IsKept (normal (vip_released n vip generation)) l s = kept (facts_of s)
  dispatch-IsKept (normal (cluster_formed cluster_id f enforced)) l s =
      form_cluster-IsKept cluster_id f enforced s
  dispatch-IsKept (normal enable_failover_semantics_v2) l s = activate_v2-IsKept s
  dispatch-IsKept (normal enable_config_identity_v1) l s = record {
    genesis = λ g h. h;
    epoch = λ e h. h;
    enforced = λ h. refl;
    semantics = λ h. h;
  }

  recompute-IsKept :
      (b : Bool) (s t : KafStorageState raft)
      → IsKept (facts_of s) (facts_of t)
      → IsKept (facts_of s) (facts_of (if b then recompute t else t))
  recompute-IsKept true s t p = subst (IsKept (facts_of s)) (sym (recompute-facts t)) p
  recompute-IsKept false s t p = p

  pub apply_one-IsKept :
      (e : Entry raft) (s : KafStorageState raft) → IsKept (facts_of s) (facts_of (apply_one e s).0)
  unfolding apply_one
  apply_one-IsKept e s =
      let logged : KafStorageState raft = record s { last_applied_log = some e.log_id } in
      let d = dispatch e.payload e.log_id logged in
      recompute-IsKept d.should_recompute s d.state (dispatch-IsKept e.payload e.log_id logged)

  -- Whatever the log holds, once a genesis or an epoch is committed it stays as it is, and neither the v2
  -- semantics nor the enforcing of the configuration's identity is undone.
  pub apply_all-IsKept :
      (log : List (Entry raft)) (s : KafStorageState raft)
      → IsKept (facts_of s) (facts_of (apply_all log s))
  unfolding apply_all
  apply_all-IsKept [] s = kept (facts_of s)
  apply_all-IsKept (e ∷ log) s =
      IsKept-trans _ _ _ (apply_one-IsKept e s) (apply_all-IsKept log (apply_one e s).0)
