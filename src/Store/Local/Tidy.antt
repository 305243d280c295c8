-- ===== src/Store/Local/Tidy.antt =====
-- What the recovery history of a node never holds (src/raft/store/state_machine.rs): nothing that its own
-- `failback`, or the semantics in force, has no use for.
pub mod Apply
use keep_afloat_d.Prelude.{
  ℕ, ◌≡◌, refl, ◌∙◌, ap, sym, subst, Bool, true, false, not, ◌&&◌, ◌||◌, Option, none, some, List,
  [], ◌∷◌, ◌++◌, arith, nat_ord, if◌then◌else◌, Bool-cases, inl, inr, is_some, unwrap_or, String,
}
use keep_afloat_d.BTreeMap
use keep_afloat_d.BTreeMap.{BTreeMap}
use keep_afloat_d.BTreeSet
use keep_afloat_d.BTreeSet.{BTreeSet}
use keep_afloat_d.Addr.{VipAddr}
use keep_afloat_d.Identity.{ReplicaId, Genesis, HealthProgress, replica_ord}
use keep_afloat_d.VipLogic.Eligibility.{next_probe_tick}
use keep_afloat_d.Store.OpenRaft.{OpenRaft}
use keep_afloat_d.Store.State.{KafStorageState, FailoverSemantics, legacy, v2, is_v2, new}
use keep_afloat_d.Store.Machine.{
  is_alive, failed_owners, mark_failed, recover_one, recover_pending, complete_recovery,
  update_v2_failback_tracking, activate_v2, track_legacy, apply_health,
}

module _ {raft : OpenRaft} where
  pub record IsTidy (s : KafStorageState raft) : Type 0 where
    pub blocked : (is_v2 s.failover_semantics || s.failback) ≡ true → s.node_failback_blocked ≡ []
    pub nopreempt : (not (is_v2 s.failover_semantics) || s.failback) ≡ true → s.node_nopreempt ≡ []
    pub pending :
        (not (is_v2 s.failover_semantics) || not s.failback) ≡ true → s.node_recovery_pending ≡ []
    pub ticks : s.failback ≡ false → s.node_recovery_tick ≡ []

  pub new-IsTidy :
      (vip_list : List (VipAddr × String)) (stale : ℕ) (failback : Bool) (delay : ℕ)
      → IsTidy (new vip_list stale failback delay)
  unfolding new
  new-IsTidy vip_list stale failback delay = record {
    blocked = λ e. refl;
    nopreempt = λ e. refl;
    pending = λ e. refl;
    ticks = λ e. refl;
  }

  pub activate_v2-IsTidy : (s : KafStorageState raft) → IsTidy s → IsTidy (activate_v2 s)
  unfolding activate_v2
  activate_v2-IsTidy s t = elim (Bool-cases (is_v2 s.failover_semantics)) [
    | inl e ↦ rw e t
    | inr e ↦ elim (Bool-cases s.failback) [
      | inl f ↦
          let none_kept = t.nopreempt in
          rw (e, f)
            (record {
              blocked = λ h. refl;
              nopreempt = λ h. none_kept (ground arith);
              pending = λ h. ground arith;
              ticks = λ h. ground arith;
            })
      | inr f ↦
          let none_pending = t.pending in
          rw (e, f)
            (record {
              blocked = λ h. refl;
              nopreempt = λ h. ground arith;
              pending = λ h. none_pending (ground arith);
              ticks = λ h. refl;
            })
    ]
  ]

  -- What the loops of the tracking leave alone.
  record SameTracking (s t : KafStorageState raft) : Type 0 where
    semantics : t.failover_semantics ≡ s.failover_semantics
    failback : t.failback ≡ s.failback
    blocked : t.node_failback_blocked ≡ s.node_failback_blocked
    nopreempt : t.node_nopreempt ≡ s.node_nopreempt

  SameTracking-trans :
      (s t u : KafStorageState raft) → SameTracking s t → SameTracking t u → SameTracking s u
  SameTracking-trans s t u p q = record {
    semantics = q.semantics ∙ p.semantics;
    failback = q.failback ∙ p.failback;
    blocked = q.blocked ∙ p.blocked;
    nopreempt = q.nopreempt ∙ p.nopreempt;
  }

  SameTracking-refl : (s : KafStorageState raft) → SameTracking s s
  SameTracking-refl s = record {
    semantics = refl;
    failback = refl;
    blocked = refl;
    nopreempt = refl;
  }

  mark_failed-SameTracking :
      (failed : List ℕ) (s : KafStorageState raft) → SameTracking s (mark_failed failed s)
  unfolding mark_failed
  mark_failed-SameTracking [] s = SameTracking-refl s
  mark_failed-SameTracking (n ∷ failed) s =
      SameTracking-trans s _ _
        (record { semantics = refl; failback = refl; blocked = refl; nopreempt = refl })
        (mark_failed-SameTracking failed _)

  complete_recovery-SameTracking :
      (completed : List ℕ) (s : KafStorageState raft)
      → SameTracking s (complete_recovery completed s)
  unfolding complete_recovery
  complete_recovery-SameTracking [] s = SameTracking-refl s
  complete_recovery-SameTracking (n ∷ completed) s =
      SameTracking-trans s _ _
        (record { semantics = refl; failback = refl; blocked = refl; nopreempt = refl })
        (complete_recovery-SameTracking completed _)

  recover_one-SameTracking :
      (n : ℕ) (acc : KafStorageState raft × List ℕ) → SameTracking acc.0 (recover_one n acc).0
  unfolding recover_one
  recover_one-SameTracking n (s, completed) = elim (Bool-cases (is_alive s n)) [
    | inl e ↦ rw e (record { semantics = refl; failback = refl; blocked = refl; nopreempt = refl })
    | inr e ↦ rw e (record { semantics = refl; failback = refl; blocked = refl; nopreempt = refl })
  ]

  recover_pending-SameTracking :
      (pending : List ℕ) (acc : KafStorageState raft × List ℕ)
      → SameTracking acc.0 (recover_pending pending acc).0
  unfolding recover_pending
  recover_pending-SameTracking [] acc = SameTracking-refl acc.0
  recover_pending-SameTracking (n ∷ pending) acc =
      SameTracking-trans acc.0 _ _ (recover_one-SameTracking n acc)
        (recover_pending-SameTracking pending (recover_one n acc))

  pub either-IsTidy :
      (b : Bool) (s t : KafStorageState raft)
      → (b ≡ true → IsTidy s)
      → (b ≡ false → IsTidy t)
      → IsTidy (if b then s else t)
  either-IsTidy true s t p q = p refl
  either-IsTidy false s t p q = q refl

  pub update_v2_failback_tracking-IsTidy :
      (s : KafStorageState raft)
      → is_v2 s.failover_semantics ≡ true
      → IsTidy s
      → IsTidy (update_v2_failback_tracking s)
  unfolding update_v2_failback_tracking
  update_v2_failback_tracking-IsTidy s e t =
      let cleared : KafStorageState raft = record s { node_nopreempt = [] } in
      let marked = mark_failed (failed_owners s) cleared in
      let start : KafStorageState raft × List ℕ = (marked, []) in
      let recovered = recover_pending marked.node_recovery_pending start in
      let done = complete_recovery recovered.1 recovered.0 in
      let same : SameTracking cleared done =
        SameTracking-trans cleared marked done (mark_failed-SameTracking (failed_owners s) cleared)
          (SameTracking-trans marked recovered.0 done
            (recover_pending-SameTracking marked.node_recovery_pending start)
            (complete_recovery-SameTracking recovered.1 recovered.0)) in
      either-IsTidy (not s.failback) _ done
        (λ off. record {
          blocked = t.blocked;
          nopreempt = λ h. ground arith;
          pending = λ h. refl;
          ticks = λ h. refl;
        })
        (λ on. record {
          blocked = λ h. same.blocked ∙ t.blocked (ground arith);
          nopreempt = λ h. same.nopreempt;
          pending = λ h. ground (arith, same.semantics, same.failback);
          ticks = λ h. ground (arith, same.failback);
        })

  pub track_legacy-IsTidy :
      (f : FailoverSemantics) (healthy : Bool) (previous : Option Bool) (n tick : ℕ)
      (s : KafStorageState raft)
      → s.failover_semantics ≡ f
      → IsTidy s
      → IsTidy (track_legacy f healthy previous n tick s)
  track_legacy-IsTidy v2 healthy previous n tick s e t = t
  track_legacy-IsTidy legacy true previous n tick s e t =
      either-IsTidy (s.failback && not (unwrap_or previous true)) _ s
        (λ on. record {
          blocked = t.blocked;
          nopreempt = t.nopreempt;
          pending = t.pending;
          ticks = λ h. ground arith;
        })
        (λ off. t)
  track_legacy-IsTidy legacy false previous n tick s e t = record {
    blocked = λ h. ground (arith, t.blocked);
    nopreempt = t.nopreempt;
    pending = t.pending;
    ticks = λ h. rw (t.ticks h) (unfold BTreeMap.remove in refl);
  }

  pub apply_health-IsTidy :
      (n : ℕ) (healthy : Bool) (s : KafStorageState raft)
      → IsTidy s
      → IsTidy (apply_health n healthy s)
  unfolding apply_health
  apply_health-IsTidy n healthy s t =
      let tick = next_probe_tick (BTreeMap.get s.node_probe_ticks n) s.latest_probe_tick in
      track_legacy-IsTidy s.failover_semantics healthy (BTreeMap.get s.node_health n) n tick
        (record s {
          node_health = BTreeMap.insert s.node_health n healthy;
          node_probe_ticks = BTreeMap.insert s.node_probe_ticks n tick;
          latest_probe_tick = tick;
        })
        refl
        (record {
          blocked = t.blocked;
          nopreempt = t.nopreempt;
          pending = t.pending;
          ticks = t.ticks;
        })
