-- ===== src/Store/Machine/Frame.antt =====
-- What the loops of the state machine leave alone.
use keep_afloat_d.Prelude.{
  ℕ, Bool, true, false, Option, List, [], ◌∷◌, ◌≡◌, refl, ◌∙◌, String, not, Bool-cases, inl, inr,
  if◌then◌else◌,
}
use keep_afloat_d.BTreeMap.{BTreeMap}
use keep_afloat_d.Addr.{IpAddr, VipAddr}
use keep_afloat_d.Identity.{Genesis}
use keep_afloat_d.VipLogic.Reconcile.{VipAssignment}
use keep_afloat_d.Store.OpenRaft.{OpenRaft}
use keep_afloat_d.Store.State.{KafStorageState, FailoverSemantics}
use keep_afloat_d.Store.Machine.{
  is_alive, failed_owners, mark_failed, recover_one, recover_pending, complete_recovery,
  update_v2_failback_tracking,
}

-- The VIP maps and the local configuration.
pub record Vips : Type 0 where
  pub vip_assignments : BTreeMap IpAddr VipAssignment
  pub vip_generation : BTreeMap IpAddr ℕ
  pub vip_last_holder : BTreeMap IpAddr ℕ
  pub vip_list : List (VipAddr × String)
  pub failback : Bool

-- The facts that no entry takes back.
pub record Facts : Type 0 where
  pub genesis : Option Genesis
  pub cluster_epoch : Option ℕ
  pub config_identity_enforced : Bool
  pub failover_semantics : FailoverSemantics

-- The probe rounds.
pub record Rounds : Type 0 where
  pub node_probe_ticks : BTreeMap ℕ ℕ
  pub latest_probe_tick : ℕ

module _ {raft : OpenRaft} where
  abbrev pub vips_of : KafStorageState raft → Vips
  vips_of s = record {
    vip_assignments = s.vip_assignments;
    vip_generation = s.vip_generation;
    vip_last_holder = s.vip_last_holder;
    vip_list = s.vip_list;
    failback = s.failback;
  }

  abbrev pub facts_of : KafStorageState raft → Facts
  facts_of s = record {
    genesis = s.genesis;
    cluster_epoch = s.cluster_epoch;
    config_identity_enforced = s.config_identity_enforced;
    failover_semantics = s.failover_semantics;
  }

  abbrev pub rounds_of : KafStorageState raft → Rounds
  rounds_of s = record {
    node_probe_ticks = s.node_probe_ticks;
    latest_probe_tick = s.latest_probe_tick;
  }

  -- Two states agree on all three.
  pub record Agree (s t : KafStorageState raft) : Type 0 where
    pub vips : vips_of t ≡ vips_of s
    pub facts : facts_of t ≡ facts_of s
    pub rounds : rounds_of t ≡ rounds_of s

  Agree-refl : (s : KafStorageState raft) → Agree s s
  Agree-refl s = record { vips = refl; facts = refl; rounds = refl }

  Agree-trans : (s t u : KafStorageState raft) → Agree s t → Agree t u → Agree s u
  Agree-trans s t u p q = record {
    vips = q.vips ∙ p.vips;
    facts = q.facts ∙ p.facts;
    rounds = q.rounds ∙ p.rounds;
  }

  mark_failed-Agree : (failed : List ℕ) (s : KafStorageState raft) → Agree s (mark_failed failed s)
  unfolding mark_failed
  mark_failed-Agree [] s = Agree-refl s
  mark_failed-Agree (n ∷ failed) s =
      Agree-trans s _ _ (record { vips = refl; facts = refl; rounds = refl })
        (mark_failed-Agree failed _)

  complete_recovery-Agree :
      (completed : List ℕ) (s : KafStorageState raft) → Agree s (complete_recovery completed s)
  unfolding complete_recovery
  complete_recovery-Agree [] s = Agree-refl s
  complete_recovery-Agree (n ∷ completed) s =
      Agree-trans s _ _ (record { vips = refl; facts = refl; rounds = refl })
        (complete_recovery-Agree completed _)

  recover_one-Agree :
      (n : ℕ) (acc : KafStorageState raft × List ℕ) → Agree acc.0 (recover_one n acc).0
  unfolding recover_one
  recover_one-Agree n (s, completed) = elim (Bool-cases (is_alive s n)) [
    | inl e ↦ rw e (record { vips = refl; facts = refl; rounds = refl })
    | inr e ↦ rw e (record { vips = refl; facts = refl; rounds = refl })
  ]

  recover_pending-Agree :
      (pending : List ℕ) (acc : KafStorageState raft × List ℕ)
      → Agree acc.0 (recover_pending pending acc).0
  unfolding recover_pending
  recover_pending-Agree [] acc = Agree-refl acc.0
  recover_pending-Agree (n ∷ pending) acc =
      Agree-trans acc.0 _ _ (recover_one-Agree n acc)
        (recover_pending-Agree pending (recover_one n acc))

  tracked-Agree :
      (s : KafStorageState raft) (b : Bool) (x y : KafStorageState raft)
      → Agree s x
      → Agree s y
      → Agree s (if b then x else y)
  tracked-Agree s true x y p q = p
  tracked-Agree s false x y p q = q

  -- The recovery history is apart from all of it.
  pub update_v2_failback_tracking-Agree :
      (s : KafStorageState raft) → Agree s (update_v2_failback_tracking s)
  unfolding update_v2_failback_tracking
  update_v2_failback_tracking-Agree s =
      let cleared : KafStorageState raft = record s { node_nopreempt = [] } in
      let marked = mark_failed (failed_owners s) cleared in
      let start : KafStorageState raft × List ℕ = (marked, []) in
      let recovered = recover_pending marked.node_recovery_pending start in
      tracked-Agree s (not s.failback) _ (complete_recovery recovered.1 recovered.0)
        (record { vips = refl; facts = refl; rounds = refl })
        (Agree-trans s cleared _ (record { vips = refl; facts = refl; rounds = refl })
          (Agree-trans cleared marked _ (mark_failed-Agree (failed_owners s) cleared) (
            Agree-trans marked recovered.0 _
              (recover_pending-Agree marked.node_recovery_pending start)
              (complete_recovery-Agree recovered.1 recovered.0))))

  -- What `recompute` starts from.
  pub followed-Agree :
      (b : Bool) (s : KafStorageState raft)
      → Agree s (if b then update_v2_failback_tracking s else s)
  followed-Agree b s = tracked-Agree s b _ s (update_v2_failback_tracking-Agree s) (Agree-refl s)
