-- ===== src/Network/Authorization/Apply.antt =====
-- The authorization of join commands against the state machine that applies them
-- (src/raft/network/authorization.rs, src/raft/store/membership.rs).
use keep_afloat_d.Prelude.{
  ℕ, Bool, true, false, ◌≡◌, refl, sym, Option, none, some, List, [], ◌∷◌, ltb, equal_iff, ok,
  and_then-eq-ok, is_some, arith, Bool-cases, inl, inr,
}
use keep_afloat_d.BTreeSet
use keep_afloat_d.BTreeSet.{BTreeSet}
use keep_afloat_d.Identity.{
  ReplicaId, replica_ord, Genesis-discrete, Voters-discrete, AdmissionDenied, validate_roster,
  JoinPlan, validate_plan,
}
use keep_afloat_d.Store.OpenRaft.{OpenRaft}
use keep_afloat_d.Store.State.{
  KafStorageState, AdmissionCommand, prepare_join, cancel_join, learner_applied, PreparedJoin,
  ok as accepted,
}
use keep_afloat_d.Store.Membership.{
  same_genesis, stable_voters, apply_prepare, apply_cancel, apply_learner,
  apply_admission_membership,
}
use keep_afloat_d.Network.Authorization.{
  Peers, RaftAuthorization, ensure, is_only, is_configured, stable_previous, is_historical,
  is_exact, is_staged, join_plan_data, check_stage, check_cancel, check_learner, check_log,
  check_admission,
}

ensure-eq-ok : (t : Bool) (e : AdmissionDenied) → ensure t e ≡ ok tt → t ≡ true
ensure-eq-ok t e h = ground arith

is_only-eq :
    (configs : List (BTreeSet ReplicaId)) (voters : BTreeSet ReplicaId)
    → is_only configs voters ≡ true
    → configs ≡ voters ∷ []
is_only-eq [] voters h = cc
is_only-eq (c ∷ []) voters h = let e = (equal_iff Voters-discrete c voters).0 h in cc
is_only-eq (c ∷ d ∷ more) voters h = cc

-- `Membership::voter_ids` are the voters of the configuration, where there is one only.
abbrev pub VotersAgree : OpenRaft → Type 0
VotersAgree raft =
    (m : raft.Membership) (voters : BTreeSet ReplicaId)
    → raft.joint_config m ≡ voters ∷ []
    → BTreeSet.collect (raft.voter_ids m) ≡ voters

-- The view is that of this state.
pub record IsViewOf {raft : OpenRaft} (a : RaftAuthorization raft) (state : KafStorageState raft)
    : Type 0 where
  pub pending : a.prepared_join ≡ state.prepared_join
  pub membership : a.committed_membership ≡ state.last_membership
  pub genesis : state.genesis ≡ some a.session.context.genesis

module _ (raft : OpenRaft) where
  stable_previous-voters :
      (m : raft.Membership) (plan : JoinPlan)
      → VotersAgree raft
      → stable_previous raft m plan ≡ true
      → stable_voters raft m plan.previous_voters ≡ true
  stable_previous-voters m plan agree h =
      let e = is_only-eq (raft.joint_config m) plan.previous_voters h in
      let voters = agree m plan.previous_voters e in
      rw (e, voters) ((equal_iff Voters-discrete plan.previous_voters plan.previous_voters).1 refl)

module _ {raft : OpenRaft} where
  join_plan_data-eq-ok :
      (a : RaftAuthorization raft) (plan : JoinPlan)
      → join_plan_data a plan ≡ ok tt
      → (validate_plan plan ≡ ok tt) × (plan.genesis ≡ a.session.context.genesis)
  unfolding join_plan_data
  join_plan_data-eq-ok a plan h =
      let (u, valid, h1) = and_then-eq-ok (validate_plan plan) _ h in
      let (u', roster, h2) =
        and_then-eq-ok (validate_roster plan.genesis a.configured_physical_ids) _ h1 in
      let (u'', g, h3) = and_then-eq-ok _ _ h2 in
      (
        valid,
        (equal_iff Genesis-discrete plan.genesis a.session.context.genesis).0 (ensure-eq-ok _ _ g),
      )

  view-genesis :
      (a : RaftAuthorization raft) (state : KafStorageState raft) (plan : JoinPlan)
      → IsViewOf a state
      → join_plan_data a plan ≡ ok tt
      → same_genesis state.genesis plan.genesis ≡ true
  view-genesis a state plan v h =
      let g = (join_plan_data-eq-ok a plan h).1 in
      rw (v.genesis, g)
        ((equal_iff Genesis-discrete a.session.context.genesis a.session.context.genesis).1 refl)

module _ {raft : OpenRaft} (peers : Peers raft) (agree : VotersAgree raft) where
  prepare-accepted :
      (a : RaftAuthorization raft) (plan : JoinPlan) (log : raft.LogId)
      (state : KafStorageState raft) (p : Option (PreparedJoin raft))
      → a.committed_membership ≡ state.last_membership
      → check_stage peers a plan false p ≡ ok tt
      → (apply_prepare p plan log state).1 ≡ accepted
  prepare-accepted a plan log state none same_membership h =
      let t = ensure-eq-ok _ _ h in
      let stable : stable_previous raft a.committed_membership.membership plan ≡ true =
        ground arith in
      let voters =
        stable_previous-voters raft a.committed_membership.membership plan agree stable in
      rw (sym same_membership, voters) refl
  prepare-accepted a plan log state (some pending) same_membership h =
      let t = ensure-eq-ok _ _ h in rw t refl

  cancel-accepted :
      (a : RaftAuthorization raft) (plan : JoinPlan) (prepared log : raft.LogId)
      (state : KafStorageState raft) (p : Option (PreparedJoin raft))
      → a.committed_membership ≡ state.last_membership
      → same_genesis state.genesis plan.genesis ≡ true
      → ltb (raft.index prepared) (raft.index log) ≡ true
      → check_cancel peers a plan prepared false p ≡ ok tt
      → (apply_cancel p plan prepared log state).1 ≡ accepted
  cancel-accepted a plan prepared log state none same_membership g later h = cc
  cancel-accepted a plan prepared log state (some pending) same_membership g later h =
      let t = ensure-eq-ok _ _ h in
      let stable : stable_previous raft a.committed_membership.membership plan ≡ true =
        ground arith in
      let voters =
        stable_previous-voters raft a.committed_membership.membership plan agree stable in
      rw (sym same_membership, voters, g) (ground arith)

  learner-staged :
      (a : RaftAuthorization raft) (consumer : ReplicaId) (nonce : ℕ) (prepared log : raft.LogId)
      (state : KafStorageState raft) (pending : PreparedJoin raft)
      → a.committed_membership ≡ state.last_membership
      → is_exact raft pending consumer nonce prepared ≡ true
      → same_genesis state.genesis pending.plan.genesis ≡ true
      → ltb (raft.index prepared) (raft.index log) ≡ true
      → is_staged raft a pending consumer ≡ true
      → (apply_learner (some pending) consumer nonce prepared log state).1 ≡ accepted
  learner-staged a consumer nonce prepared log state pending same_membership exact g later stage =
      let m = a.committed_membership.membership in
      elim (Bool-cases (is_some pending.learner_applied)) [
        | inl applied ↦ rw (g, applied) (ground arith)
        | inr waiting ↦
            let stable : stable_previous raft m pending.plan ≡ true = ground arith in
            let voters = stable_previous-voters raft m pending.plan agree stable in
            rw (sym same_membership, voters, g, waiting) (ground arith)
      ]

  learner-accepted :
      (a : RaftAuthorization raft) (consumer : ReplicaId) (nonce : ℕ) (prepared log : raft.LogId)
      (state : KafStorageState raft) (p : Option (PreparedJoin raft))
      → IsViewOf a state
      → ltb (raft.index prepared) (raft.index log) ≡ true
      → check_learner peers a consumer nonce prepared false p ≡ ok tt
      → (apply_learner p consumer nonce prepared log state).1 ≡ accepted
  learner-accepted a consumer nonce prepared log state none v later h = cc
  learner-accepted a consumer nonce prepared log state (some pending) v later h =
      let (u, plan, h1) = and_then-eq-ok (join_plan_data a pending.plan) _ h in
      let (u', exact, h2) =
        and_then-eq-ok
          (ensure (is_exact raft pending consumer nonce prepared)
            "learner acknowledgement differs from committed preparation")
          _ h1 in
      let t = ensure-eq-ok (is_exact raft pending consumer nonce prepared) _ exact in
      let stage = ensure-eq-ok (is_staged raft a pending consumer) _ h2 in
      let g = view-genesis a state pending.plan v plan in
      learner-staged a consumer nonce prepared log state pending v.membership t g later stage

  -- The view is that of the state, and the entry lies beyond the applied log. Then a join command that the
  -- network authorizes is accepted by the state machine in this state, whichever of the three it is. Where a
  -- membership has one configuration, the engine's `voter_ids` are taken to be its voters.
  pub check_admission-apply_admission_membership :
      (a : RaftAuthorization raft) (command : AdmissionCommand raft) (log : raft.LogId)
      (state : KafStorageState raft)
      → IsViewOf a state
      → is_historical raft a.last_applied log ≡ false
      → check_admission peers a command log ≡ ok tt
      → (apply_admission_membership command log state).1 ≡ accepted
  unfolding check_admission apply_admission_membership
  check_admission-apply_admission_membership a (prepare_join plan) log state v fresh h =
      let (u, planned, h1) = and_then-eq-ok (join_plan_data a plan) _ h in
      let stage = rw (fresh, v.pending) at h1 in
      let valid = (join_plan_data-eq-ok a plan planned).0 in
      let g = view-genesis a state plan v planned in
      rw (valid, g) (prepare-accepted a plan log state state.prepared_join v.membership stage)
  check_admission-apply_admission_membership a (cancel_join plan prepared) log state v fresh h =
      let (u, planned, h1) = and_then-eq-ok (join_plan_data a plan) _ h in
      let (u', named, h2) = and_then-eq-ok (check_log peers a (some prepared)) _ h1 in
      let (u'', later, h3) =
        and_then-eq-ok
          (ensure (ltb (raft.index prepared) (raft.index log)) "cancellation precedes preparation")
          _ h2 in
      let stage = rw (fresh, v.pending) at h3 in
      cancel-accepted a plan prepared log state state.prepared_join v.membership
        (view-genesis a state plan v planned) (ensure-eq-ok _ _ later) stage
  check_admission-apply_admission_membership a (learner_applied consumer nonce prepared) log state v
        fresh h =
      let (u, known, h1) =
        and_then-eq-ok (ensure (is_configured a consumer) "learner names an unauthorized replica") _
          h in
      let (u', named, h2) = and_then-eq-ok (check_log peers a (some prepared)) _ h1 in
      let (u'', later, h3) =
        and_then-eq-ok
          (ensure (ltb (raft.index prepared) (raft.index log))
            "learner acknowledgement precedes preparation")
          _ h2 in
      let stage = rw (fresh, v.pending) at h3 in
      learner-accepted a consumer nonce prepared log state state.prepared_join v
        (ensure-eq-ok _ _ later) stage
