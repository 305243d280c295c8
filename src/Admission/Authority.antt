-- ===== src/Admission/Authority.antt =====
-- `RuntimeAuthority` of src/runtime_permission/admission.rs: the permission of one boot, bound to what a
-- quorum has granted. A call takes the times that it reads.
pub mod Accept
use keep_afloat_d.Prelude.{
  ℕ, Bool, true, false, not, ◌&&◌, ◌||◌, Option, none, some, ltb, leb, ◌==◌, same, if◌then◌else◌,
  equal, Result, ok, err, and_then, nat_ord, List, [], ◌∷◌, any, all, length, retain, is_ok,
  is_some, ok_or, String,
}
use keep_afloat_d.BTreeMap
use keep_afloat_d.BTreeSet
use keep_afloat_d.Identity.{
  ReplicaId, replica_ord, AdmissionContext, AdmissionContext-discrete, AdmissionDenied,
  AdmissionFence, AdmissionSession, new_session, check_session, validate_plan, JoinPlan-discrete,
  is_empty,
}
use keep_afloat_d.Store.OpenRaft.{OpenRaft}
use keep_afloat_d.Store.State.{KafStorageState, PreparedJoin, CompletedJoin}
use keep_afloat_d.Store.Membership.{is_log_id, same_genesis, has_replica}
use keep_afloat_d.Admission.Record.{Crypto, genesis_digest, JoinBinding, from_prepared, or_denied}
use keep_afloat_d.Admission.Timing.{
  LeaseTiming, consumer_deadline, reservation_deadline, quarantine_deadline,
}
use keep_afloat_d.Admission.Permission
use keep_afloat_d.Admission.Permission.{
  AuthorityContext, AuthorityContext-discrete, State, quarantined, admit, current, seal_expired,
  mark_promoted, is_context,
}
use keep_afloat_d.Admission.Controller.{
  AdmissionMode, cold, join, renew, AdmissionTiming, JoinBinding-discrete,
}
use keep_afloat_d.Admission.Controller.Complete.{VerifiedAdmission}

pub record RuntimeAuthority (raft : OpenRaft) : Type 0 where
  pub replica : ReplicaId
  pub permission : State raft
  pub join_binding : Option (JoinBinding raft)

-- `impl AdmissionTiming for LeaseTiming`, where `limit` is the last instant.
abbrev pub admission_timing : ℕ → LeaseTiming → AdmissionTiming
admission_timing limit t = record {
  consumer_deadline =
      λ start. or_denied (consumer_deadline limit t start) "admission consumer deadline overflow";
  reservation_deadline = λ start.
      or_denied (reservation_deadline limit t start) "admission reservation deadline overflow";
  quarantine_deadline = λ start.
      or_denied (quarantine_deadline limit t start) "admission quarantine deadline overflow";
}

-- `RuntimeAuthority::identity`
abbrev pub identity : Crypto → ReplicaId → AdmissionContext → AuthorityContext
identity crypto replica context = record {
  boot_nonce = replica.boot_nonce;
  cluster_epoch = context.genesis.epoch;
  genesis_digest = genesis_digest crypto context.genesis;
  admission_generation = 1;
}

module _ {raft : OpenRaft} where
  -- The permission after a transition, where it was accepted.
  abbrev pub with_permission :
      RuntimeAuthority raft → State raft × Bool → RuntimeAuthority raft × Bool
  with_permission a (permission, accepted) = (record a { permission = permission }, accepted)

  abbrev pub bound_to_other : Option (JoinBinding raft) → JoinBinding raft → Bool
  bound_to_other none prepared = false
  bound_to_other (some bound) prepared = not (equal (JoinBinding-discrete raft) bound prepared)

  -- The permission after a join; only a join that is accepted binds the operation.
  abbrev pub with_join :
      JoinBinding raft → RuntimeAuthority raft → State raft × Bool → RuntimeAuthority raft × Bool
  with_join prepared a (permission, true) =
      (record a { permission = permission; join_binding = some prepared }, true)
  with_join prepared a (permission, false) = (record a { permission = permission }, false)

  -- The transition of the permission that the mode asks for.
  unfoldable pub transition :
      ℕ
      → AuthorityContext
      → ℕ
      → AdmissionMode raft
      → RuntimeAuthority raft
      → RuntimeAuthority raft × Result Bool AdmissionDenied
  unfolding admit Permission.join Permission.renew JoinBinding-discrete
  transition now context deadline cold a =
      let (next, accepted) = with_permission a (admit now context deadline a.permission) in
      (next, ok accepted)
  transition now context deadline (join (some prepared)) a =
      if bound_to_other a.join_binding prepared
      then (a, err "join differs from the admitted operation")
      else (let (next, accepted) =
            with_join prepared a
              (Permission.join now context prepared.log_id deadline a.permission) in
          (next, ok accepted))
  transition now context deadline (renew (some progress)) a =
      let (next, accepted) =
        with_permission a (Permission.renew now context deadline a.permission) in
      (next, ok accepted)
  transition now context deadline (join none) a = (a, ok false)
  transition now context deadline (renew none) a = (a, ok false)

abbrev pub same_log : (raft : OpenRaft) → Option raft.LogId → Option raft.LogId → Bool
same_log raft none none = true
same_log raft (some a) (some b) = is_log_id raft a b
same_log raft none (some b) = false
same_log raft (some a) none = false

-- Whether the last applied log does not reach the membership's.
abbrev pub is_behind : (raft : OpenRaft) → Option raft.LogId → raft.LogId → Bool
is_behind raft none membership_log = true
is_behind raft (some last) membership_log =
    ltb (raft.index last) (raft.index membership_log)
    || (raft.index last == raft.index membership_log && not (is_log_id raft last membership_log))

module _ {raft : OpenRaft} (crypto : Crypto) where
  -- `AdmissionFence::check` of the runtime, of what `current` finds.
  abbrev pub check_held :
      RuntimeAuthority raft
      → AdmissionContext
      → Option (AuthorityContext × ℕ)
      → Result ℕ AdmissionDenied
  check_held a expected none = err "runtime has no active admission"
  check_held a expected (some (context, until)) =
      if not (same expected.local_replica a.replica)
        || not (is_context context (identity crypto a.replica expected))
      then err "runtime authority context mismatch"
      else ok until

  unfoldable pub check_authority :
      ℕ → AdmissionContext → RuntimeAuthority raft → Result ℕ AdmissionDenied
  unfolding current genesis_digest AuthorityContext-discrete
  check_authority now expected a = check_held a expected (current now a.permission).1

  -- The runtime, as it is now, as the fence of its sessions. The source's fence shares the runtime and so
  -- sees its later changes; this one is to be taken anew after each.
  abbrev pub fence_of : RuntimeAuthority raft → AdmissionFence
  fence_of a = record {
    local_replica = a.replica;
    check = λ now expected. check_authority now expected a;
  }

  -- The runtime after a check, which seals authority that has expired.
  abbrev pub checked_at : ℕ → RuntimeAuthority raft → RuntimeAuthority raft
  checked_at now a = record a { permission = seal_expired now a.permission }

  -- The end of `accept`, which checks the new session at a time that it reads itself.
  abbrev pub open_session :
      ℕ
      → AdmissionContext
      → RuntimeAuthority raft × Result Bool AdmissionDenied
      → RuntimeAuthority raft × Result AdmissionSession AdmissionDenied
  open_session later expected (a, err e) = (a, err e)
  open_session later expected (a, ok accepted) =
      if not accepted
      then (a, err "runtime cannot accept this admission transition")
      else (checked_at later a, new_session later expected (fence_of a))

  -- `RuntimeAuthority::accept`
  unfoldable pub accept :
      ℕ
      → ℕ
      → VerifiedAdmission raft
      → RuntimeAuthority raft
      → RuntimeAuthority raft × Result AdmissionSession AdmissionDenied
  unfolding transition check_authority new_session seal_expired
  accept now later verified a =
      if not (same verified.context.local_replica a.replica)
      then (a, err "admission result belongs to another runtime")
      else open_session later verified.context (
          transition now (identity crypto a.replica verified.context) verified.deadline
            verified.mode a)

  -- `RuntimeAuthority::new`
  unfoldable pub new_authority :
      ℕ → ReplicaId → LeaseTiming → ℕ → Result (RuntimeAuthority raft) String
  unfolding quarantine_deadline
  new_authority limit replica timing boot =
      and_then (quarantine_deadline limit timing boot) (λ until.
        ok (record { replica = replica; permission = quarantined until; join_binding = none }))

  abbrev pub is_bound : Option (JoinBinding raft) → PreparedJoin raft → Bool
  is_bound none prepared = false
  is_bound (some bound) prepared =
      equal (JoinBinding-discrete raft) bound (from_prepared crypto prepared)

  -- `completed.prepared == *prepared`, field by field.
  abbrev pub same_prepared : PreparedJoin raft → PreparedJoin raft → Bool
  same_prepared a b =
      equal JoinPlan-discrete a.plan b.plan
      && is_log_id raft a.prepared b.prepared
      && same_log raft a.learner_applied b.learner_applied

  abbrev pub is_pending : Option (PreparedJoin raft) → PreparedJoin raft → Bool
  is_pending none prepared = false
  is_pending (some pending) prepared =
      is_log_id raft pending.prepared prepared.prepared
      && equal JoinPlan-discrete pending.plan prepared.plan

  -- The conditions of `mark_promoted` on what is applied locally.
  abbrev pub is_incomplete :
      RuntimeAuthority raft
      → PreparedJoin raft
      → AdmissionContext
      → AdmissionSession
      → raft.LogId
      → raft.LogId
      → CompletedJoin raft
      → KafStorageState raft
      → Bool
  is_incomplete a prepared expected session acknowledged membership_log completed state =
      let configs = raft.joint_config state.last_membership.membership in
      not (equal AdmissionContext-discrete session.context expected)
      || not (same_genesis state.genesis expected.genesis)
      || not (is_bound a.join_binding prepared)
      || not (same_prepared completed.prepared prepared)
      || is_pending state.prepared_join prepared
      || is_empty configs
      || any (λ voters. not (has_replica voters a.replica)) configs
      || not (
          length (
            retain (λ (id : ReplicaId). id.physical_id == a.replica.physical_id)
              (raft.voter_ids state.last_membership.membership))
          == 1)
      || leb (raft.index acknowledged) (raft.index prepared.prepared)
      || leb (raft.index completed.promoted) (raft.index acknowledged)
      || ltb (raft.index membership_log) (raft.index completed.promoted)
      || (raft.index membership_log == raft.index completed.promoted
          && not (is_log_id raft membership_log completed.promoted))
      || is_behind raft state.last_applied_log membership_log

  -- What `mark_promoted` checks before it changes the permission.
  unfoldable pub check_promotion :
      ℕ
      → PreparedJoin raft
      → KafStorageState raft
      → RuntimeAuthority raft
      → Result (Unit {0}) AdmissionDenied
  unfolding check_authority check_session validate_plan
  check_promotion now prepared state a =
      let expected : AdmissionContext = record {
        local_replica = prepared.plan.consumer;
        genesis = prepared.plan.genesis;
      } in
      and_then (validate_plan prepared.plan) (λ _. and_then (check_authority now expected a) (λ _.
        and_then (ok_or state.admission "promotion requires local admission") (λ session.
          and_then (check_session now session) (λ _.
            and_then
              (ok_or prepared.learner_applied
                "promotion requires committed learner acknowledgement")
              (λ acknowledged.
                and_then
                  (ok_or state.last_membership.log_id
                    "promotion requires committed final membership")
                  (λ membership_log.
                    and_then
                      (ok_or (BTreeMap.get state.completed_joins a.replica.physical_id)
                        "promotion requires the committed completion receipt")
                      (λ completed.
                        if is_incomplete a prepared expected session acknowledged membership_log
                          completed state
                        then err "promotion differs from locally applied join completion"
                        else ok tt)))))))

  abbrev pub promoted :
      RuntimeAuthority raft
      → State raft × Bool
      → RuntimeAuthority raft × Result (Unit {0}) AdmissionDenied
  promoted a (permission, true) = (record a { permission = permission }, ok tt)
  promoted a (permission, false) =
      (record a { permission = permission }, err "runtime is not this operation's active learner")

  -- `RuntimeAuthority::mark_promoted`, whose checks read the time `now` and whose change of the
  -- permission reads the time `later`.
  unfoldable pub mark_promoted_by :
      ℕ
      → ℕ
      → PreparedJoin raft
      → KafStorageState raft
      → RuntimeAuthority raft
      → RuntimeAuthority raft × Result (Unit {0}) AdmissionDenied
  unfolding check_promotion mark_promoted seal_expired
  mark_promoted_by now later prepared state a = elim (check_promotion now prepared state a) [
    | err e ↦ (if is_ok (validate_plan prepared.plan) then checked_at now a else a, err e)
    | ok _ ↦ promoted a (
        mark_promoted later
          (identity crypto a.replica
            (record { local_replica = prepared.plan.consumer; genesis = prepared.plan.genesis }))
          prepared.prepared a.permission)
  ]
