-- ===== src/Admission/Controller/Reserve.antt =====
-- `AdmissionController::reserve` of src/raft/admission/controller.rs: what an issuer checks before it
-- reserves its physical member for a genesis.
pub mod Hold
use keep_afloat_d.Prelude.{
  ℕ, Bool, true, false, not, ◌&&◌, ◌||◌, Option, none, some, List, leb, ltb, max, ◌==◌,
  if◌then◌else◌, same, equal, nat_ord, is_some, Result, ok, err, ok_or, and_then,
}
use keep_afloat_d.BTreeMap
use keep_afloat_d.BTreeSet
use keep_afloat_d.Identity.{
  ReplicaId, replica_ord, Genesis, Genesis-discrete, Voters-discrete, validate_plan,
  AdmissionDenied, AdmissionSession, check_session,
}
use keep_afloat_d.Store.OpenRaft.{OpenRaft}
use keep_afloat_d.Store.State.{KafStorageState, PreparedJoin, AppliedHealthProgress}
use keep_afloat_d.Store.Membership.{is_log_id, same_genesis, stable_voters}
use keep_afloat_d.Admission.Record.{
  Crypto, JoinBinding, from_prepared, SignedAdmission, sign, verify,
}
use keep_afloat_d.Admission.Controller.{
  AdmissionMode, cold, join, renew, AdmissionRequest, Reservation, AdmissionController,
  JoinBinding-discrete, validate_genesis,
}

abbrev pub differs_genesis : Option Genesis → Genesis → Bool
differs_genesis none genesis = false
differs_genesis (some g) genesis = not (equal Genesis-discrete g genesis)

-- Whether the session is this boot's, for this genesis.
abbrev pub is_session_of : AdmissionSession → ReplicaId → Genesis → Bool
is_session_of session replica genesis =
    same session.context.local_replica replica
    && equal Genesis-discrete session.context.genesis genesis

-- Whether the member is reserved for another genesis.
abbrev pub is_reserved_for_other : Option Reservation → ℕ → Genesis → Bool
is_reserved_for_other none now genesis = false
is_reserved_for_other (some current) now genesis =
    ltb now current.until && not (equal Genesis-discrete current.genesis genesis)

-- The deadline of a reservation that extends one for the same genesis.
abbrev pub extended : Option Reservation → Genesis → ℕ → ℕ
extended none genesis until = until
extended (some r) genesis until =
    if equal Genesis-discrete r.genesis genesis then max r.until until else until

abbrev pub is_progress : (raft : OpenRaft) → Option raft.LogId → raft.LogId → Bool
is_progress raft none log_id = false
is_progress raft (some progress) log_id = is_log_id raft log_id progress

module _ {raft : OpenRaft} where
  -- The `Cold` arm on the state that the issuer has, with its session.
  abbrev pub check_cohort :
      ℕ
      → AdmissionController
      → Genesis
      → KafStorageState raft
      → Option AdmissionSession
      → Result (Unit {0}) AdmissionDenied
  check_cohort now controller genesis state none =
      if is_some state.genesis
      then err "stored history alone cannot authorize cold consent"
      else ok tt
  check_cohort now controller genesis state (some session) =
      and_then (check_session now session) (λ _.
        if not (is_session_of session controller.replica genesis)
          || differs_genesis state.genesis genesis
        then err "cold consent differs from active original cohort"
        else ok tt)

  abbrev pub check_stored :
      ℕ
      → AdmissionController
      → Genesis
      → Option (KafStorageState raft)
      → Result (Unit {0}) AdmissionDenied
  check_stored now controller genesis none = ok tt
  check_stored now controller genesis (some state) =
      check_cohort now controller genesis state state.admission

  unfoldable pub check_cold :
      ℕ
      → AdmissionController
      → AdmissionRequest raft
      → Option (KafStorageState raft)
      → Result (Unit {0}) AdmissionDenied
  unfolding check_session
  check_cold now controller request state =
      if not (BTreeSet.contains request.genesis.voters request.consumer)
        || not (BTreeSet.contains request.genesis.voters controller.replica)
      then err "cold grant requires exact proposed boot consent"
      else check_stored now controller request.genesis state

  abbrev pub is_binding_of : Crypto → Option (JoinBinding raft) → PreparedJoin raft → Bool
  is_binding_of crypto none operation = false
  is_binding_of crypto (some bound) operation =
      equal (JoinBinding-discrete raft) bound (from_prepared crypto operation)

  -- The `Join` arm.
  unfoldable pub check_join :
      Crypto
      → ℕ
      → AdmissionController
      → AdmissionRequest raft
      → Option (JoinBinding raft)
      → Option (KafStorageState raft)
      → Result (Unit {0}) AdmissionDenied
  unfolding check_session validate_plan
  check_join crypto now controller request prepared stored =
      and_then (ok_or stored "join requires locally applied committed preparation") (λ state.
        and_then (ok_or state.admission "issuer has no continuing authority") (λ session.
          and_then (check_session now session) (λ _.
            and_then (ok_or state.prepared_join "join preparation is not applied") (λ operation.
              and_then (validate_plan operation.plan) (λ _.
                if not (is_session_of session controller.replica request.genesis)
                  || not (same_genesis state.genesis request.genesis)
                  || not (is_binding_of crypto prepared operation)
                  || not (same operation.plan.consumer request.consumer)
                  || not (equal Genesis-discrete operation.plan.genesis request.genesis)
                  || not (
                      stable_voters raft state.last_membership.membership
                        operation.plan.previous_voters)
                then err "join does not match continuing committed authority"
                else ok tt)))))

  -- The `Renew` arm.
  unfoldable pub check_renew :
      ℕ
      → AdmissionController
      → AdmissionRequest raft
      → Option raft.LogId
      → Option (KafStorageState raft)
      → Result (Unit {0}) AdmissionDenied
  unfolding check_session
  check_renew now controller request progress stored =
      and_then (ok_or stored "renewal requires locally applied progress") (λ state.
        and_then (ok_or state.admission "issuer has no continuing authority") (λ session.
          and_then (check_session now session) (λ _.
            and_then
              (ok_or (BTreeMap.get state.applied_progress request.consumer.physical_id)
                "consumer progress has not been applied")
              (λ applied.
                if not (is_session_of session controller.replica request.genesis)
                  || not (same_genesis state.genesis request.genesis)
                  || not (is_progress raft progress applied.log_id)
                  || not (same applied.request.replica request.consumer)
                  || not (equal Genesis-discrete applied.request.genesis request.genesis)
                  || not (applied.request.request_nonce == request.request_nonce)
                then err "renewal is not this consumer's fresh committed progress"
                else ok tt))))

  abbrev pub check_mode :
      Crypto
      → ℕ
      → AdmissionController
      → AdmissionRequest raft
      → Option (KafStorageState raft)
      → AdmissionMode raft
      → Result (Unit {0}) AdmissionDenied
  check_mode crypto now controller request state cold = check_cold now controller request state
  check_mode crypto now controller request state (join prepared) =
      check_join crypto now controller request prepared state
  check_mode crypto now controller request state (renew progress) =
      check_renew now controller request progress state

  -- What `reserve` checks before it changes anything.
  unfoldable pub check_request :
      Crypto
      → (ℕ → AdmissionRequest raft → Option (List ℕ))
      → ℕ
      → ℕ
      → SignedAdmission (AdmissionRequest raft)
      → ℕ
      → Option (KafStorageState raft)
      → AdmissionController
      → Result (Unit {0}) AdmissionDenied
  unfolding verify validate_genesis check_cold check_join check_renew
  check_request crypto encode now checked signed binding state controller =
      let request = signed.payload in
      and_then
        (verify crypto encode controller.cluster_secret signed 10 request.consumer
          controller.replica binding)
        (λ _. and_then (validate_genesis controller request.genesis) (λ _.
          if not (BTreeSet.contains controller.configured request.consumer.physical_id)
          then err "admission consumer is not configured"
          else if ltb now controller.quarantine_until
          then err "restart quarantine has not elapsed"
          else if is_reserved_for_other controller.reservation now request.genesis
          then err "physical member is reserved for another genesis"
          else check_mode crypto checked controller request state request.mode))

  -- `reserve` after its checks, from the deadline of a new reservation.
  abbrev pub reserve_until :
      Crypto
      → (ℕ → AdmissionRequest raft → Option (List ℕ))
      → ℕ
      → AdmissionRequest raft
      → ℕ
      → AdmissionController
      → Result ℕ AdmissionDenied
      → AdmissionController × Result (SignedAdmission (AdmissionRequest raft)) AdmissionDenied
  reserve_until crypto encode now request binding controller (err e) = (controller, err e)
  reserve_until crypto encode now request binding controller (ok until) =
      if leb until now then (controller, err "reservation deadline is not in the future") else (
        record controller {
          reservation = some (record {
            genesis = request.genesis;
            until = extended controller.reservation request.genesis until;
          });
        },
        sign crypto encode controller.cluster_secret 11 controller.replica request.consumer binding
            request,
      )

  -- `AdmissionController::reserve`: the controller after it, and the answer. The session is checked at
  -- the time `checked`, all else is measured from `now`.
  unfoldable pub reserve :
      Crypto
      → (ℕ → AdmissionRequest raft → Option (List ℕ))
      → ℕ
      → ℕ
      → SignedAdmission (AdmissionRequest raft)
      → ℕ
      → Option (KafStorageState raft)
      → AdmissionController
      → AdmissionController × Result (SignedAdmission (AdmissionRequest raft)) AdmissionDenied
  unfolding check_request sign
  reserve crypto encode now checked signed binding state controller =
      elim (check_request crypto encode now checked signed binding state controller) [
        | err e ↦ (controller, err e)
        | ok _ ↦
            reserve_until crypto encode now signed.payload binding controller
              (controller.timing.reservation_deadline now)
      ]
