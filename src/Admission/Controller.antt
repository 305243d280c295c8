-- ===== src/Admission/Controller.antt =====
-- `AdmissionController` of src/raft/admission/controller.rs: what it keeps, and the rounds that it
-- begins. An operation takes the times and the entropy that it reads.
pub mod Reserve
pub mod Complete
use keep_afloat_d.Prelude.{
  ℕ, Bool, true, false, not, ◌||◌, Option, none, some, List, map, leb, ltb, ◌==◌, if◌then◌else◌,
  same, equal, ℕ_discrete, nat_ord, Result, ok, err, ok_or, and_then, String,
}
use keep_afloat_d.BTreeSet
use keep_afloat_d.BTreeSet.{BTreeSet}
use keep_afloat_d.Identity.{
  ReplicaId, replica_ord, Genesis, Genesis-discrete, ClusterConfigFingerprint, validate_roster,
  validate_plan, AdmissionDenied,
}
use keep_afloat_d.Store.OpenRaft.{OpenRaft}
use keep_afloat_d.Store.State.{PreparedJoin, AppliedHealthProgress}
use keep_afloat_d.Admission.Record.{Crypto, JoinBinding, from_prepared, or_denied}

-- `trait AdmissionTiming`
pub record AdmissionTiming : Type 0 where
  pub consumer_deadline : ℕ → Result ℕ AdmissionDenied
  pub reservation_deadline : ℕ → Result ℕ AdmissionDenied
  pub quarantine_deadline : ℕ → Result ℕ AdmissionDenied

pub data AdmissionMode (raft : OpenRaft) : Type 0 where
  cold : AdmissionMode raft
  join : Option (JoinBinding raft) → AdmissionMode raft
  renew : Option raft.LogId → AdmissionMode raft

pub record AdmissionRequest (raft : OpenRaft) : Type 0 where
  pub consumer : ReplicaId
  pub genesis : Genesis
  pub request_nonce : ℕ
  pub mode : AdmissionMode raft

unfoldable pub ClusterConfigFingerprint-discrete : Discrete ClusterConfigFingerprint
unfolding ℕ_discrete
ClusterConfigFingerprint-discrete = hlevel ℕ_discrete

module _ (raft : OpenRaft) where
  -- The derived equalities.
  unfoldable pub JoinBinding-discrete : Discrete (JoinBinding raft)
  unfolding ℕ_discrete
  JoinBinding-discrete = hlevel (ℕ_discrete, raft.log_id-discrete)

  unfoldable pub AdmissionMode-discrete : Discrete (AdmissionMode raft)
  unfolding JoinBinding-discrete
  AdmissionMode-discrete = hlevel (JoinBinding-discrete, raft.log_id-discrete)

  unfoldable pub AdmissionRequest-discrete : Discrete (AdmissionRequest raft)
  unfolding AdmissionMode-discrete ℕ_discrete Genesis-discrete
  AdmissionRequest-discrete = hlevel (ℕ_discrete, Genesis-discrete, AdmissionMode-discrete)

pub record AdmissionRound (raft : OpenRaft) : Type 0 where
  pub request : AdmissionRequest raft
  pub started : ℕ
  pub deadline : ℕ
  pub completed : Bool
  pub prepared_join : Option (PreparedJoin raft)

pub record Reservation : Type 0 where
  pub genesis : Genesis
  pub until : ℕ

-- What the controller reads of the configuration.
pub record ControllerConfig : Type 0 where
  pub node_id : ℕ
  pub peers : List ℕ
  pub cluster_secret : Option (List ℕ)
  pub fingerprint : Result ClusterConfigFingerprint String

pub record AdmissionController : Type 0 where
  pub cluster_secret : Option (List ℕ)
  pub configured : BTreeSet ℕ
  pub config_identity : ClusterConfigFingerprint
  pub replica : ReplicaId
  pub timing : AdmissionTiming
  pub quarantine_until : ℕ
  pub reservation : Option Reservation

-- `AdmissionController::new`
unfoldable pub new_controller :
    ControllerConfig → ReplicaId → ℕ → AdmissionTiming → Result AdmissionController AdmissionDenied
new_controller cfg replica boot timing =
    let configured = BTreeSet.collect cfg.peers in
    if not (replica.physical_id == cfg.node_id)
      || not (BTreeSet.contains configured replica.physical_id)
    then err "local boot is not the configured member"
    else and_then (or_denied cfg.fingerprint "invalid admission configuration") (λ config_identity.
      and_then (timing.quarantine_deadline boot) (λ quarantine_until. ok (record {
        cluster_secret = cfg.cluster_secret;
        configured = configured;
        config_identity = config_identity;
        replica = replica;
        timing = timing;
        quarantine_until = quarantine_until;
        reservation = none;
      })))

-- `AdmissionController::validate_genesis`
unfoldable pub validate_genesis : AdmissionController → Genesis → Result (Unit {0}) AdmissionDenied
unfolding validate_roster ClusterConfigFingerprint-discrete
validate_genesis controller genesis = and_then (validate_roster genesis controller.configured) (λ _.
    if not (equal ClusterConfigFingerprint-discrete genesis.config controller.config_identity)
    then err "admission configuration mismatch"
    else ok tt)

module _ {raft : OpenRaft} where
  -- Whether a mode already names committed evidence.
  abbrev pub has_evidence : AdmissionMode raft → Bool
  has_evidence cold = false
  has_evidence (join none) = false
  has_evidence (join (some prepared)) = true
  has_evidence (renew none) = false
  has_evidence (renew (some progress)) = true

  -- `AdmissionController::begin`
  unfoldable pub begin :
      ℕ
      → Option ℕ
      → Genesis
      → AdmissionMode raft
      → AdmissionController
      → Result (AdmissionRound raft) AdmissionDenied
  unfolding validate_genesis
  begin now entropy genesis mode controller =
      if has_evidence mode
      then err "new rounds must bind their own committed evidence"
      else and_then (validate_genesis controller genesis) (λ _.
        if ltb now controller.quarantine_until
        then err "restart quarantine has not elapsed"
        else and_then (controller.timing.consumer_deadline now) (λ deadline.
          and_then (ok_or entropy "admission request entropy unavailable") (λ request_nonce.
            ok (record {
              request = record {
                consumer = controller.replica;
                genesis = genesis;
                request_nonce = request_nonce;
                mode = mode;
              };
              started = now;
              deadline = deadline;
              completed = false;
              prepared_join = none;
            }))))

  abbrev pub awaits_progress : AdmissionMode raft → Bool
  awaits_progress (renew none) = true
  awaits_progress (renew (some progress)) = false
  awaits_progress cold = false
  awaits_progress (join prepared) = false

  abbrev pub awaits_preparation : AdmissionMode raft → Bool
  awaits_preparation (join none) = true
  awaits_preparation (join (some prepared)) = false
  awaits_preparation cold = false
  awaits_preparation (renew progress) = false

  -- `AdmissionRound::bind_progress`: the round after it, and the result.
  unfoldable pub bind_progress :
      ℕ
      → AppliedHealthProgress raft
      → AdmissionRound raft
      → AdmissionRound raft × Result (Unit {0}) AdmissionDenied
  bind_progress now applied round =
      if not (awaits_progress round.request.mode)
        || not (same applied.request.replica round.request.consumer)
        || not (equal Genesis-discrete applied.request.genesis round.request.genesis)
        || not (applied.request.request_nonce == round.request.request_nonce)
        || round.completed
        || leb round.deadline now
      then (round, err "progress is not for this outstanding renewal")
      else (
        record round { request = record round.request { mode = renew (some applied.log_id) } },
        ok tt,
      )

  -- `AdmissionRound::bind_prepared` of a valid plan.
  abbrev pub bind_valid :
      Crypto
      → ℕ
      → PreparedJoin raft
      → AdmissionRound raft
      → AdmissionRound raft × Result (Unit {0}) AdmissionDenied
  bind_valid crypto now prepared round =
      if not (awaits_preparation round.request.mode)
        || not (same prepared.plan.consumer round.request.consumer)
        || not (equal Genesis-discrete prepared.plan.genesis round.request.genesis)
        || round.completed
        || leb round.deadline now
      then (round, err "preparation is not for this outstanding join")
      else (
        record round {
          request = record round.request { mode = join (some (from_prepared crypto prepared)) };
          prepared_join = some (record prepared { learner_applied = none });
        },
        ok tt,
      )

  -- `AdmissionRound::bind_prepared`
  unfoldable pub bind_prepared :
      Crypto
      → ℕ
      → PreparedJoin raft
      → AdmissionRound raft
      → AdmissionRound raft × Result (Unit {0}) AdmissionDenied
  unfolding validate_plan
  bind_prepared crypto now prepared round = elim (validate_plan prepared.plan) [
    | err e ↦ (round, err e)
    | ok _ ↦ bind_valid crypto now prepared round
  ]
