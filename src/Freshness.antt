-- ===== src/Freshness.antt =====
-- `ConsensusFreshness` of src/consensus_freshness.rs and the permits of
-- src/consensus_freshness/permits.rs: how long a proof of quorum contact lasts, and what it permits. A
-- call takes the time that it reads.
pub mod Revocation
pub mod Examples
use keep_afloat_d.Prelude.{
  ℕ, ◌+◌, ◌^◌, Bool, true, false, not, ◌&&◌, ◌||◌, Option, none, some, ltb, leb, min, ◌==◌,
  if◌then◌else◌, is_some, equal, Result, ok, err, and_then, is_ok, ok_or, String, ◌>>=◌,
}
use Prim.Native.Nat.{◌%◌}
use keep_afloat_d.Identity.{
  AdmissionContext, AdmissionContext-discrete, AdmissionSession, check_session, AdmissionDenied,
}
use keep_afloat_d.Store.OpenRaft.{OpenRaft}
use keep_afloat_d.Store.State.{AppliedHealthProgress}
use keep_afloat_d.Admission.Duration.{checked}

abbrev pub wrapping_add : ℕ → ℕ → ℕ
wrapping_add a b = (a + b) % 2 ^ 64

-- `VerifiedProgress` of src/raft/admission/runtime/proof.rs
pub record VerifiedProgress (raft : OpenRaft) : Type 0 where
  pub started : ℕ
  pub applied : AppliedHealthProgress raft
  pub accepted_deadline : ℕ
  pub session : AdmissionSession

pub record Proof (raft : OpenRaft) : Type 0 where
  pub started : Option ℕ
  pub invalidation_epoch : ℕ
  pub acquisition_epoch : ℕ
  pub available : Bool
  pub progress : Option (VerifiedProgress raft)

-- The `Arc` that tells two of them apart is a number, and `limit` is the last instant.
pub record ConsensusFreshness (raft : OpenRaft) : Type 0 where
  pub proof : Proof raft
  pub lifetime : ℕ
  pub identity : ℕ
  pub limit : ℕ

pub record RetentionStamp : Type 0 where
  pub identity : ℕ
  pub context : AdmissionContext
  pub epoch : ℕ

pub record Permit (raft : OpenRaft) : Type 0 where
  pub stamp : RetentionStamp
  pub acquisition_epoch : Option ℕ
  pub deadline : ℕ
  pub progress : VerifiedProgress raft

abbrev pub is_context : AdmissionContext → AdmissionContext → Bool
is_context = equal AdmissionContext-discrete

abbrev pub before : ℕ → Option ℕ → Bool
before now none = false
before now (some deadline) = ltb now deadline

abbrev pub is_healthy : Option Bool → Bool
is_healthy none = false
is_healthy (some b) = b

module _ {raft : OpenRaft} where
  -- `VerifiedProgress::check`
  unfoldable pub check_progress : ℕ → VerifiedProgress raft → Result (Unit {0}) AdmissionDenied
  unfolding check_session
  check_progress now p = and_then (check_session now p.session) (λ _.
      if leb p.accepted_deadline now then err "health proof admission deadline expired" else ok tt)

  abbrev pub until_accepted : ℕ → Option (VerifiedProgress raft) → ℕ
  until_accepted deadline none = deadline
  until_accepted deadline (some p) = min deadline p.accepted_deadline

  -- `Proof::deadline`
  unfoldable pub proof_deadline : ConsensusFreshness raft → Option ℕ
  proof_deadline f = f.proof.started >>= λ started.
      checked f.limit (started + f.lifetime) >>= λ deadline.
      some (until_accepted deadline f.proof.progress)

  abbrev pub holds : ℕ → Option (VerifiedProgress raft) → Bool
  holds now none = true
  holds now (some p) = is_ok (check_progress now p)

  -- `Proof::fresh`
  unfoldable pub is_fresh : ℕ → ConsensusFreshness raft → Bool
  unfolding proof_deadline check_progress
  is_fresh now f = before now (proof_deadline f) && holds now f.proof.progress

abbrev pub started_before : ℕ → Option ℕ → Bool
started_before started none = false
started_before started (some previous) = ltb started previous

module _ {raft : OpenRaft} where
  abbrev pub other_context : Option (VerifiedProgress raft) → VerifiedProgress raft → Bool
  other_context none p = true
  other_context (some previous) p = not (is_context previous.session.context p.session.context)

  -- A new epoch, unless the proof goes on without a break under the same admission.
  abbrev pub epoch_after : ℕ → VerifiedProgress raft → ConsensusFreshness raft → ℕ
  epoch_after now p f =
      if not (is_fresh now f) || other_context f.proof.progress p
      then wrapping_add f.proof.invalidation_epoch 1
      else f.proof.invalidation_epoch

-- The order of log ids is the consensus engine's.
module _ {raft : OpenRaft} (log_le : raft.LogId → raft.LogId → Bool) where
  abbrev pub not_after : VerifiedProgress raft → Option (VerifiedProgress raft) → Bool
  not_after p none = false
  not_after p (some previous) =
      is_context previous.session.context p.session.context
      && (leb (raft.index p.applied.log_id) (raft.index previous.applied.log_id)
          || log_le p.applied.log_id previous.applied.log_id)

  -- The report of a progress that is within its lifetime.
  abbrev pub advance :
      ℕ
      → VerifiedProgress raft
      → ConsensusFreshness raft
      → ConsensusFreshness raft × Result (Unit {0}) String
  advance now p f =
      if started_before p.started f.proof.started || not_after p f.proof.progress
      then (f, err "health proof does not advance verified progress")
      else (
        record f {
          proof = record f.proof {
            invalidation_epoch = epoch_after now p f;
            started = some p.started;
            progress = some p;
            available = true;
          };
        },
        ok tt,
      )

  abbrev pub advance_until :
      ℕ
      → VerifiedProgress raft
      → ConsensusFreshness raft
      → Option ℕ
      → ConsensusFreshness raft × Result (Unit {0}) String
  advance_until now p f none = (f, err "health proof lifetime overflow")
  advance_until now p f (some limit) =
      if ltb now p.started || leb (min limit p.accepted_deadline) now
      then (f, err "health proof is outside its original lifetime")
      else advance now p f

  -- `ConsensusFreshness::record_applied`
  unfoldable pub record_applied :
      ℕ
      → VerifiedProgress raft
      → ConsensusFreshness raft
      → ConsensusFreshness raft × Result (Unit {0}) String
  unfolding check_progress is_fresh AdmissionContext-discrete
  record_applied now p f =
      if not (is_healthy p.applied.request.healthy)
      then (f, err "only completed healthy progress can renew freshness")
      else if not (is_ok (check_progress now p))
      then (f, err "health proof authority is revoked")
      else advance_until now p f (checked f.limit (p.started + f.lifetime))

module _ {raft : OpenRaft} where
  -- `ConsensusFreshness::mark_unavailable`
  unfoldable pub mark_unavailable : ConsensusFreshness raft → ConsensusFreshness raft
  mark_unavailable f = if not f.proof.available then f else record f {
    proof = record f.proof {
      available = false;
      acquisition_epoch = wrapping_add f.proof.acquisition_epoch 1;
    };
  }

  -- `ConsensusFreshness::invalidate`
  unfoldable pub invalidate : ConsensusFreshness raft → ConsensusFreshness raft
  invalidate f = record f {
    proof = record f.proof {
      started = none;
      available = false;
      invalidation_epoch = wrapping_add f.proof.invalidation_epoch 1;
    };
  }

  -- `ConsensusFreshness::acquire`
  unfoldable pub acquire : ℕ → Bool → ConsensusFreshness raft → Option (Permit raft)
  unfolding is_fresh proof_deadline
  acquire now has_leader f =
      if not has_leader || not f.proof.available || not (is_fresh now f)
      then none
      else (f.proof.progress >>= λ progress. proof_deadline f >>= λ deadline. some (record {
        stamp = record {
          identity = f.identity;
          context = progress.session.context;
          epoch = f.proof.invalidation_epoch;
        };
        acquisition_epoch = some f.proof.acquisition_epoch;
        deadline = deadline;
        progress = progress;
      }))

  -- `ConsensusFreshness::retain`
  unfoldable pub retain : ℕ → RetentionStamp → ConsensusFreshness raft → Option (Permit raft)
  unfolding is_fresh proof_deadline AdmissionContext-discrete
  retain now stamp f = f.proof.progress >>= λ progress.
      if not (f.identity == stamp.identity)
        || not (f.proof.invalidation_epoch == stamp.epoch)
        || not (is_context progress.session.context stamp.context)
        || not (is_fresh now f)
      then none
      else (proof_deadline f >>= λ deadline. some (record {
        stamp = stamp;
        acquisition_epoch = none;
        deadline = deadline;
        progress = progress;
      }))

  abbrev pub is_continued : ℕ → AdmissionContext → Option (VerifiedProgress raft) → Bool
  is_continued now context none = false
  is_continued now context (some p) =
      is_context p.session.context context && is_ok (check_progress now p)

  abbrev pub may_acquire : Option ℕ → Proof raft → Bool
  may_acquire none proof = true
  may_acquire (some epoch) proof = proof.available && proof.acquisition_epoch == epoch

  -- `Permit::check`
  unfoldable pub check_permit : ℕ → Permit raft → ConsensusFreshness raft → Bool
  unfolding check_progress AdmissionContext-discrete
  check_permit now permit f =
      if leb permit.deadline now || not (is_ok (check_progress now permit.progress))
      then false
      else f.proof.invalidation_epoch == permit.stamp.epoch
        && is_continued now permit.stamp.context f.proof.progress
        && may_acquire permit.acquisition_epoch f.proof
