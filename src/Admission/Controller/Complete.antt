-- ===== src/Admission/Controller/Complete.antt =====
-- The completion of an admission round of src/raft/admission/controller.rs from the grants that came
-- back.
pub mod Quorum
use keep_afloat_d.Prelude.{
  ℕ, ◌/◌, Bool, true, false, not, ◌&&◌, ◌||◌, Option, none, some, List, [], ◌∷◌, length, leb, ltb,
  max, if◌then◌else◌, same, equal, nat_ord, Result, ok, err, and_then,
}
use keep_afloat_d.BTreeSet
use keep_afloat_d.BTreeSet.{BTreeSet}
use keep_afloat_d.Identity.{
  ReplicaId, replica_ord, Voters-discrete, AdmissionContext, AdmissionDenied,
}
use keep_afloat_d.Store.OpenRaft.{OpenRaft}
use keep_afloat_d.Store.State.{PreparedJoin}
use keep_afloat_d.Admission.Record.{Crypto, SignedAdmission, verify}
use keep_afloat_d.Admission.Controller.{
  AdmissionMode, cold, join, renew, AdmissionRequest, AdmissionRequest-discrete, AdmissionRound,
  AdmissionController,
}

pub record ReceivedGrant (raft : OpenRaft) : Type 0 where
  pub signed : SignedAdmission (AdmissionRequest raft)
  pub issuer : ReplicaId
  pub binding : ℕ

pub record VerifiedAdmission (raft : OpenRaft) : Type 0 where
  pub context : AdmissionContext
  pub deadline : ℕ
  pub mode : AdmissionMode raft
  pub bootstrap : Option (PreparedJoin raft)

module _ {raft : OpenRaft} where
  abbrev pub is_request : AdmissionRequest raft → AdmissionRequest raft → Bool
  is_request = equal (AdmissionRequest-discrete raft)

  -- `ReceivedGrant::authenticate`
  unfoldable pub authenticate :
      Crypto
      → (ℕ → AdmissionRequest raft → Option (List ℕ))
      → Option (List ℕ)
      → ReplicaId
      → ReplicaId
      → ℕ
      → AdmissionRequest raft
      → SignedAdmission (AdmissionRequest raft)
      → Result (ReceivedGrant raft) AdmissionDenied
  unfolding verify AdmissionRequest-discrete
  authenticate crypto encode secret issuer recipient binding request signed =
      and_then (verify crypto encode secret signed 11 issuer recipient binding) (λ _.
        if not (is_request signed.payload request)
        then err "admission response differs from its request"
        else ok (record { signed = signed; issuer = issuer; binding = binding }))

  abbrev pub lacks_evidence : AdmissionMode raft → Bool
  lacks_evidence (join none) = true
  lacks_evidence (join (some prepared)) = false
  lacks_evidence (renew none) = true
  lacks_evidence (renew (some progress)) = false
  lacks_evidence cold = false

  abbrev pub is_cold : AdmissionMode raft → Bool
  is_cold cold = true
  is_cold (join prepared) = false
  is_cold (renew progress) = false

  -- Whether the loop refuses a verified grant, given the physical issuers before it.
  abbrev pub is_foreign :
      AdmissionController → AdmissionRequest raft → BTreeSet ℕ → ReceivedGrant raft → Bool
  is_foreign controller request physical received =
      not (is_request received.signed.payload request)
      || not (BTreeSet.contains controller.configured received.signed.sender.physical_id)
      || BTreeSet.contains physical received.signed.sender.physical_id

  -- The loop of `complete` over the grants, with the physical and the exact issuers so far.
  unfoldable pub collect_grants :
      Crypto
      → (ℕ → AdmissionRequest raft → Option (List ℕ))
      → AdmissionController
      → AdmissionRequest raft
      → List (ReceivedGrant raft)
      → BTreeSet ℕ
      → BTreeSet ReplicaId
      → Result (BTreeSet ℕ × BTreeSet ReplicaId) AdmissionDenied
  unfolding verify AdmissionRequest-discrete
  collect_grants crypto encode controller request [] physical exact = ok (physical, exact)
  collect_grants crypto encode controller request (received ∷ grants) physical exact =
      let sender = received.signed.sender in
      and_then
        (verify crypto encode controller.cluster_secret received.signed 11 received.issuer
          controller.replica received.binding)
        (λ _.
          if is_foreign controller request physical received
          then err "grant mismatch or duplicate physical issuer"
          else collect_grants crypto encode controller request grants
              (BTreeSet.insert physical sender.physical_id) (BTreeSet.insert exact sender))

  -- `complete` after its loop.
  abbrev pub check_quorum :
      AdmissionController
      → AdmissionRequest raft
      → BTreeSet ℕ × BTreeSet ReplicaId
      → Result (Unit {0}) AdmissionDenied
  check_quorum controller request (physical, exact) =
      if leb (length physical) (length controller.configured / 2)
      then err "admission grants lack a physical majority"
      else if is_cold request.mode && not (equal Voters-discrete exact request.genesis.voters)
      then err "cold genesis lacks every exact boot's consent"
      else ok tt

  -- The end of `complete`.
  abbrev pub finish :
      AdmissionController
      → AdmissionRound raft
      → Result (Unit {0}) AdmissionDenied
      → AdmissionRound raft × Result (VerifiedAdmission raft) AdmissionDenied
  finish controller round (err e) = (round, err e)
  finish controller round (ok _) = (
    record round { completed = true },
    ok (record {
      context = record { local_replica = controller.replica; genesis = round.request.genesis };
      deadline = round.deadline;
      mode = round.request.mode;
      bootstrap = round.prepared_join;
    }),
  )

  -- `AdmissionController::complete`: the round after it, and the result.
  unfoldable pub complete :
      Crypto
      → (ℕ → AdmissionRequest raft → Option (List ℕ))
      → ℕ
      → List (ReceivedGrant raft)
      → AdmissionController
      → AdmissionRound raft
      → AdmissionRound raft × Result (VerifiedAdmission raft) AdmissionDenied
  unfolding collect_grants Voters-discrete
  complete crypto encode now grants controller round =
      if lacks_evidence round.request.mode
      then (round, err "admission round lacks committed evidence")
      else if round.completed || leb round.deadline now
      then (record round { completed = true }, err "admission round expired or already consumed")
      else if not (same round.request.consumer controller.replica)
      then (round, err "admission round belongs to another boot")
      else finish controller round (
          and_then (collect_grants crypto encode controller round.request grants [] [])
            (check_quorum controller round.request))
