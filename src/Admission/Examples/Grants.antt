-- ===== src/Admission/Examples/Grants.antt =====
-- Instances of the theorems on grants.
use keep_afloat_d.Prelude.{
  ℕ, ◌+◌, nat_ord, ◌≡◌, refl, true, false, Option, none, some, List, [], ◌∷◌, ok, arith, ℕ_discrete,
}
use keep_afloat_d.BTreeSet
use keep_afloat_d.Identity.{
  AdmissionSession, new_session, check_session, replica_ord, Genesis-discrete, Voters-discrete,
  validate_roster,
}
use keep_afloat_d.Admission.Record.{
  Crypto, SignedAdmission, sign, verify, sign_admission_record, verify_admission_record,
  genesis_digest, admission_record_mac,
}
use keep_afloat_d.Admission.Controller.{
  AdmissionTiming, AdmissionRequest, AdmissionRequest-discrete, AdmissionMode-discrete,
  JoinBinding-discrete, cold, AdmissionRound, AdmissionController, validate_genesis,
  ClusterConfigFingerprint-discrete,
}
use keep_afloat_d.Admission.Controller.Reserve.{check_cold, check_request, reserve}
use keep_afloat_d.Admission.Controller.Reserve.Hold.{ReserveCall, reserves, granted-one_genesis}
use keep_afloat_d.Admission.Controller.Complete.{
  ReceivedGrant, VerifiedAdmission, collect_grants, complete,
}
use keep_afloat_d.Admission.Controller.Complete.Quorum.{
  Completes, issuers, complete-Completes, complete-overlap,
}
use keep_afloat_d.Admission.Permission.{
  quarantined, admit, current, seal_expired, AuthorityContext-discrete,
}
use keep_afloat_d.Admission.Authority.{
  RuntimeAuthority, transition, check_authority, fence_of, accept,
}
use keep_afloat_d.Admission.Authority.Accept.{IsAccepted, accept-IsAccepted}
use keep_afloat_d.Store.Examples.{engine, genesis, replica}

-- A hash and a tag that are constant, and an encoding that is the binding.
abbrev crypto : Crypto
crypto = record { sha256 = λ xs. 0; hmac = λ key xs body. some 5 }

abbrev encode : ℕ → AdmissionRequest engine → Option (List ℕ)
encode binding payload = some (binding ∷ [])

abbrev timing : AdmissionTiming
timing = record {
  consumer_deadline = λ t. ok (t + 10);
  reservation_deadline = λ t. ok (t + 20);
  quarantine_deadline = λ t. ok (t + 40);
}

abbrev controller : ℕ → AdmissionController
controller n = record {
  cluster_secret = some (1 ∷ []);
  configured = 1 ∷ 2 ∷ 3 ∷ [];
  config_identity = record { version = 1; digest = 99 };
  replica = replica n;
  timing = timing;
  quarantine_until = 40;
  reservation = none;
}

abbrev request : ℕ → AdmissionRequest engine
request n = record { consumer = replica n; genesis = genesis; request_nonce = 77; mode = cold }

abbrev signed : ℕ → ℕ → ℕ → SignedAdmission (AdmissionRequest engine)
signed sender recipient consumer = record {
  sender = replica sender;
  recipient = replica recipient;
  binding = 6;
  payload = request consumer;
  tag = 5;
}

abbrev asked : ℕ → ℕ → ReserveCall engine
asked now n = record { now = now; checked = now; signed = signed n 2 n; binding = 6; state = none }

granted-one_genesis_example : (signed 2 2 2).payload.genesis ≡ (signed 2 1 1).payload.genesis
unfolding reserves reserve check_request check_cold verify sign sign_admission_record
    verify_admission_record admission_record_mac validate_genesis validate_roster BTreeSet.contains
    BTreeSet.collect BTreeSet.extend BTreeSet.insert replica_ord ClusterConfigFingerprint-discrete
    Genesis-discrete ℕ_discrete
granted-one_genesis_example =
    granted-one_genesis crypto encode (asked 50 1) (asked 60 2) (asked 55 1 ∷ []) (controller 2)
      (signed 2 1 1) (signed 2 2 2) 70 refl refl (omega arith, tt) (omega arith) refl

abbrev round : AdmissionRound engine
round = record {
  request = request 1;
  started = 50;
  deadline = 60;
  completed = false;
  prepared_join = none;
}

abbrev grant : ℕ → ReceivedGrant engine
grant n = record { signed = signed n 1 1; issuer = replica n; binding = 6 }

abbrev grants : List (ReceivedGrant engine)
grants = grant 1 ∷ grant 2 ∷ []

abbrev verified : VerifiedAdmission engine
verified = record {
  context = record { local_replica = replica 1; genesis = genesis };
  deadline = 60;
  mode = cold;
  bootstrap = none;
}

completed : (complete crypto encode 55 grants (controller 1) round).1 ≡ ok verified
unfolding complete collect_grants verify verify_admission_record admission_record_mac
    AdmissionRequest-discrete AdmissionMode-discrete JoinBinding-discrete Genesis-discrete
    Voters-discrete ℕ_discrete BTreeSet.contains BTreeSet.insert replica_ord
completed = refl

complete-Completes_example :
    Completes crypto encode 55 grants
      (controller 1)
      round
      (complete crypto encode 55 grants (controller 1) round).0
      verified
complete-Completes_example =
    complete-Completes crypto encode 55 grants (controller 1) round verified completed

complete-overlap_example :
    (n : ℕ) × ((BTreeSet.contains (issuers grants) n ≡ true)
      × (BTreeSet.contains (issuers grants) n ≡ true))
complete-overlap_example =
    complete-overlap crypto encode 55 55 grants grants (controller 1) (controller 1) round round
      verified verified refl completed completed

-- The runtime of the boot that completed the round.
abbrev runtime : RuntimeAuthority engine
runtime = record { replica = replica 1; permission = quarantined 40; join_binding = none }

abbrev session : AdmissionSession
session = record {
  context = record { local_replica = replica 1; genesis = genesis };
  fence = fence_of crypto (accept crypto 56 57 verified runtime).0;
}

accepted : (accept crypto 56 57 verified runtime).1 ≡ ok session
unfolding accept transition admit seal_expired check_authority current new_session check_session
    genesis_digest AuthorityContext-discrete ℕ_discrete replica_ord
accepted = refl

accept-IsAccepted_example :
    IsAccepted crypto 57 verified runtime (accept crypto 56 57 verified runtime).0 session
accept-IsAccepted_example = accept-IsAccepted crypto 56 57 verified runtime session accepted
