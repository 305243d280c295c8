-- ===== src/Admission/Record.antt =====
-- The signed records of admission (src/auth.rs and src/raft/admission/controller.rs) and the digests
-- of what they bind (src/raft/admission.rs, src/raft/admission/controller/bootstrap.rs).
use keep_afloat_d.Prelude.{
  ℕ, Bool, not, ◌||◌, Option, none, some, List, [], ◌∷◌, ◌++◌, length, ◌==◌, if◌then◌else◌, same,
  String, Result, ok, err, ok_or, and_then,
}
use keep_afloat_d.BTreeSet.{BTreeSet}
use keep_afloat_d.Identity.{ReplicaId, replica_ord, Genesis, JoinPlan, AdmissionDenied, is_empty}
use keep_afloat_d.Store.OpenRaft.{OpenRaft}
use keep_afloat_d.Store.State.{PreparedJoin}

-- What is fed to a hash: a literal, or a number in so many bytes, the most significant first.
pub data HashInput : Type 0 where
  text : String → HashInput
  be_bytes : ℕ → ℕ → HashInput

-- The crates `hmac`, `sha2` and `serde_json`: the digest of an input, the tag under a key (none where
-- the key is refused), and the encoding of a pair of binding and payload.
pub record Crypto : Type 0 where
  pub sha256 : List HashInput → ℕ
  pub hmac : List ℕ → List HashInput → List ℕ → Option ℕ

abbrev pub replica_bytes : ReplicaId → List HashInput
replica_bytes id = be_bytes 8 id.physical_id ∷ be_bytes 32 id.boot_nonce ∷ []

unfoldable pub voters_bytes : List ReplicaId → List HashInput
voters_bytes [] = []
voters_bytes (id ∷ voters) = replica_bytes id ++ voters_bytes voters

abbrev pub roster_bytes : BTreeSet ReplicaId → List HashInput
roster_bytes voters = be_bytes 8 (length voters) ∷ voters_bytes voters

-- `Genesis::digest`
unfoldable pub genesis_digest : Crypto → Genesis → ℕ
genesis_digest crypto g = crypto.sha256 (
    text "keepafloatd-admission-genesis\0"
    ∷ be_bytes 1 3
    ∷ be_bytes 1 1
    ∷ be_bytes 1 g.config.version
    ∷ be_bytes 32 g.config.digest
    ∷ be_bytes 16 g.epoch
    ∷ roster_bytes g.voters)

-- `plan_digest`
unfoldable pub plan_digest : Crypto → JoinPlan → ℕ
unfolding genesis_digest
plan_digest crypto plan = crypto.sha256 (
    text "keepafloatd-admission-join-plan-v1\0"
      ∷ be_bytes 32 (genesis_digest crypto plan.genesis)
      ∷ replica_bytes plan.consumer
    ++ be_bytes 32 plan.request_nonce ∷ roster_bytes plan.previous_voters
    ++ roster_bytes plan.next_voters)

pub record JoinBinding (raft : OpenRaft) : Type 0 where
  pub log_id : raft.LogId
  pub plan_digest : ℕ

-- `JoinBinding::from_prepared`
abbrev pub from_prepared : {raft : OpenRaft} → Crypto → PreparedJoin raft → JoinBinding raft
from_prepared crypto p = record { log_id = p.prepared; plan_digest = plan_digest crypto p.plan }

-- `VERSION` of src/auth.rs
abbrev pub auth_version : ℕ
auth_version = 3

-- The test on the secret in `admission_record_mac`.
abbrev pub usable : Option (List ℕ) → Result (List ℕ) String
usable none = err "admission authentication requires a cluster secret"
usable (some secret) =
    if is_empty secret then err "admission authentication requires a cluster secret" else ok secret

-- `admission_record_mac`
unfoldable pub admission_record_mac :
    Crypto → Option (List ℕ) → ℕ → ReplicaId → ReplicaId → List ℕ → Result ℕ String
admission_record_mac crypto secret role sender recipient body = and_then (usable secret) (λ key.
    ok_or
      (crypto.hmac key
        (text "keepafloatd-admission-record\0"
            ∷ be_bytes 1 auth_version
            ∷ be_bytes 1 1
            ∷ be_bytes 1 role
            ∷ replica_bytes sender
          ++ replica_bytes recipient
          ++ be_bytes 8 (length body) ∷ [])
        body)
      "invalid admission authentication key")

-- `sign_admission_record`
unfoldable pub sign_admission_record :
    Crypto → Option (List ℕ) → ℕ → ReplicaId → ReplicaId → List ℕ → Result ℕ String
unfolding admission_record_mac
sign_admission_record = admission_record_mac

-- `verify_admission_record`
unfoldable pub verify_admission_record :
    Crypto → Option (List ℕ) → ℕ → ReplicaId → ReplicaId → List ℕ → ℕ → Result (Unit {0}) String
unfolding admission_record_mac
verify_admission_record crypto secret role sender recipient body tag =
    and_then (admission_record_mac crypto secret role sender recipient body) (λ expected.
      if expected == tag then ok tt else err "admission record authentication mismatch")

pub record SignedAdmission (T : Type 0) : Type 0 where
  pub sender : ReplicaId
  pub recipient : ReplicaId
  pub binding : ℕ
  pub payload : T
  pub tag : ℕ

-- `map_err` to a fixed message.
abbrev pub or_denied {ℓ} :
    {A : Type ℓ} → Result A String → AdmissionDenied → Result A AdmissionDenied
or_denied (ok a) denied = ok a
or_denied (err e) denied = err denied

-- Records of one payload type, under the encoding that `serde_json::to_vec` gives the pair of binding
-- and payload.
module _ {T : Type 0} (crypto : Crypto) (encode : ℕ → T → Option (List ℕ)) where
  -- `SignedAdmission::sign`
  unfoldable pub sign :
      Option (List ℕ)
      → ℕ
      → ReplicaId
      → ReplicaId
      → ℕ
      → T
      → Result (SignedAdmission T) AdmissionDenied
  unfolding sign_admission_record
  sign secret role sender recipient binding payload =
      and_then (ok_or (encode binding payload) "admission record encoding failed") (λ bytes.
        and_then
          (or_denied (sign_admission_record crypto secret role sender recipient bytes)
            "admission record signing failed")
          (λ tag. ok (record {
            sender = sender;
            recipient = recipient;
            binding = binding;
            payload = payload;
            tag = tag;
          })))

  -- Whether a record names other ends or another channel.
  abbrev pub misplaced : SignedAdmission T → ReplicaId → ReplicaId → ℕ → Bool
  misplaced signed sender recipient binding =
      not (same signed.sender sender)
      || not (same signed.recipient recipient)
      || not (signed.binding == binding)

  -- `SignedAdmission::verify`
  unfoldable pub verify :
      Option (List ℕ)
      → SignedAdmission T
      → ℕ
      → ReplicaId
      → ReplicaId
      → ℕ
      → Result (Unit {0}) AdmissionDenied
  unfolding verify_admission_record
  verify secret signed role sender recipient binding =
      if misplaced signed sender recipient binding
      then err "admission record boot or channel mismatch"
      else and_then
          (ok_or (encode signed.binding signed.payload) "admission record encoding failed")
          (λ bytes.
            or_denied (verify_admission_record crypto secret role sender recipient bytes signed.tag)
              "admission record signature mismatch")
