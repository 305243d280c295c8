-- ===== src/Identity.antt =====
-- Exact replica identities, the admission genesis and the join plans (src/raft/admission.rs and
-- src/raft/admission/membership.rs). A byte array is the number that its bytes write, most
-- significant first, which keeps its equality and its order.
use Prim.Native.Nat.Ordering.{lt, eq, gt}
use keep_afloat_d.Prelude.{
  ℕ, compare, Ordering, ◌≡◌, Ord, flip, arith, nat_ord, Bool, true, false, not, ◌||◌, Option, List,
  [], ◌∷◌, map, length, leb, ◌==◌, if◌then◌else◌, ℕ_discrete, retain, String, Result, ok, err, same,
  equal, ◌/◌,
}
use keep_afloat_d.BTreeSet
use keep_afloat_d.BTreeSet.{BTreeSet}

pub record ReplicaId : Type 0 where
  pub physical_id : ℕ
  pub boot_nonce : ℕ

abbrev pub then_cmp : Ordering → Ordering → Ordering
then_cmp eq next = next
then_cmp lt next = lt
then_cmp gt next = gt

-- The derived order: field by field.
abbrev pub replica_cmp : ReplicaId → ReplicaId → Ordering
replica_cmp a b = then_cmp (compare a.physical_id b.physical_id) (compare a.boot_nonce b.boot_nonce)

pub replica_refl : (a : ReplicaId) → replica_cmp a a ≡ eq
replica_refl a = ground arith

pub replica_eq_of_cmp : (a b : ReplicaId) → replica_cmp a b ≡ eq → a ≡ b
replica_eq_of_cmp a b h = ground arith

pub replica_flip : (a b : ReplicaId) → replica_cmp b a ≡ flip (replica_cmp a b)
replica_flip a b = ground arith

pub replica_trans :
    (a b c : ReplicaId) → replica_cmp a b ≡ lt → replica_cmp b c ≡ lt → replica_cmp a c ≡ lt
replica_trans a b c p q = ground arith

instance unfoldable pub replica_ord : Ord ReplicaId
replica_ord = record {
  cmp = replica_cmp;
  cmp_refl = replica_refl;
  eq_of_cmp = replica_eq_of_cmp;
  cmp_flip = replica_flip;
  cmp_trans = replica_trans;
}

unfoldable pub ReplicaId-discrete : Discrete ReplicaId
unfolding ℕ_discrete
ReplicaId-discrete = hlevel ℕ_discrete

pub record ClusterConfigFingerprint : Type 0 where
  pub version : ℕ
  pub digest : ℕ

pub record Genesis : Type 0 where
  pub config : ClusterConfigFingerprint
  pub epoch : ℕ
  pub voters : BTreeSet ReplicaId

unfoldable pub Voters-discrete : Discrete (BTreeSet ReplicaId)
unfolding ℕ_discrete
Voters-discrete = hlevel ℕ_discrete

unfoldable pub Genesis-discrete : Discrete Genesis
unfolding ℕ_discrete
Genesis-discrete = hlevel ℕ_discrete

-- `AdmissionDenied(&'static str)`
abbrev pub AdmissionDenied : Type 0
AdmissionDenied = String

abbrev pub physical_ids : BTreeSet ReplicaId → BTreeSet ℕ
physical_ids voters = BTreeSet.collect (map (λ (id : ReplicaId). id.physical_id) voters)

-- `Genesis::validate_roster`
unfoldable pub validate_roster : Genesis → BTreeSet ℕ → Result (Unit {0}) AdmissionDenied
validate_roster genesis configured =
    let physical = physical_ids genesis.voters in
    if not (length physical == length genesis.voters)
      || not (BTreeSet.is_subset physical configured)
      || leb (length physical) (length configured / 2)
    then err "genesis is not a distinct configured physical majority"
    else ok tt

pub record AdmissionContext : Type 0 where
  pub local_replica : ReplicaId
  pub genesis : Genesis

unfoldable pub AdmissionContext-discrete : Discrete AdmissionContext
AdmissionContext-discrete = hlevel ℕ_discrete

-- `trait AdmissionFence`: at the time of the call, a deadline or a refusal.
pub record AdmissionFence : Type 0 where
  pub local_replica : ReplicaId
  pub check : ℕ → AdmissionContext → Result ℕ AdmissionDenied

pub record AdmissionSession : Type 0 where
  pub context : AdmissionContext
  pub fence : AdmissionFence

-- `AdmissionSession::check`, at the time `now`.
unfoldable pub check_session : ℕ → AdmissionSession → Result ℕ AdmissionDenied
check_session now session = elim (session.fence.check now session.context) [
  | err e ↦ err e
  | ok deadline ↦ if leb deadline now then err "admission deadline expired" else ok deadline
]

-- `AdmissionSession::new`
unfoldable pub new_session :
    ℕ → AdmissionContext → AdmissionFence → Result AdmissionSession AdmissionDenied
unfolding check_session
new_session now context fence =
    if not (same fence.local_replica context.local_replica)
    then err "runtime boot differs from admission context"
    else (let session : AdmissionSession = record { context = context; fence = fence } in
        elim (check_session now session) [ err e ↦ err e | ok _ ↦ ok session ])

pub record HealthProgress : Type 0 where
  pub node_id : ℕ
  pub healthy : Option Bool
  pub replica : ReplicaId
  pub epoch : ℕ
  pub request_nonce : ℕ
  pub genesis : Genesis

-- `HealthProgress::validate`
unfoldable pub validate_progress : HealthProgress → Result (Unit {0}) AdmissionDenied
validate_progress p =
    if not (p.node_id == p.replica.physical_id) || not (p.epoch == p.genesis.epoch)
    then err "progress identity or epoch mismatch"
    else ok tt

pub record JoinPlan : Type 0 where
  pub genesis : Genesis
  pub consumer : ReplicaId
  pub request_nonce : ℕ
  pub previous_voters : BTreeSet ReplicaId
  pub next_voters : BTreeSet ReplicaId

unfoldable pub JoinPlan-discrete : Discrete JoinPlan
JoinPlan-discrete = hlevel ℕ_discrete

abbrev pub is_empty {ℓ} : {A : Type ℓ} → List A → Bool
is_empty [] = true
is_empty (x ∷ xs) = false

-- The voters after the consumer's boot has replaced any other boot of its physical member.
unfoldable pub replaced_voters : JoinPlan → BTreeSet ReplicaId
replaced_voters plan =
    BTreeSet.insert
      (retain (λ (id : ReplicaId). not (id.physical_id == plan.consumer.physical_id))
        plan.previous_voters)
      plan.consumer

-- `JoinPlan::validate`
unfoldable pub validate_plan : JoinPlan → Result (Unit {0}) AdmissionDenied
unfolding replaced_voters Voters-discrete
validate_plan plan =
    if is_empty plan.previous_voters
      || not (length (physical_ids plan.previous_voters) == length plan.previous_voters)
      || BTreeSet.contains plan.previous_voters plan.consumer
      || not (equal Voters-discrete plan.next_voters (replaced_voters plan))
    then err "join plan is not one exact boot replacement"
    else ok tt
