-- ===== src/Network/Authorization/Examples.antt =====
-- An instance of the theorem on join commands: a fresh preparation in a cluster of two.
use keep_afloat_d.Prelude.{
  ℕ, ◌+◌, ◌≡◌, refl, ap, true, some, none, List, [], ◌∷◌, nat_ord, ok, equal, ℕ_discrete, String,
}
use keep_afloat_d.BTreeSet
use keep_afloat_d.Addr.{VipAddr}
use keep_afloat_d.Identity.{
  ReplicaId, replica_ord, AdmissionSession, AdmissionFence, Voters-discrete, Genesis-discrete,
  JoinPlan, replaced_voters, validate_plan, validate_roster,
}
use keep_afloat_d.Store.OpenRaft.{OpenRaft}
use keep_afloat_d.Store.State.{KafStorageState, StoredMembership, new, prepare_join, ok as accepted}
use keep_afloat_d.Store.Membership.{apply_admission_membership}
use keep_afloat_d.Store.Examples.{replica, genesis}
use keep_afloat_d.Network.Authorization.{Peers, RaftAuthorization, join_plan_data, check_admission}
use keep_afloat_d.Network.Authorization.Apply.{
  VotersAgree, IsViewOf, check_admission-apply_admission_membership,
}

-- An engine whose memberships are one set of voters.
abbrev voting : OpenRaft
voting = record {
  LogId = ℕ × ℕ;
  Leader = ℕ;
  Membership = List ReplicaId;
  Vote = ℕ;
  index = λ (l : ℕ × ℕ). l.1;
  leader = λ (l : ℕ × ℕ). l.0;
  log_id = λ (leader index : ℕ). (leader, index);
  index-log_id = λ leader index. refl;
  log_id-discrete = hlevel ℕ_discrete;
  voter_ids = λ (m : List ReplicaId). m;
  learner_ids = λ (m : List ReplicaId). [];
  node_ids = λ (m : List ReplicaId). m;
  joint_config = λ (m : List ReplicaId). BTreeSet.collect m ∷ [];
  empty_membership = [];
}

-- The only configuration of a list of one.
abbrev first : List (List ReplicaId) → List ReplicaId
first [] = []
first (c ∷ more) = c

voting-VotersAgree : VotersAgree voting
voting-VotersAgree m voters e = ap first e

abbrev peers : Peers voting
peers = record {
  node_id = replica;
  same_membership = λ (m n : List ReplicaId). equal Voters-discrete m n;
}

abbrev pair : StoredMembership voting
pair = record { log_id = some (1, 1); membership = replica 1 ∷ replica 2 ∷ [] }

abbrev no_vips : List (VipAddr × String)
no_vips = []

abbrev bound : KafStorageState voting
bound = record (new no_vips 3 true 2) { genesis = some genesis; last_membership = pair }

abbrev fence : AdmissionFence
fence = record { local_replica = replica 1; check = λ now context. ok (now + 10) }

abbrev session : AdmissionSession
session = record {
  context = record { local_replica = replica 1; genesis = genesis };
  fence = fence;
}

abbrev view : RaftAuthorization voting
view = record {
  session = session;
  peer = replica 2;
  configured_physical_ids = 1 ∷ 2 ∷ [];
  voters = replica 1 ∷ replica 2 ∷ [];
  memberships = (replica 1 ∷ replica 2 ∷ []) ∷ [];
  committed_membership = pair;
  last_applied = some (1, 1);
  prepared_join = none;
}

-- Member 2 has booted again.
abbrev reboot : JoinPlan
reboot = record {
  genesis = genesis;
  consumer = record { physical_id = 2; boot_nonce = 8 };
  request_nonce = 5;
  previous_voters = replica 1 ∷ replica 2 ∷ [];
  next_voters = replica 1 ∷ record { physical_id = 2; boot_nonce = 8 } ∷ [];
}

view-IsViewOf : IsViewOf view bound
unfolding new
view-IsViewOf = record { pending = refl; membership = refl; genesis = refl }

authorized : check_admission peers view (prepare_join reboot) (1, 2) ≡ ok tt
unfolding check_admission join_plan_data validate_plan replaced_voters validate_roster
    BTreeSet.contains BTreeSet.insert BTreeSet.collect BTreeSet.extend Genesis-discrete
    Voters-discrete ℕ_discrete replica_ord
authorized = refl

check_admission-apply_admission_membership_example :
    (apply_admission_membership (prepare_join reboot) (1, 2) bound).1 ≡ accepted
check_admission-apply_admission_membership_example =
    check_admission-apply_admission_membership peers voting-VotersAgree view (prepare_join reboot)
      (1, 2) bound view-IsViewOf refl authorized
