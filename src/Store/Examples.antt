-- ===== src/Store/Examples.antt =====
-- Runs of the state machine on a small cluster, and instances of its theorems.
pub mod Authority
pub mod Log
pub mod Replicas
use keep_afloat_d.Prelude.{
  ℕ, ◌≤◌, ◌++◌, true, false, none, some, List, [], ◌∷◌, ◌≡◌, refl, nat_ord, String, arith,
  sort_unstable, ℕ_discrete,
}
use keep_afloat_d.BTreeMap
use keep_afloat_d.BTreeMap.{BTreeMap}
use keep_afloat_d.BTreeSet
use keep_afloat_d.Addr.{v4, ip_ord, VipAddr}
use keep_afloat_d.Identity.{ReplicaId, replica_ord, Genesis}
use keep_afloat_d.VipLogic.Eligibility.{
  is_node_eligible, is_node_probe_fresh, next_probe_tick, is_node_base_eligible,
}
use keep_afloat_d.VipLogic.Reconcile.{VipAssignment, reconcile_vip_assignments}
use keep_afloat_d.VipLogic.Assign.{assign_vips_minimal_movement}
use keep_afloat_d.Store.Recompute.{fences, new_holders, addresses}
use keep_afloat_d.BTreeSet.Distinct.{IsDistinct}
use keep_afloat_d.Store.OpenRaft.{OpenRaft}
use keep_afloat_d.Store.State.{
  KafStorageState, Entry, EntryPayload, normal, membership, health_update, vip_released, new,
  admission_genesis, cluster_formed, v2, KafSnapshot,
}
use keep_afloat_d.Store.Machine.Frame.{vips_of, facts_of}
use keep_afloat_d.Store.Machine.{is_alive, apply_health, activate_v2, update_v2_failback_tracking}
use keep_afloat_d.Store.Membership.{unique_voters, forget_changed, apply_membership}
use keep_afloat_d.Store.Machine.Health.{IsFrontier, apply_health-IsFrontier}
use keep_afloat_d.Store.Snapshot.{snapshot_of, restore_into}
use keep_afloat_d.Store.Snapshot.Restore.{snapshot-restore}
use keep_afloat_d.Store.Apply.{apply_one, apply_all}
use keep_afloat_d.Store.Apply.Facts.{IsKept, apply_all-IsKept}
use keep_afloat_d.Store.Apply.Fencing.{Follows, apply_all-Follows}
use keep_afloat_d.Store.Apply.Holders.{fences-is_alive}
use keep_afloat_d.Store.Apply.History.{generation_names_holder}

-- An engine whose log ids are a leader and an index, and whose memberships are one list of voters.
abbrev pub engine : OpenRaft
engine = record {
  LogId = ℕ × ℕ;
  Leader = ℕ;
  Membership = List ReplicaId;
  Vote = ℕ;
  index = λ (l : ℕ × ℕ). l.1;
  leader = λ (l : ℕ × ℕ). l.0;
  log_id = λ (leader index : ℕ). (leader, index);
  index-log_id = λ leader index. refl;
  log_id-discrete = hlevel ℕ_discrete;
  voter_ids = λ (m : List ReplicaId). m;
  learner_ids = λ (m : List ReplicaId). [];
  node_ids = λ (m : List ReplicaId). m;
  joint_config = λ (m : List ReplicaId). m ∷ [];
  empty_membership = [];
}

abbrev pub replica : ℕ → ReplicaId
replica n = record { physical_id = n; boot_nonce = 7 }

abbrev pub entry : ℕ → EntryPayload engine → Entry engine
entry i p = record { log_id = (1, i); payload = p }

abbrev pub listed : List (VipAddr × String)
listed = (record { addr = v4 10; prefix = 24 }, "eth0") ∷ []

abbrev pub booted : KafStorageState engine
booted = new listed 3 true 2

-- Two voters; node 1 reports first and takes the VIP; then it fails, and node 2 takes over.
abbrev pub began : List (Entry engine)
began =
    entry 1 (membership (replica 1 ∷ replica 2 ∷ []))
    ∷ entry 2 (normal (health_update 1 true))
    ∷ entry 3 (normal (health_update 2 true))
    ∷ []

abbrev pub failed : List (Entry engine)
failed = entry 4 (normal (health_update 1 false)) ∷ []

-- Node 1 acknowledges that it let the VIP go.
abbrev released : List (Entry engine)
released = entry 5 (normal (vip_released 1 (v4 10) 2)) ∷ []

abbrev pub running : KafStorageState engine
running = apply_all began booted

abbrev pub waiting : VipAssignment
waiting = record {
  holder = 2;
  generation = 2;
  previous_holder = some 1;
  previous_holder_released = false;
  activation_tick = 3;
}

abbrev freed : VipAssignment
freed = record waiting { previous_holder_released = true }

-- Node 1 holds the VIP in the first generation.
first_assignment :
    BTreeMap.get running.vip_assignments (v4 10)
    ≡ some (record {
      holder = 1;
      generation = 1;
      previous_holder = none;
      previous_holder_released = true;
      activation_tick = 1;
    })
unfolding apply_all apply_one new apply_membership unique_voters forget_changed apply_health
    next_probe_tick new_holders update_v2_failback_tracking activate_v2 is_node_eligible
    is_node_base_eligible is_node_probe_fresh reconcile_vip_assignments assign_vips_minimal_movement
    BTreeMap.insert BTreeMap.get BTreeMap.remove BTreeMap.retain BTreeSet.contains BTreeSet.insert
    BTreeSet.remove BTreeSet.collect BTreeSet.extend sort_unstable ip_ord replica_ord
first_assignment = refl

-- The failover: node 2 takes over with the next generation and waits for node 1.
taken_over :
    BTreeMap.get (apply_all (began ++ failed) booted).vip_assignments (v4 10) ≡ some waiting
unfolding apply_all apply_one new apply_membership unique_voters forget_changed apply_health
    next_probe_tick new_holders update_v2_failback_tracking activate_v2 is_node_eligible
    is_node_base_eligible is_node_probe_fresh reconcile_vip_assignments assign_vips_minimal_movement
    BTreeMap.insert BTreeMap.get BTreeMap.remove BTreeMap.retain BTreeSet.contains BTreeSet.insert
    BTreeSet.remove BTreeSet.collect BTreeSet.extend sort_unstable ip_ord replica_ord
taken_over = refl

let_go :
    BTreeMap.get (apply_all released (apply_all (began ++ failed) booted)).vip_assignments (v4 10)
    ≡ some freed
unfolding apply_all apply_one new apply_membership unique_voters forget_changed apply_health
    next_probe_tick new_holders update_v2_failback_tracking activate_v2 is_node_eligible
    is_node_base_eligible is_node_probe_fresh reconcile_vip_assignments assign_vips_minimal_movement
    BTreeMap.insert BTreeMap.get BTreeMap.remove BTreeMap.retain BTreeSet.contains BTreeSet.insert
    BTreeSet.remove BTreeSet.collect BTreeSet.extend sort_unstable ip_ord replica_ord
let_go = refl

pub listed-IsDistinct : IsDistinct (addresses listed)
unfolding BTreeSet.contains
listed-IsDistinct = (refl, tt)

generation_names_holder_example : waiting.holder ≡ freed.holder
generation_names_holder_example =
    generation_names_holder listed 3 true 2 (began ++ failed) released (v4 10) waiting freed
      listed-IsDistinct taken_over let_go refl (omega arith)

apply_all-Follows_example : Follows (vips_of booted) (vips_of (apply_all (began ++ failed) booted))
unfolding new
apply_all-Follows_example = apply_all-Follows (began ++ failed) booted listed-IsDistinct

abbrev pub genesis : Genesis
genesis = record {
  voters = replica 1 ∷ replica 2 ∷ [];
  epoch = 41;
  config = record { version = 1; digest = 99 };
}

-- A genesis, then a request to form another cluster.
abbrev founding : List (Entry engine)
founding =
    entry 1 (normal (admission_genesis genesis)) ∷ entry 2 (normal (cluster_formed 42 v2 true)) ∷ []

apply_all-IsKept_example :
    IsKept
      (facts_of (apply_all founding booted))
      (facts_of (apply_all founding (apply_all founding booted)))
apply_all-IsKept_example = apply_all-IsKept founding (apply_all founding booted)

booted-IsFrontier : IsFrontier booted
unfolding new BTreeMap.get
booted-IsFrontier = record { reported = λ n. omega arith; in_range = omega arith }

apply_health-IsFrontier_example :
    IsFrontier (apply_health 1 true booted)
    × ((booted.latest_probe_tick ≤ (apply_health 1 true booted).latest_probe_tick)
        × (is_node_base_eligible 1
              (apply_health 1 true booted).node_health
              (apply_health 1 true booted).node_probe_ticks
              (apply_health 1 true booted).latest_probe_tick
              3
            ≡ true))
apply_health-IsFrontier_example = apply_health-IsFrontier 1 true booted 3 booted-IsFrontier

abbrev taken_snapshot : KafSnapshot engine
taken_snapshot = snapshot_of running

snapshot-restore_example : snapshot_of (restore_into taken_snapshot booted) ≡ taken_snapshot
unfolding apply_all apply_one new apply_membership unique_voters forget_changed apply_health
    next_probe_tick new_holders update_v2_failback_tracking activate_v2 is_node_eligible
    is_node_base_eligible is_node_probe_fresh reconcile_vip_assignments assign_vips_minimal_movement
    BTreeMap.insert BTreeMap.get BTreeMap.remove BTreeMap.retain BTreeSet.contains BTreeSet.insert
    BTreeSet.remove BTreeSet.collect BTreeSet.extend sort_unstable ip_ord replica_ord snapshot_of
snapshot-restore_example = snapshot-restore taken_snapshot booted refl

abbrev kept_by_one : VipAssignment
kept_by_one = record {
  holder = 1;
  generation = 1;
  previous_holder = none;
  previous_holder_released = true;
  activation_tick = 1;
}

still_held : BTreeMap.get (fences running).assignments (v4 10) ≡ some kept_by_one
unfolding apply_all apply_one new apply_membership unique_voters forget_changed apply_health
    next_probe_tick new_holders update_v2_failback_tracking activate_v2 is_node_eligible
    is_node_base_eligible is_node_probe_fresh reconcile_vip_assignments assign_vips_minimal_movement
    BTreeMap.insert BTreeMap.get BTreeMap.remove BTreeMap.retain BTreeSet.contains BTreeSet.insert
    BTreeSet.remove BTreeSet.collect BTreeSet.extend sort_unstable ip_ord replica_ord fences
still_held = refl

running-IsDistinct : IsDistinct (addresses running.vip_list)
unfolding apply_all apply_one new apply_membership unique_voters forget_changed apply_health
    next_probe_tick new_holders update_v2_failback_tracking activate_v2 is_node_eligible
    is_node_base_eligible is_node_probe_fresh reconcile_vip_assignments assign_vips_minimal_movement
    BTreeMap.insert BTreeMap.get BTreeMap.remove BTreeMap.retain BTreeSet.contains BTreeSet.insert
    BTreeSet.remove BTreeSet.collect BTreeSet.extend sort_unstable ip_ord replica_ord fences
running-IsDistinct = (refl, tt)

fences-is_alive_example : is_alive running 1 ≡ true
fences-is_alive_example = fences-is_alive running (v4 10) kept_by_one running-IsDistinct still_held
