-- ===== src/BindPolicy.antt =====
-- Whether a node may attach a VIP (src/bind_policy.rs).
pub mod Bind
pub mod Examples
use keep_afloat_d.Prelude.{
  ℕ, Bool, true, false, not, ◌&&◌, ◌||◌, Option, none, some, List, ◌==◌, ltb, if◌then◌else◌, retain,
  length, nat_ord,
}
use keep_afloat_d.BTreeMap
use keep_afloat_d.BTreeMap.{BTreeMap}
use keep_afloat_d.Addr.{IpAddr, ip_ord}
use keep_afloat_d.VipLogic.Eligibility.{is_node_probe_fresh}
use keep_afloat_d.VipLogic.Reconcile.{VipAssignment}

pub record BindGates : Type 0 where
  pub has_leader : Bool
  pub local_healthy : Bool
  pub consensus_fresh : Bool

unfoldable pub all_open : BindGates → Bool
all_open gates = gates.has_leader && gates.local_healthy && gates.consensus_fresh

-- `activated_generation == Some(generation)`
abbrev pub is_activated : Option ℕ → ℕ → Bool
is_activated none generation = false
is_activated (some activated) generation = activated == generation

-- The `match` on `assignment.previous_holder`.
unfoldable pub is_fence_lifted : Option ℕ → Bool → BTreeMap ℕ ℕ → ℕ → ℕ → Bool
is_fence_lifted none released node_probe_ticks latest_probe_tick stale_missed_probes = true
is_fence_lifted (some previous_holder) released node_probe_ticks latest_probe_tick
      stale_missed_probes =
    if released
    then true
    else not
        (is_node_probe_fresh previous_holder node_probe_ticks latest_probe_tick stale_missed_probes)

unfoldable pub should_bind_or_keep_vip :
    BindGates → ℕ → Option VipAssignment → BTreeMap ℕ ℕ → ℕ → ℕ → Option ℕ → Bool
unfolding all_open is_fence_lifted
should_bind_or_keep_vip gates node_id none node_probe_ticks latest_probe_tick stale_missed_probes
      activated_generation =
    false
should_bind_or_keep_vip gates node_id (some a) node_probe_ticks latest_probe_tick
      stale_missed_probes activated_generation =
    if not (all_open gates)
    then false
    else if not (a.holder == node_id) || ltb latest_probe_tick a.activation_tick
    then false
    else if is_activated activated_generation a.generation
    then true
    else is_fence_lifted a.previous_holder a.previous_holder_released node_probe_ticks
        latest_probe_tick stale_missed_probes

unfoldable pub should_bind_vip :
    Bool → Bool → Bool → ℕ → Option VipAssignment → BTreeMap ℕ ℕ → ℕ → ℕ → Bool
unfolding should_bind_or_keep_vip
should_bind_vip has_leader local_healthy consensus_fresh node_id assignment node_probe_ticks
      latest_probe_tick stale_missed_probes =
    should_bind_or_keep_vip
      (record {
        has_leader = has_leader;
        local_healthy = local_healthy;
        consensus_fresh = consensus_fresh;
      })
      node_id assignment node_probe_ticks latest_probe_tick stale_missed_probes none

-- The two counting helpers, `should_bind_vip` above and `binder_count_for_vip`, are in test builds only;
-- both wrap the decision of the daemon.

-- `map.get(&id).unwrap_or(&false)`
abbrev pub reported : BTreeMap ℕ Bool → ℕ → Bool
reported per_node node_id = BTreeMap.get_or per_node node_id false

unfoldable pub binder_count_for_vip :
    Bool
    → IpAddr
    → BTreeMap IpAddr VipAssignment
    → List ℕ
    → BTreeMap ℕ Bool
    → BTreeMap ℕ Bool
    → BTreeMap ℕ ℕ
    → ℕ
    → ℕ
    → ℕ
unfolding should_bind_vip
binder_count_for_vip has_leader vip assignments peer_ids_sorted local_healthy_per_node
      consensus_fresh_per_node node_probe_ticks latest_probe_tick stale_missed_probes =
    length (
      retain
        (λ nid.
          should_bind_vip has_leader (reported local_healthy_per_node nid)
            (reported consensus_fresh_per_node nid) nid (BTreeMap.get assignments vip)
            node_probe_ticks latest_probe_tick stale_missed_probes)
        peer_ids_sorted)
