-- ===== src/VipLogic/Assign.antt =====
-- `assign_vips_minimal_movement_with_receivers` of src/raft/store/vip_logic.rs, its three passes as
-- functions of their own over the three maps that they share.
pub mod Extreme
pub mod Consistent
pub mod Rebalance
pub mod Loop
pub mod Balance
pub mod Passes
pub mod Start
pub mod Contract
pub mod Stable
use keep_afloat_d.Prelude.{
  ℕ, zero, suc, ◌+◌, ◌-◌, ◌*◌, Bool, true, false, not, Option, none, some, List, [], ◌∷◌, ◌++◌, map,
  leb, if◌then◌else◌, saturating_sub, last?, sort_unstable, ◌>>=◌, ◌>>◌, guard, nat_ord,
}
use keep_afloat_d.BTreeMap
use keep_afloat_d.BTreeMap.{BTreeMap}
use keep_afloat_d.BTreeMap.Sums.{sum_values}
use keep_afloat_d.BTreeSet
use keep_afloat_d.BTreeSet.{BTreeSet}
use keep_afloat_d.Addr.{IpAddr, ip_ord}

-- The working state: the result `out`, the load of each eligible node and the VIPs that it holds.
pub record Placement : Type 0 where
  pub out : BTreeMap IpAddr ℕ
  pub load : BTreeMap ℕ ℕ
  pub held : BTreeMap ℕ (BTreeSet IpAddr)

-- The loop of `extreme_loaded_node` from `best`.
unfoldable pub extreme_from : (ℕ → ℕ → Bool) → BTreeMap ℕ ℕ → Option (ℕ × ℕ) → Option (ℕ × ℕ)
extreme_from keep_current [] best = best
extreme_from keep_current ((id, l) ∷ load) best = extreme_from keep_current load (elim best [
  | none ↦ some (id, l)
  | some (b, bl) ↦ if keep_current l bl then some (b, bl) else some (id, l)
])

unfoldable pub extreme_loaded_node : BTreeMap ℕ ℕ → (ℕ → ℕ → Bool) → Option (ℕ × ℕ)
unfolding extreme_from
extreme_loaded_node load keep_current = extreme_from keep_current load none

unfoldable pub least_loaded_node : BTreeMap ℕ ℕ → Option (ℕ × ℕ)
unfolding extreme_loaded_node
least_loaded_node load = extreme_loaded_node load (λ l bl. leb bl l)

unfoldable pub most_loaded_node : BTreeMap ℕ ℕ → Option (ℕ × ℕ)
unfolding extreme_loaded_node
most_loaded_node load = extreme_loaded_node load (λ l bl. leb l bl)

-- Record `vip` on `node`, in all three maps.
unfoldable pub place : Placement → IpAddr → ℕ → Placement
place p vip node = record {
  out = BTreeMap.insert p.out vip node;
  load = BTreeMap.insert p.load node (BTreeMap.get_or p.load node 0 + 1);
  held = BTreeMap.insert p.held node (BTreeSet.insert (BTreeMap.get_or p.held node []) vip);
}

-- Pass 1, one VIP: it stays where it is if its holder is still eligible.
unfoldable pub keep_one :
    BTreeSet ℕ → BTreeMap IpAddr ℕ → IpAddr → Placement × List IpAddr → Placement × List IpAddr
unfolding place
keep_one eligible_set current_holders vip (p, orphans) = elim (BTreeMap.get current_holders vip) [
  | none ↦ (p, orphans ++ vip ∷ [])
  | some holder ↦
      if BTreeSet.contains eligible_set holder
      then (place p vip holder, orphans)
      else (p, orphans ++ vip ∷ [])
]

unfoldable pub keep_holders :
    BTreeSet ℕ → BTreeMap IpAddr ℕ → List IpAddr → Placement × List IpAddr → Placement × List IpAddr
unfolding keep_one
keep_holders eligible_set current_holders [] acc = acc
keep_holders eligible_set current_holders (vip ∷ vips) acc =
    keep_holders eligible_set current_holders vips (keep_one eligible_set current_holders vip acc)

-- Pass 2: each orphan goes to the least loaded node.
unfoldable pub place_orphans : List IpAddr → Placement → Placement
unfolding place least_loaded_node
place_orphans [] p = p
place_orphans (vip ∷ orphans) p = elim (least_loaded_node p.load) [
  | none ↦ p
  | some (target, _) ↦ place_orphans orphans (place p vip target)
]

-- One VIP goes from `donor` to `recv`.
unfoldable pub move : Placement → IpAddr → ℕ → ℕ → Placement
move p vip donor recv =
    let held : BTreeMap ℕ (BTreeSet IpAddr) = elim (BTreeMap.get p.held donor) [
      | none ↦ p.held
      | some donor_set ↦ BTreeMap.insert p.held donor (BTreeSet.remove donor_set vip)
    ] in
    let load : BTreeMap ℕ ℕ = elim (BTreeMap.get p.load donor) [
      | none ↦ p.load
      | some d ↦ BTreeMap.insert p.load donor (d - 1)
    ] in
    record {
      out = BTreeMap.insert p.out vip recv;
      load = BTreeMap.insert load recv (BTreeMap.get_or load recv 0 + 1);
      held = BTreeMap.insert held recv (BTreeSet.insert (BTreeMap.get_or held recv []) vip);
    }

-- The body of the loop of pass 3; `none` is one of its breaks.
unfoldable pub rebalance_step : BTreeSet ℕ → Placement → Option Placement
unfolding most_loaded_node least_loaded_node move
rebalance_step receiver_set p = do
  donor ← most_loaded_node p.load
  recv ←
      least_loaded_node
        (BTreeMap.retain (λ node_id _. BTreeSet.contains receiver_set node_id) p.load)
  guard (not (leb (saturating_sub donor.1 recv.1) 1))
  donor_set ← BTreeMap.get p.held donor.0
  vip ← last? donor_set
  some (move p vip donor.0 recv.0)

unfoldable pub rebalance : ℕ → BTreeSet ℕ → Placement → Placement
unfolding rebalance_step
rebalance zero receiver_set p = p
rebalance (suc fuel) receiver_set p = elim (rebalance_step receiver_set p) [
  | none ↦ p
  | some next ↦ rebalance fuel receiver_set next
]

abbrev pub square : ℕ → ℕ
square n = n * n

-- The sum of the squared loads falls with every move, so it bounds the rounds of pass 3.
abbrev pub rounds : Placement → ℕ
rounds p = suc (sum_values square p.load)

-- `eligible.iter().map(|&id| (id, 0)).collect()`
unfoldable pub zero_load : List ℕ → BTreeMap ℕ ℕ
zero_load [] = []
zero_load (id ∷ eligible) = BTreeMap.insert (zero_load eligible) id 0

-- Passes 1 and 2.
unfoldable pub place_all : List ℕ → List IpAddr → BTreeMap IpAddr ℕ → Placement
unfolding zero_load keep_holders place_orphans
place_all eligible vips_sorted current_holders =
    let (p, orphans) =
      keep_holders (BTreeSet.collect eligible) current_holders vips_sorted
        (record { out = []; load = zero_load eligible; held = [] }, []) in
    place_orphans orphans p

unfoldable pub assign_vips_minimal_movement_with_receivers :
    List ℕ → List ℕ → List IpAddr → BTreeMap IpAddr ℕ → BTreeMap IpAddr ℕ
unfolding place_all rebalance
assign_vips_minimal_movement_with_receivers [] receivers vips current_holders = []
assign_vips_minimal_movement_with_receivers (id ∷ ids) receivers vips current_holders =
    let p = place_all (id ∷ ids) (sort_unstable vips) current_holders in
    (rebalance (rounds p) (BTreeSet.collect receivers) p).out

unfoldable pub assign_vips_minimal_movement :
    List ℕ → List IpAddr → BTreeMap IpAddr ℕ → BTreeMap IpAddr ℕ
unfolding assign_vips_minimal_movement_with_receivers
assign_vips_minimal_movement eligible vips current_holders =
    assign_vips_minimal_movement_with_receivers eligible eligible vips current_holders
