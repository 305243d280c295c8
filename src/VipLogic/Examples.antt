-- ===== src/VipLogic/Examples.antt =====
-- Runs of the assignment and of the reconciliation on small inputs, and instances of their theorems.
use keep_afloat_d.Prelude.{
  ℕ, ◌+◌, ◌≤◌, true, false, none, some, List, [], ◌∷◌, ◌≡◌, ◌⊎◌, refl, nat_ord, sort_unstable,
  is_some,
}
use keep_afloat_d.BTreeMap.{BTreeMap, get, insert}
use keep_afloat_d.BTreeMap
use keep_afloat_d.BTreeSet
use keep_afloat_d.BTreeSet.Distinct.{IsDistinct}
use keep_afloat_d.Addr.{IpAddr, v4, ip_ord}
use keep_afloat_d.VipLogic.Assign.{
  assign_vips_minimal_movement, assign_vips_minimal_movement_with_receivers, rebalance_step,
  rebalance, place_all, rounds,
}
use keep_afloat_d.VipLogic.Assign.Consistent.{holds}
use keep_afloat_d.VipLogic.Assign.Contract.{
  assign_complete, assign_balanced, assign_moves, last_stops,
}
use keep_afloat_d.VipLogic.Assign.Stable.{assign_idempotent}
use keep_afloat_d.VipLogic.Reconcile.{VipAssignment, reconcile_vip_assignments}
use keep_afloat_d.VipLogic.Reconcile.Slots.{Slot, slot_step, before, reconcile-slot}

abbrev vips : List IpAddr
vips = v4 20 ∷ v4 10 ∷ v4 30 ∷ v4 40 ∷ []

vips-IsDistinct : IsDistinct vips
unfolding BTreeSet.contains ip_ord
vips-IsDistinct = (refl, (refl, (refl, (refl, tt))))

-- All of them on node 2.
abbrev crowded : BTreeMap IpAddr ℕ
crowded = (v4 10, 2) ∷ (v4 20, 2) ∷ (v4 30, 2) ∷ (v4 40, 2) ∷ []

abbrev spread : BTreeMap IpAddr ℕ
spread = assign_vips_minimal_movement_with_receivers (1 ∷ 2 ∷ 3 ∷ []) (1 ∷ 3 ∷ []) vips crowded

five_nodes_cold_start :
    assign_vips_minimal_movement (1 ∷ 2 ∷ 3 ∷ 4 ∷ 5 ∷ []) vips []
    ≡ (v4 10, 1) ∷ (v4 20, 2) ∷ (v4 30, 3) ∷ (v4 40, 4) ∷ []
unfolding assign_vips_minimal_movement BTreeMap.insert BTreeMap.get BTreeSet.contains
    BTreeSet.insert BTreeSet.remove BTreeSet.collect BTreeMap.retain sort_unstable ip_ord
five_nodes_cold_start = refl

node_returns :
    assign_vips_minimal_movement
      (1 ∷ 2 ∷ 4 ∷ 5 ∷ [])
      vips
      ((v4 10, 1) ∷ (v4 20, 5) ∷ (v4 30, 1) ∷ (v4 40, 4) ∷ [])
    ≡ (v4 10, 1) ∷ (v4 20, 5) ∷ (v4 30, 2) ∷ (v4 40, 4) ∷ []
unfolding assign_vips_minimal_movement BTreeMap.insert BTreeMap.get BTreeSet.contains
    BTreeSet.insert BTreeSet.remove BTreeSet.collect BTreeMap.retain sort_unstable ip_ord
node_returns = refl

assign_complete_example :
    (is_some (BTreeMap.get spread (v4 30)) ≡ BTreeSet.contains vips (v4 30))
    × ((n : ℕ) → BTreeMap.get spread (v4 30) ≡ some n → BTreeSet.contains (1 ∷ 2 ∷ 3 ∷ []) n ≡ true)
assign_complete_example =
    assign_complete 1 (2 ∷ 3 ∷ []) (1 ∷ 3 ∷ []) vips crowded vips-IsDistinct (v4 30)

assign_balanced_example : holds 2 spread ≤ holds 3 spread + 1
unfolding BTreeSet.contains
assign_balanced_example =
    assign_balanced 1 (2 ∷ 3 ∷ []) (1 ∷ 3 ∷ []) vips crowded vips-IsDistinct 2 3 refl refl refl

assign_moves_example :
    (BTreeMap.get spread (v4 40) ≡ some 2)
    ⊎ ((r : ℕ) × (BTreeMap.get spread (v4 40) ≡ some r) × (BTreeSet.contains (1 ∷ 3 ∷ []) r ≡ true))
unfolding BTreeSet.contains BTreeMap.get ip_ord
assign_moves_example =
    assign_moves 1 (2 ∷ 3 ∷ []) (1 ∷ 3 ∷ []) vips crowded vips-IsDistinct (v4 40) 2 refl refl refl

last_stops_example :
    let first = place_all (1 ∷ 2 ∷ 3 ∷ []) (sort_unstable vips) crowded in
    rebalance_step
      (BTreeSet.collect (1 ∷ 3 ∷ []))
      (rebalance (rounds first) (BTreeSet.collect (1 ∷ 3 ∷ [])) first)
    ≡ none
last_stops_example = last_stops 1 (2 ∷ 3 ∷ []) (1 ∷ 3 ∷ []) vips crowded vips-IsDistinct

assign_idempotent_example :
    assign_vips_minimal_movement_with_receivers (1 ∷ 2 ∷ 3 ∷ []) (1 ∷ 3 ∷ []) vips spread ≡ spread
assign_idempotent_example =
    assign_idempotent 1 (2 ∷ 3 ∷ []) (1 ∷ 3 ∷ []) vips vips-IsDistinct crowded

-- The VIP 10 is on node 2, in generation 3.
abbrev held : VipAssignment
held = record {
  holder = 2;
  generation = 3;
  previous_holder = none;
  previous_holder_released = false;
  activation_tick = 5;
}

abbrev held_slot : Slot
held_slot = record { assignment = some held; generation = some 3; last_holder = some 2 }

reconcile-slot_example :
    before (v4 10) (
      reconcile_vip_assignments
        ((v4 10, 1) ∷ [])
        9
        vips
        ((v4 10, held) ∷ [])
        ((v4 10, 3) ∷ [])
        ((v4 10, 2) ∷ []))
    ≡ slot_step (some 1) 9 held_slot
unfolding BTreeSet.contains BTreeMap.get ip_ord
reconcile-slot_example =
    reconcile-slot ((v4 10, 1) ∷ []) 9 vips ((v4 10, held) ∷ []) ((v4 10, 3) ∷ []) ((v4 10, 2) ∷ [])
      vips-IsDistinct (v4 10)
