-- ===== src/VipLogic/Assign/Stable.antt =====
-- An assignment that is complete, eligible and even is left as it is.
use keep_afloat_d.Prelude.{
  ℕ, ◌+◌, ◌≤◌, true, none, some, List, ◌∷◌, ◌≡◌, ◌∙◌, sym, ap, arith, nat_ord, Option-cases, inl,
  inr, is_some, sort_unstable,
}
use keep_afloat_d.BTreeMap
use keep_afloat_d.BTreeMap.{BTreeMap}
use keep_afloat_d.BTreeMap.Order.{IsSorted, eq_of_get, get-retain, retain-IsSorted}
use keep_afloat_d.BTreeSet
use keep_afloat_d.BTreeSet.{BTreeSet}
use keep_afloat_d.BTreeSet.Laws.{contains-collect}
use keep_afloat_d.BTreeSet.Distinct.{IsDistinct, contains-sort, sort-IsDistinct}
use keep_afloat_d.Addr.{IpAddr, ip_ord}
use keep_afloat_d.VipLogic.Assign.{
  Placement, place_all, rebalance_step, rounds, most_loaded_node, least_loaded_node,
  assign_vips_minimal_movement_with_receivers,
}
use keep_afloat_d.VipLogic.Assign.Consistent.{IsConsistent, holds}
use keep_afloat_d.VipLogic.Assign.Extreme.{most-mem, least-mem}
use keep_afloat_d.VipLogic.Assign.Rebalance.{receiver_load}
use keep_afloat_d.VipLogic.Assign.Loop.{rebalance_fixed}
use keep_afloat_d.VipLogic.Assign.Start.{AllPlaced, place_all-AllPlaced}
use keep_afloat_d.VipLogic.Assign.Contract.{assign_complete, assign_balanced, assigned-IsSorted}

-- Loads within one of each other leave no round.
balanced_stops :
    (eligible receivers : BTreeSet ℕ) (p : Placement)
    → IsConsistent eligible p
    → ((a b : ℕ)
        → BTreeSet.contains eligible a ≡ true
        → BTreeSet.contains eligible b ≡ true
        → BTreeSet.contains receivers b ≡ true
        → holds a p.out ≤ holds b p.out + 1)
    → rebalance_step receivers p ≡ none
balanced_stops eligible receivers p v even = elim (Option-cases (most_loaded_node p.load)) [
  | inl e ↦ unfold rebalance_step in ground arith
  | inr ((donor, d), most) ↦ elim (Option-cases (least_loaded_node (receiver_load receivers p))) [
    | inl e ↦ unfold rebalance_step in ground arith
    | inr ((recv, r), least) ↦
        let kept =
          get-retain (λ node_id _. BTreeSet.contains receivers node_id) p.load recv v.load_sorted in
        let given = most-mem p.load donor d v.load_sorted most in
        let taken =
          least-mem (receiver_load receivers p) recv r
            (retain-IsSorted (λ node_id _. BTreeSet.contains receivers node_id) p.load
              v.load_sorted)
            least in
        let gap : d ≤ r + 1 = ground (
          arith,
          kept,
          given,
          taken,
          v.counted donor,
          v.counted recv,
          v.domain donor,
          v.domain recv,
          even donor recv,
        ) in
        unfold rebalance_step in ground arith
  ]
]

module _ (id : ℕ) (ids receivers : List ℕ) (vips : List IpAddr) (distinct : IsDistinct vips) where
  -- A map that is already complete, on eligible nodes and even is returned unchanged.
  pub assign_fixed :
      (current : BTreeMap IpAddr ℕ)
      → IsSorted current
      → ((w : IpAddr) → is_some (BTreeMap.get current w) ≡ BTreeSet.contains vips w)
      → ((w : IpAddr) (n : ℕ)
          → BTreeMap.get current w ≡ some n
          → BTreeSet.contains (id ∷ ids) n ≡ true)
      → ((a b : ℕ)
          → BTreeSet.contains (id ∷ ids) a ≡ true
          → BTreeSet.contains (id ∷ ids) b ≡ true
          → BTreeSet.contains receivers b ≡ true
          → holds a current ≤ holds b current + 1)
      → assign_vips_minimal_movement_with_receivers (id ∷ ids) receivers vips current ≡ current
  unfolding assign_vips_minimal_movement_with_receivers
  assign_fixed current sorted domain eligible even =
      ap (λ (p : Placement). p.out)
        (rebalance_fixed (BTreeSet.collect (id ∷ ids)) takers (rounds first) first stops)
      ∙ same_map
    where
      takers : BTreeSet ℕ
      takers = BTreeSet.collect receivers

      first : Placement
      first = place_all (id ∷ ids) (sort_unstable vips) current

      placed : AllPlaced (id ∷ ids) (sort_unstable vips) current first
      placed =
          place_all-AllPlaced id ids current (sort_unstable vips) (sort-IsDistinct vips distinct)

      reads : (w : IpAddr) → BTreeMap.get first.out w ≡ BTreeMap.get current w
      reads w = elim (Option-cases (BTreeMap.get current w)) [
        | inl e ↦ ground (arith, domain w, placed.domain w, contains-sort vips w)
        | inr (n, e) ↦
            placed.kept w n (ground (arith, domain w, contains-sort vips w))
              (ground (arith, eligible w n e, contains-collect (id ∷ ids) n))
            ∙ sym e
      ]

      same_map : first.out ≡ current
      same_map = eq_of_get first.out current placed.consistent.out_sorted sorted reads

      stops : rebalance_step takers first ≡ none
      stops =
          balanced_stops (BTreeSet.collect (id ∷ ids)) takers first placed.consistent
            (λ a b in_a in_b takes. rw same_map (
              even a b (sym (contains-collect (id ∷ ids) a) ∙ in_a)
                (sym (contains-collect (id ∷ ids) b) ∙ in_b)
                (sym (contains-collect receivers b) ∙ takes)))

  -- For a list of VIPs without duplicates and at least one eligible node: assigning again from the result,
  -- with the same nodes and receivers, moves nothing.
  pub assign_idempotent :
      (current : BTreeMap IpAddr ℕ)
      → let once = assign_vips_minimal_movement_with_receivers (id ∷ ids) receivers vips current in
        assign_vips_minimal_movement_with_receivers (id ∷ ids) receivers vips once ≡ once
  assign_idempotent current =
      assign_fixed (assign_vips_minimal_movement_with_receivers (id ∷ ids) receivers vips current)
        (assigned-IsSorted id ids receivers vips current distinct)
        (λ w. (assign_complete id ids receivers vips current distinct w).0)
        (λ w. (assign_complete id ids receivers vips current distinct w).1)
        (assign_balanced id ids receivers vips current distinct)
