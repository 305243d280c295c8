-- ===== src/VipLogic/Assign/Balance.antt =====
-- Where no round is left, the loads differ by at most one.
use keep_afloat_d.Prelude.{
  ℕ, ◌+◌, ◌-◌, ◌≤◌, ◌<◌, true, none, some, List, [], ◌∷◌, ◌≡◌, ◌==◌, arith, nat_ord, last?,
  Option-cases, Bool-cases, inl, inr, leb,
}
use keep_afloat_d.BTreeMap
use keep_afloat_d.BTreeMap.{BTreeMap}
use keep_afloat_d.BTreeMap.Order.{IsSorted, get-retain, get_below}
use keep_afloat_d.BTreeSet
use keep_afloat_d.BTreeSet.{BTreeSet}
use keep_afloat_d.BTreeSet.Laws.{last-contains}
use keep_afloat_d.Addr.{IpAddr, ip_ord}
use keep_afloat_d.VipLogic.Assign.{Placement, rebalance_step, most_loaded_node, least_loaded_node}
use keep_afloat_d.VipLogic.Assign.Extreme.{
  AtMost-get, AtLeast-get, least-AtLeast, most-AtMost, most-mem, least-is_some, most-is_some,
}
use keep_afloat_d.VipLogic.Assign.Consistent.{IsConsistent, holds}
use keep_afloat_d.VipLogic.Assign.Rebalance.{receiver_load}

-- A node that holds something is the holder of some VIP.
held_of_holds :
    (n : ℕ) (out : BTreeMap IpAddr ℕ)
    → IsSorted out
    → 0 < holds n out
    → (vip : IpAddr) × (BTreeMap.get out vip ≡ some n)
unfolding BTreeMap.get
held_of_holds n [] s h = absurd (omega arith)
held_of_holds n ((k, v) ∷ out) s h = elim (Bool-cases (v == n)) [
  | inl here ↦ (k, ground (arith, ip_ord.cmp_refl k))
  | inr elsewhere ↦
      let (vip, found) = held_of_holds n out s.1 (ground arith) in
      (vip, ground (arith, found, get_below out k s.0, ip_ord.eq_of_cmp vip k))
]

module _ (eligible : List ℕ) (receivers : BTreeSet ℕ) (p : Placement)
    (v : IsConsistent eligible p) where
  -- So a donor with two VIPs has a last one to give.
  donor_gives :
      (n : ℕ)
      → 0 < holds n p.out
      → (set : BTreeSet IpAddr) × (vip : IpAddr) × (BTreeMap.get p.held n ≡ some set)
        × (last? set ≡ some vip)
  unfolding BTreeSet.contains
  donor_gives n h =
      let (bound, found) = held_of_holds n p.out v.out_sorted h in
      elim (Option-cases (BTreeMap.get p.held n)) [
        | inl e ↦ absurd (ground (arith, v.listed n bound, found, e))
        | inr (set, e) ↦
            let (vip, last) = last-contains set bound (ground (arith, v.listed n bound)) in
            (set, vip, e, last)
      ]

  receiver_load-key :
      (b : ℕ)
      → BTreeSet.contains eligible b ≡ true
      → BTreeSet.contains receivers b ≡ true
      → (BTreeMap.contains_key (receiver_load receivers p) b ≡ true)
        × (BTreeMap.get_or (receiver_load receivers p) b 0 ≡ holds b p.out)
  receiver_load-key b in_b takes =
      let kept =
        get-retain (λ node_id _. BTreeSet.contains receivers node_id) p.load b v.load_sorted in
      (ground (arith, kept, v.domain b), ground (arith, kept, v.domain b, v.counted b))

  -- A round is left while the gap is two or more.
  gap_closed :
      (donor d recv r : ℕ)
      → most_loaded_node p.load ≡ some (donor, d)
      → least_loaded_node (receiver_load receivers p) ≡ some (recv, r)
      → rebalance_step receivers p ≡ none
      → d ≤ r + 1
  gap_closed donor d recv r most least stop = elim (Bool-cases (leb (d - r) 1)) [
    | inl e ↦ ground arith
    | inr e ↦
        let loaded = most-mem p.load donor d v.load_sorted most in
        let (set, vip, has, last) = donor_gives donor (ground (arith, v.counted donor)) in
        absurd (unfold rebalance_step in ground arith)
  ]

  -- A break of the loop leaves no eligible node more than one VIP above a receiver.
  pub stop_balanced :
      (a b : ℕ)
      → rebalance_step receivers p ≡ none
      → BTreeSet.contains eligible a ≡ true
      → BTreeSet.contains eligible b ≡ true
      → BTreeSet.contains receivers b ≡ true
      → holds a p.out ≤ holds b p.out + 1
  stop_balanced a b stop in_a in_b takes =
      let (key, reads) = receiver_load-key b in_b takes in
      elim (Option-cases (most_loaded_node p.load)) [
        | inl e ↦ absurd (ground (arith, most-is_some p.load a, v.domain a))
        | inr ((donor, d), most) ↦
            elim (Option-cases (least_loaded_node (receiver_load receivers p))) [
              | inl e ↦ absurd (ground (arith, least-is_some (receiver_load receivers p) b))
              | inr ((recv, r), least) ↦
                  let low = AtLeast-get r _ b (least-AtLeast _ recv r least) key in
                  let high = AtMost-get d p.load a (most-AtMost _ donor d most) in
                  omega (
                    arith,
                    low,
                    high,
                    reads,
                    v.counted a,
                    gap_closed donor d recv r most least stop,
                  )
            ]
      ]
