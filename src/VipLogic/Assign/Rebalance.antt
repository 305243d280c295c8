-- ===== src/VipLogic/Assign/Rebalance.antt =====
-- Pass 3: what a round does, that the loop ends by its own break, and what holds when it has.
use keep_afloat_d.Prelude.{
  ℕ, ◌+◌, ◌-◌, ◌≤◌, true, false, some, List, ◌≡◌, leb, arith, nat_ord, last?, Option-cases, inl,
  inr,
}
use keep_afloat_d.BTreeMap
use keep_afloat_d.BTreeMap.{BTreeMap}
use keep_afloat_d.BTreeMap.Order.{retain-IsSorted, get-retain}
use keep_afloat_d.BTreeSet
use keep_afloat_d.BTreeSet.{BTreeSet}
use keep_afloat_d.BTreeSet.Laws.{contains-last}
use keep_afloat_d.Addr.{IpAddr, ip_ord}
use keep_afloat_d.VipLogic.Assign.{
  Placement, move, rebalance_step, most_loaded_node, least_loaded_node,
}
use keep_afloat_d.VipLogic.Assign.Extreme.{extreme-mem}
use keep_afloat_d.VipLogic.Assign.Consistent.{IsConsistent}

-- The loads of the nodes that may receive.
abbrev pub receiver_load : BTreeSet ℕ → Placement → BTreeMap ℕ ℕ
receiver_load receivers p =
    BTreeMap.retain (λ node_id _. BTreeSet.contains receivers node_id) p.load

-- What is known of a round that moves `vip` from `donor` to `recv`.
pub record Moved (eligible : List ℕ) (receivers : BTreeSet ℕ) (p q : Placement) : Type 0 where
  pub donor : ℕ
  pub recv : ℕ
  pub d : ℕ
  pub r : ℕ
  pub vip : IpAddr
  pub donor_set : BTreeSet IpAddr
  pub result : q ≡ move p vip donor recv
  pub donor_load : BTreeMap.get p.load donor ≡ some d
  pub recv_load : BTreeMap.get p.load recv ≡ some r
  pub gap : r + 2 ≤ d
  pub has : BTreeMap.get p.held donor ≡ some donor_set
  pub bound : BTreeMap.get p.out vip ≡ some donor
  pub known : BTreeSet.contains eligible recv ≡ true
  pub receives : BTreeSet.contains receivers recv ≡ true

module _ (eligible : List ℕ) (receivers : BTreeSet ℕ) (p q : Placement)
    (v : IsConsistent eligible p) where
  Moved-at :
      (donor recv : ℕ × ℕ) (donor_set : BTreeSet IpAddr) (vip : IpAddr)
      → most_loaded_node p.load ≡ some donor
      → least_loaded_node (receiver_load receivers p) ≡ some recv
      → leb (donor.1 - recv.1) 1 ≡ false
      → BTreeMap.get p.held donor.0 ≡ some donor_set
      → last? donor_set ≡ some vip
      → q ≡ move p vip donor.0 recv.0
      → Moved eligible receivers p q
  unfolding most_loaded_node least_loaded_node
  Moved-at (donor, d) (recv, r) donor_set vip most least gap has last e =
      let in_load = extreme-mem _ p.load donor d v.load_sorted most in
      let in_receivers =
        extreme-mem _ (receiver_load receivers p) recv r
          (retain-IsSorted (λ node_id _. BTreeSet.contains receivers node_id) p.load v.load_sorted)
          least in
      let kept =
        get-retain (λ node_id _. BTreeSet.contains receivers node_id) p.load recv v.load_sorted in
      record {
        donor = donor;
        recv = recv;
        d = d;
        r = r;
        vip = vip;
        donor_set = donor_set;
        result = e;
        donor_load = in_load;
        recv_load = ground (arith, kept, in_receivers);
        gap = ground arith;
        has = has;
        bound = ground (arith, v.listed donor vip, contains-last donor_set vip last);
        known = ground (arith, kept, in_receivers, v.domain recv);
        receives = ground (arith, kept, in_receivers);
      }

  -- A round that does not break is such a move.
  pub rebalance_step-Moved : rebalance_step receivers p ≡ some q → Moved eligible receivers p q
  unfolding rebalance_step
  rebalance_step-Moved h = elim (Option-cases (most_loaded_node p.load)) [
    | inl e ↦ absurd (ground arith)
    | inr (donor, most) ↦ elim (Option-cases (least_loaded_node (receiver_load receivers p))) [
      | inl e ↦ absurd (ground arith)
      | inr (recv, least) ↦ elim (Option-cases (BTreeMap.get p.held donor.0)) [
        | inl e ↦ absurd (ground arith)
        | inr (donor_set, has) ↦ elim (Option-cases (last? donor_set)) [
          | inl e ↦ absurd (ground arith)
          | inr (vip, last) ↦
              Moved-at donor recv donor_set vip most least (ground arith) has last (ground arith)
        ]
      ]
    ]
  ]
