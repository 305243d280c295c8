-- ===== src/VipLogic/Assign/Consistent.antt =====
-- The three maps of a placement agree, and `place` and `move` keep them so.
use keep_afloat_d.Prelude.{
  ℕ, ◌+◌, ◌-◌, Bool, true, false, Option, none, some, List, [], ◌≡◌, ◌≢◌, ◌==◌, if◌then◌else◌,
  arith, nat_ord, same_iff,
}
use keep_afloat_d.BTreeMap
use keep_afloat_d.BTreeMap.{BTreeMap}
use keep_afloat_d.BTreeMap.Laws.{get-insert}
use keep_afloat_d.BTreeMap.Order.{IsSorted, insert-IsSorted}
use keep_afloat_d.BTreeMap.Sums.{sum_values, sum_values-insert}
use keep_afloat_d.BTreeSet
use keep_afloat_d.BTreeSet.{BTreeSet}
use keep_afloat_d.BTreeSet.Laws.{contains-insert, contains-remove}
use keep_afloat_d.Addr.{IpAddr, ip_ord}
use keep_afloat_d.VipLogic.Assign.{Placement, place, move}

abbrev pub is_node : ℕ → ℕ → ℕ
is_node n holder = if holder == n then 1 else 0

-- How many VIPs of `out` node `n` holds.
abbrev pub holds : ℕ → BTreeMap IpAddr ℕ → ℕ
holds n out = sum_values (is_node n) out

abbrev pub is_holder : Option ℕ → ℕ → Bool
is_holder none n = false
is_holder (some holder) n = holder == n

pub record IsConsistent (eligible : List ℕ) (p : Placement) : Type 0 where
  pub out_sorted : IsSorted p.out
  pub load_sorted : IsSorted p.load
  -- a node's load is the number of VIPs that `out` gives it
  pub counted : (n : ℕ) → BTreeMap.get_or p.load n 0 ≡ holds n p.out
  -- the nodes of `load` are the eligible ones
  pub domain : (n : ℕ) → BTreeMap.contains_key p.load n ≡ BTreeSet.contains eligible n
  -- a node's set holds exactly the VIPs that `out` gives it
  pub listed :
      (n : ℕ) (v : IpAddr)
      → BTreeSet.contains (BTreeMap.get_or p.held n []) v ≡ is_holder (BTreeMap.get p.out v) n

module _ (eligible : List ℕ) (p : Placement) (v : IsConsistent eligible p) (vip : IpAddr) where
  pub place-IsConsistent :
      (node : ℕ)
      → BTreeMap.get p.out vip ≡ none
      → BTreeSet.contains eligible node ≡ true
      → IsConsistent eligible (place p vip node)
  unfolding place
  place-IsConsistent node fresh known = record {
    out_sorted = insert-IsSorted p.out vip node v.out_sorted;
    load_sorted = insert-IsSorted p.load node _ v.load_sorted;
    counted = λ n. ground (
      arith,
      get-insert p.load node n (BTreeMap.get_or p.load node 0 + 1),
      v.counted n,
      v.counted node,
      sum_values-insert (is_node n) p.out vip node v.out_sorted,
    );
    domain = λ n.
        ground (arith, get-insert p.load node n (BTreeMap.get_or p.load node 0 + 1), v.domain n);
    listed = λ n w. ground (
      arith,
      get-insert p.out vip w node,
      get-insert p.held node n (BTreeSet.insert (BTreeMap.get_or p.held node []) vip),
      contains-insert (BTreeMap.get_or p.held node []) vip w,
      v.listed n w,
      v.listed node w,
      same_iff w vip,
    );
  }

  module _ (donor recv d : ℕ) (donor_set : BTreeSet IpAddr)
      (loaded : BTreeMap.get p.load donor ≡ some d) (bound : BTreeMap.get p.out vip ≡ some donor)
      (has : BTreeMap.get p.held donor ≡ some donor_set)
      (known : BTreeSet.contains eligible recv ≡ true) (apart : donor ≢ recv) where
    move-counted :
        (n : ℕ)
        → BTreeMap.get_or (move p vip donor recv).load n 0 ≡ holds n (move p vip donor recv).out
    unfolding move
    move-counted n =
        let load = BTreeMap.insert p.load donor (d - 1) in
        ground (
          arith,
          get-insert p.load donor n (d - 1),
          get-insert p.load donor recv (d - 1),
          get-insert load recv n (BTreeMap.get_or load recv 0 + 1),
          v.counted n,
          v.counted recv,
          sum_values-insert (is_node n) p.out vip recv v.out_sorted,
        )

    move-listed :
        (n : ℕ) (w : IpAddr)
        → BTreeSet.contains (BTreeMap.get_or (move p vip donor recv).held n []) w
          ≡ is_holder (BTreeMap.get (move p vip donor recv).out w) n
    unfolding move
    move-listed n w =
        let held = BTreeMap.insert p.held donor (BTreeSet.remove donor_set vip) in
        ground (
          arith,
          get-insert p.out vip w recv,
          get-insert p.held donor n (BTreeSet.remove donor_set vip),
          get-insert p.held donor recv (BTreeSet.remove donor_set vip),
          get-insert held recv n (BTreeSet.insert (BTreeMap.get_or held recv []) vip),
          contains-insert (BTreeMap.get_or held recv []) vip w,
          contains-remove donor_set vip w,
          v.listed n w,
          v.listed recv w,
          v.listed donor w,
          same_iff w vip,
        )

    pub move-IsConsistent : IsConsistent eligible (move p vip donor recv)
    unfolding move
    move-IsConsistent = record {
      out_sorted = insert-IsSorted p.out vip recv v.out_sorted;
      load_sorted =
          rw loaded (insert-IsSorted _ recv _ (insert-IsSorted p.load donor (d - 1) v.load_sorted));
      counted = move-counted;
      domain = λ n.
          let load = BTreeMap.insert p.load donor (d - 1) in
          ground (
            arith,
            get-insert p.load donor n (d - 1),
            get-insert load recv n (BTreeMap.get_or load recv 0 + 1),
            v.domain n,
          );
      listed = move-listed;
    }
