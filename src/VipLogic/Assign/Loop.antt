-- ===== src/VipLogic/Assign/Loop.antt =====
-- The loop of pass 3 ends by its own break, and what holds when it has ended.
use keep_afloat_d.Prelude.{
  ℕ, zero, suc, ◌+◌, ◌-◌, ◌*◌, ◌≤◌, ◌<◌, none, some, List, ◌≡◌, ◌≢◌, refl, arith, nat_ord,
  Option-cases, inl, inr,
}
use keep_afloat_d.BTreeMap
use keep_afloat_d.BTreeMap.{BTreeMap}
use keep_afloat_d.BTreeMap.Laws.{get-insert}
use keep_afloat_d.BTreeMap.Order.{insert-IsSorted}
use keep_afloat_d.BTreeMap.Sums.{sum_values, sum_values-insert}
use keep_afloat_d.BTreeSet.{BTreeSet}
use keep_afloat_d.Addr.{ip_ord}
use keep_afloat_d.VipLogic.Assign.{Placement, move, rebalance_step, rebalance, square}
use keep_afloat_d.VipLogic.Assign.Consistent.{IsConsistent, move-IsConsistent}
use keep_afloat_d.VipLogic.Assign.Rebalance.{Moved, rebalance_step-Moved}

square-suc : (n : ℕ) → square (n + 1) ≡ square n + 2 * n + 1
square-suc n = omega arith

-- Moving one unit over a gap of two or more lowers the sum of the squares.
squares_fall : (d r : ℕ) → r + 2 ≤ d → square (d - 1) + square (r + 1) < square d + square r
squares_fall d r h =
    let e : square d ≡ square (d - 1) + 2 * (d - 1) + 1 =
      rw (← square-suc (d - 1)) (ap_square d (omega arith)) in
    omega (arith, square-suc r, e)
  where
    ap_square : (d : ℕ) → 1 ≤ d → square d ≡ square (d - 1 + 1)
    ap_square d h = let k : d - 1 + 1 ≡ d = omega arith in rw k

module _ (eligible : List ℕ) (receivers : BTreeSet ℕ) where
  Moved-apart : (p q : Placement) (m : Moved eligible receivers p q) → m.donor ≢ m.recv
  Moved-apart p q m e =
      let l = rw e at m.donor_load in absurd (ground (arith, l, m.recv_load, m.gap))

  pub Moved-IsConsistent :
      (p q : Placement)
      → IsConsistent eligible p
      → Moved eligible receivers p q
      → IsConsistent eligible q
  Moved-IsConsistent p q v m = rw m.result (
      move-IsConsistent eligible p v m.vip m.donor m.recv m.d m.donor_set m.donor_load m.bound m.has
        m.known (Moved-apart p q m))

  -- Every round lowers the sum of the squared loads.
  pub Moved-measure :
      (p q : Placement)
      → IsConsistent eligible p
      → Moved eligible receivers p q
      → sum_values square q.load < sum_values square p.load
  unfolding move
  Moved-measure p q v m =
      let load = BTreeMap.insert p.load m.donor (m.d - 1) in
      let first = sum_values-insert square p.load m.donor (m.d - 1) v.load_sorted in
      let second =
        sum_values-insert square load m.recv (m.r + 1)
          (insert-IsSorted p.load m.donor _ v.load_sorted) in
      ground (
        arith,
        first,
        second,
        squares_fall m.d m.r m.gap,
        m.result,
        m.donor_load,
        m.recv_load,
        Moved-apart p q m,
        get-insert p.load m.donor m.recv (m.d - 1),
      )

  rebalance_break :
      (fuel : ℕ) (p : Placement)
      → rebalance_step receivers p ≡ none
      → rebalance (suc fuel) receivers p ≡ p
  unfolding rebalance
  rebalance_break fuel p e = rw (e, rebalance)

  rebalance_next :
      (fuel : ℕ) (p q : Placement)
      → rebalance_step receivers p ≡ some q
      → rebalance (suc fuel) receivers p ≡ rebalance fuel receivers q
  unfolding rebalance
  rebalance_next fuel p q e = rw (e, rebalance)

  rebalance-zero : (p : Placement) → rebalance zero receivers p ≡ p
  unfolding rebalance
  rebalance-zero p = refl

  -- Whatever a round keeps, the loop keeps.
  pub rebalance_inv {κ} :
      (P : Placement → Type κ)
      → ((p q : Placement) → IsConsistent eligible p → Moved eligible receivers p q → P p → P q)
      → (fuel : ℕ) (p : Placement) → IsConsistent eligible p
      → P p
      → IsConsistent eligible (rebalance fuel receivers p) × P (rebalance fuel receivers p)
  rebalance_inv P keep zero p v h = rw (rebalance-zero p) (v, h)
  rebalance_inv P keep (suc fuel) p v h = elim (Option-cases (rebalance_step receivers p)) [
    | inl e ↦ rw (rebalance_break fuel p e) (v, h)
    | inr (q, e) ↦
        let m = rebalance_step-Moved eligible receivers p q v e in
        rw (rebalance_next fuel p q e)
          (rebalance_inv P keep fuel q (Moved-IsConsistent p q v m) (keep p q v m h))
  ]

  -- With more fuel than the sum of the squared loads, the loop ends by a break of its body.
  pub rebalance_stops :
      (fuel : ℕ) (p : Placement)
      → IsConsistent eligible p
      → sum_values square p.load < fuel
      → rebalance_step receivers (rebalance fuel receivers p) ≡ none
  rebalance_stops zero p v h = absurd (omega arith)
  rebalance_stops (suc fuel) p v h = elim (Option-cases (rebalance_step receivers p)) [
    | inl e ↦ rw (rebalance_break fuel p e) e
    | inr (q, e) ↦
        let m = rebalance_step-Moved eligible receivers p q v e in
        rw (rebalance_next fuel p q e) (
          rebalance_stops fuel q (Moved-IsConsistent p q v m)
            (omega (arith, Moved-measure p q v m)))
  ]

  -- A placement that needs no round is left as it is.
  pub rebalance_fixed :
      (fuel : ℕ) (p : Placement)
      → rebalance_step receivers p ≡ none
      → rebalance fuel receivers p ≡ p
  rebalance_fixed zero p e = rebalance-zero p
  rebalance_fixed (suc fuel) p e = rebalance_break fuel p e
