-- ===== src/VipLogic/Assign/Contract.antt =====
-- What `assign_vips_minimal_movement_with_receivers` promises.
use keep_afloat_d.Prelude.{
  ℕ, ◌+◌, ◌≤◌, true, Option, none, some, List, ◌∷◌, ◌≡◌, refl, ◌∙◌, sym, arith, nat_ord, inl, inr,
  is_some, if◌then◌else◌, ◌⊎◌, sort_unstable, Bool-cases, same,
}
use keep_afloat_d.BTreeMap
use keep_afloat_d.BTreeMap.{BTreeMap}
use keep_afloat_d.BTreeMap.Laws.{get-insert}
use keep_afloat_d.BTreeMap.Order.{IsSorted}
use keep_afloat_d.BTreeMap.Sums.{weigh-le-sum_values}
use keep_afloat_d.BTreeSet
use keep_afloat_d.BTreeSet.{BTreeSet}
use keep_afloat_d.BTreeSet.Laws.{contains-collect}
use keep_afloat_d.BTreeSet.Distinct.{IsDistinct, contains-sort, sort-IsDistinct}
use keep_afloat_d.Addr.{IpAddr, ip_ord}
use keep_afloat_d.VipLogic.Assign.{
  Placement, move, place_all, rebalance, rebalance_step, rounds,
  assign_vips_minimal_movement_with_receivers,
}
use keep_afloat_d.VipLogic.Assign.Consistent.{IsConsistent, holds, is_node}
use keep_afloat_d.VipLogic.Assign.Rebalance.{Moved}
use keep_afloat_d.VipLogic.Assign.Loop.{rebalance_inv, rebalance_stops}
use keep_afloat_d.VipLogic.Assign.Balance.{stop_balanced}
use keep_afloat_d.VipLogic.Assign.Start.{AllPlaced, place_all-AllPlaced}

-- A holder in `out` is an eligible node.
pub holder-eligible :
    (eligible : BTreeSet ℕ) (p : Placement)
    → IsConsistent eligible p
    → (w : IpAddr) (n : ℕ) → BTreeMap.get p.out w ≡ some n
    → BTreeSet.contains eligible n ≡ true
holder-eligible eligible p v w n h =
    ground (arith, weigh-le-sum_values (is_node n) p.out w, v.counted n, v.domain n)

-- Where `vip` stood after the first two passes, or on a receiver.
abbrev pub KeptOrReceived : BTreeSet ℕ → Option ℕ → Option ℕ → Type 0
KeptOrReceived receivers before after =
    (after ≡ before) ⊎ ((r : ℕ) × (after ≡ some r) × (BTreeSet.contains receivers r ≡ true))

module _ (id : ℕ) (ids receivers : List ℕ) (vips : List IpAddr) (current : BTreeMap IpAddr ℕ)
    (distinct : IsDistinct vips) where
  abbrev pub sorted : List IpAddr
  sorted = sort_unstable vips

  abbrev pub first : Placement
  first = place_all (id ∷ ids) sorted current

  abbrev pub takers : BTreeSet ℕ
  takers = BTreeSet.collect receivers

  abbrev pub nodes : BTreeSet ℕ
  nodes = BTreeSet.collect (id ∷ ids)

  first-AllPlaced : AllPlaced (id ∷ ids) sorted current first
  first-AllPlaced = place_all-AllPlaced id ids current sorted (sort-IsDistinct vips distinct)

  abbrev pub last : Placement
  last = rebalance (rounds first) takers first

  -- What the rounds keep, seen from the first two passes.
  pub record Rebalanced (p : Placement) : Type 0 where
    pub domain : (w : IpAddr) → is_some (BTreeMap.get p.out w) ≡ BTreeSet.contains vips w
    pub came :
        (w : IpAddr) → KeptOrReceived takers (BTreeMap.get first.out w) (BTreeMap.get p.out w)

  get-Moved :
      (p q : Placement) (m : Moved nodes takers p q) (w : IpAddr)
      → BTreeMap.get q.out w ≡ (if same w m.vip then some m.recv else BTreeMap.get p.out w)
  unfolding move
  get-Moved p q m w = rw m.result (get-insert p.out m.vip w m.recv)

  Rebalanced-Moved :
      (p q : Placement)
      → IsConsistent nodes p
      → Moved nodes takers p q
      → Rebalanced p
      → Rebalanced q
  Rebalanced-Moved p q v m h = record {
    domain = λ w.
        ground
          (arith, get-Moved p q m w, h.domain w, h.domain m.vip, m.bound, ip_ord.eq_of_cmp w m.vip);
    came = came;
  }
    where
      came : (w : IpAddr) → KeptOrReceived takers (BTreeMap.get first.out w) (BTreeMap.get q.out w)
      came w = elim (Bool-cases (same w m.vip)) [
        | inl e ↦ inr (m.recv, ground (arith, get-Moved p q m w), m.receives)
        | inr e ↦
            let still : BTreeMap.get q.out w ≡ BTreeMap.get p.out w =
              ground (arith, get-Moved p q m w) in
            rw still (h.came w)
      ]

  last-Rebalanced : IsConsistent nodes last × Rebalanced last
  last-Rebalanced =
      rebalance_inv nodes takers Rebalanced Rebalanced-Moved (rounds first) first
        first-AllPlaced.consistent
        (record {
          domain = λ w. first-AllPlaced.domain w ∙ contains-sort vips w;
          came = λ w. inl refl;
        })

  -- For a list of VIPs without duplicates and at least one eligible node, the fuel that the rebalancing is given is enough: where it ends,
  -- the body of the loop breaks.
  pub last_stops : rebalance_step takers last ≡ none
  last_stops =
      rebalance_stops nodes takers (rounds first) first first-AllPlaced.consistent (omega arith)

  abbrev pub assigned : BTreeMap IpAddr ℕ
  assigned = assign_vips_minimal_movement_with_receivers (id ∷ ids) receivers vips current

  assigned_last : assigned ≡ last.out
  unfolding assign_vips_minimal_movement_with_receivers
  assigned_last = refl

  pub assigned-IsSorted : IsSorted assigned
  assigned-IsSorted = rw assigned_last last-Rebalanced.0.out_sorted

  -- For a list of VIPs without duplicates and at least one eligible node: every listed VIP, and no other,
  -- is given a holder, and that holder is eligible.
  pub assign_complete :
      (w : IpAddr)
      → (is_some (BTreeMap.get assigned w) ≡ BTreeSet.contains vips w)
        × ((n : ℕ) → BTreeMap.get assigned w ≡ some n → BTreeSet.contains (id ∷ ids) n ≡ true)
  assign_complete w = rw assigned_last (
    last-Rebalanced.1.domain w,
    λ n h. sym (contains-collect (id ∷ ids) n) ∙ holder-eligible nodes last last-Rebalanced.0 w n h,
  )

  -- For a list of VIPs without duplicates and at least one eligible node: no eligible node holds more than one VIP more than an eligible
  -- receiver.
  pub assign_balanced :
      (a b : ℕ)
      → BTreeSet.contains (id ∷ ids) a ≡ true
      → BTreeSet.contains (id ∷ ids) b ≡ true
      → BTreeSet.contains receivers b ≡ true
      → holds a assigned ≤ holds b assigned + 1
  assign_balanced a b in_a in_b takes = rw assigned_last (
      stop_balanced nodes takers last last-Rebalanced.0 a b last_stops
        (contains-collect (id ∷ ids) a ∙ in_a) (contains-collect (id ∷ ids) b ∙ in_b)
        (contains-collect receivers b ∙ takes))

  -- In a list of VIPs without duplicates, a listed VIP whose current holder is eligible stays there or goes
  -- to a receiver.
  pub assign_moves :
      (w : IpAddr) (n : ℕ)
      → BTreeSet.contains vips w ≡ true
      → BTreeMap.get current w ≡ some n
      → BTreeSet.contains (id ∷ ids) n ≡ true
      → (BTreeMap.get assigned w ≡ some n)
        ⊎ ((r : ℕ) × (BTreeMap.get assigned w ≡ some r) × (BTreeSet.contains receivers r ≡ true))
  assign_moves w n listed held eligible =
      let stay : BTreeMap.get first.out w ≡ some n =
        first-AllPlaced.kept w n (contains-sort vips w ∙ listed)
          (ground (arith, held, contains-collect (id ∷ ids) n)) in
      rw assigned_last (elim (last-Rebalanced.1.came w) [
        | inl e ↦ inl (e ∙ stay)
        | inr (r, e, takes) ↦ inr (r, e, sym (contains-collect receivers r) ∙ takes)
      ])
