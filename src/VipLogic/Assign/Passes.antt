-- ===== src/VipLogic/Assign/Passes.antt =====
-- Passes 1 and 2: what the placement reads after them.
use keep_afloat_d.Prelude.{
  ℕ, true, false, not, Option, none, some, List, [], ◌∷◌, ◌++◌, ◌≡◌, refl, ◌∙◌, arith, nat_ord,
  Option-cases, inl, inr, is_some, if◌then◌else◌, retain, same,
}
use mathlib.Core.List.{append-nil, append_assoc}
use keep_afloat_d.BTreeMap
use keep_afloat_d.BTreeMap.{BTreeMap}
use keep_afloat_d.BTreeMap.Laws.{get-insert}
use keep_afloat_d.BTreeSet
use keep_afloat_d.BTreeSet.{BTreeSet}
use keep_afloat_d.BTreeSet.Distinct.{IsDistinct}
use keep_afloat_d.Addr.{IpAddr, ip_ord}
use keep_afloat_d.VipLogic.Assign.{
  Placement, place, keep_one, keep_holders, place_orphans, least_loaded_node,
}
use keep_afloat_d.VipLogic.Assign.Extreme.{least-is_some, least-mem}
use keep_afloat_d.VipLogic.Assign.Consistent.{IsConsistent, place-IsConsistent}

-- Where `vip` stays: at its current holder, if that is eligible.
abbrev pub stays : List ℕ → Option ℕ → Option ℕ
stays eligible none = none
stays eligible (some h) = if BTreeSet.contains eligible h then some h else none

get-place :
    (p : Placement) (vip w : IpAddr) (node : ℕ)
    → BTreeMap.get (place p vip node).out w
      ≡ (if same w vip then some node else BTreeMap.get p.out w)
unfolding place
get-place p vip w node = get-insert p.out vip w node

-- No VIP of the list has a holder in `out` yet.
abbrev pub Unplaced : List IpAddr → Placement → Type 0
Unplaced [] p = Unit
Unplaced (vip ∷ vips) p = (BTreeMap.get p.out vip ≡ none) × Unplaced vips p

Unplaced-place :
    (vips : List IpAddr) (p : Placement) (vip : IpAddr) (node : ℕ)
    → BTreeSet.contains vips vip ≡ false
    → Unplaced vips p
    → Unplaced vips (place p vip node)
unfolding BTreeSet.contains
Unplaced-place [] p vip node h u = tt
Unplaced-place (w ∷ vips) p vip node h u = ground (
  arith,
  Unplaced-place vips p vip node,
  get-place p vip w node,
  ip_ord.eq_of_cmp w vip,
  ip_ord.cmp_refl w,
)

module _ (eligible : BTreeSet ℕ) (current : BTreeMap IpAddr ℕ) where
  -- The VIPs that pass 1 leaves over, in order.
  abbrev pub left_over : List IpAddr → List IpAddr
  left_over vips = retain (λ vip. not (is_some (stays eligible (BTreeMap.get current vip)))) vips

  keep_one_orphan :
      (vip : IpAddr) (p : Placement) (os : List IpAddr)
      → stays eligible (BTreeMap.get current vip) ≡ none
      → keep_one eligible current vip (p, os) ≡ (p, os ++ vip ∷ [])
  unfolding keep_one
  keep_one_orphan vip p os h = ground arith

  keep_one-stays :
      (vip : IpAddr) (p : Placement) (os : List IpAddr) (node : ℕ)
      → stays eligible (BTreeMap.get current vip) ≡ some node
      → keep_one eligible current vip (p, os) ≡ (place p vip node, os)
  unfolding keep_one
  keep_one-stays vip p os node h = ground arith

  pub stays-contains :
      (vip : IpAddr) (node : ℕ)
      → stays eligible (BTreeMap.get current vip) ≡ some node
      → BTreeSet.contains eligible node ≡ true
  stays-contains vip node h = ground arith

  keep_holders-nil : (acc : Placement × List IpAddr) → keep_holders eligible current [] acc ≡ acc
  unfolding keep_holders
  keep_holders-nil acc = refl

  keep_holders-cons :
      (vip : IpAddr) (vips : List IpAddr) (acc : Placement × List IpAddr)
      → keep_holders eligible current (vip ∷ vips) acc
        ≡ keep_holders eligible current vips (keep_one eligible current vip acc)
  unfolding keep_holders
  keep_holders-cons vip vips acc = refl

  -- What pass 1 makes of `p` and `os`.
  pub record Kept (vips os : List IpAddr) (p : Placement) (r : Placement × List IpAddr)
      : Type 0 where
    pub consistent : IsConsistent eligible r.0
    pub reads :
        (w : IpAddr)
        → BTreeMap.get r.0.out w ≡ (
            if BTreeSet.contains vips w
            then stays eligible (BTreeMap.get current w)
            else BTreeMap.get p.out w)
    pub left : r.1 ≡ os ++ left_over vips

  pub keep_holders-Kept :
      (vips os : List IpAddr) (p : Placement)
      → IsDistinct vips
      → Unplaced vips p
      → IsConsistent eligible p
      → Kept vips os p (keep_holders eligible current vips (p, os))
  unfolding BTreeSet.contains
  keep_holders-Kept [] os p d u v =
      rw (keep_holders-nil (p, os))
        (record { consistent = v; reads = λ w. refl; left = rw append-nil })
  keep_holders-Kept (vip ∷ vips) os p d u v =
      rw (keep_holders-cons vip vips (p, os))
        (elim (Option-cases (stays eligible (BTreeMap.get current vip))) [
          | inl e ↦
              let k = keep_holders-Kept vips (os ++ vip ∷ []) p d.1 u.1 v in
              rw (keep_one_orphan vip p os e) (record {
                consistent = k.consistent;
                reads = λ w. ground (arith, k.reads w, ip_ord.eq_of_cmp w vip, d.0, u.0);
                left = rw e (k.left ∙ append_assoc os (vip ∷ []) (left_over vips));
              })
          | inr (node, e) ↦
              let in_set = stays-contains vip node e in
              let k =
                keep_holders-Kept vips os (place p vip node) d.1
                  (Unplaced-place vips p vip node d.0 u.1)
                  (place-IsConsistent eligible p v vip node u.0 in_set) in
              rw (keep_one-stays vip p os node e) (record {
                consistent = k.consistent;
                reads = λ w.
                    ground
                      (arith, k.reads w, get-place p vip w node, ip_ord.eq_of_cmp w vip, d.0, u.0);
                left = rw e k.left;
              })
        ])

module _ (eligible : BTreeSet ℕ) (id : ℕ) (nonempty : BTreeSet.contains eligible id ≡ true) where
  -- A node to receive an orphan is always found, and it is eligible.
  target_found :
      (p : Placement)
      → IsConsistent eligible p
      → (t : ℕ × ℕ) × (least_loaded_node p.load ≡ some t) × (BTreeSet.contains eligible t.0 ≡ true)
  target_found p v = elim (Option-cases (least_loaded_node p.load)) [
    | inl e ↦ absurd (ground (arith, least-is_some p.load id, v.domain id))
    | inr ((t, l), e) ↦
        ((t, l), e, ground (arith, least-mem p.load t l v.load_sorted e, v.domain t))
  ]

  place_orphans-nil : (p : Placement) → place_orphans [] p ≡ p
  unfolding place_orphans
  place_orphans-nil p = refl

  place_orphans-cons :
      (vip : IpAddr) (os : List IpAddr) (p : Placement) (t : ℕ × ℕ)
      → least_loaded_node p.load ≡ some t
      → place_orphans (vip ∷ os) p ≡ place_orphans os (place p vip t.0)
  unfolding place_orphans
  place_orphans-cons vip os p t e = rw (e, place_orphans)

  -- What pass 2 makes of `p`.
  pub record Placed (os : List IpAddr) (p r : Placement) : Type 0 where
    pub consistent : IsConsistent eligible r
    pub old :
        (w : IpAddr) → BTreeSet.contains os w ≡ false → BTreeMap.get r.out w ≡ BTreeMap.get p.out w
    pub new : (w : IpAddr) → BTreeSet.contains os w ≡ true → is_some (BTreeMap.get r.out w) ≡ true

  pub place_orphans-Placed :
      (os : List IpAddr) (p : Placement)
      → IsDistinct os
      → Unplaced os p
      → IsConsistent eligible p
      → Placed os p (place_orphans os p)
  unfolding BTreeSet.contains
  place_orphans-Placed [] p d u v =
      rw (place_orphans-nil p)
        (record { consistent = v; old = λ w h. refl; new = λ w h. ground arith })
  place_orphans-Placed (vip ∷ os) p d u v =
      let (t, found, in_set) = target_found p v in
      let k =
        place_orphans-Placed os (place p vip t.0) d.1 (Unplaced-place os p vip t.0 d.0 u.1)
          (place-IsConsistent eligible p v vip t.0 u.0 in_set) in
      rw (place_orphans-cons vip os p t found) (record {
        consistent = k.consistent;
        old = λ w h. ground (arith, k.old w, get-place p vip w t.0, ip_ord.eq_of_cmp w vip);
        new = λ w h. ground (
          arith,
          k.new w,
          k.old w,
          get-place p vip w t.0,
          ip_ord.eq_of_cmp w vip,
          ip_ord.cmp_refl w,
        );
      })
