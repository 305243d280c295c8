-- ===== src/VipLogic/Reconcile/Slots.antt =====
-- The reconciliation, seen from one VIP: its slot in the three committed maps takes one step.
use keep_afloat_d.Prelude.{
  ℕ, true, false, Option, none, some, List, [], ◌∷◌, ◌≡◌, refl, ◌∙◌, ap, if◌then◌else◌, arith,
  saturating_add, same, unwrap_or, Bool-cases, inl, inr, subst,
}
use keep_afloat_d.BTreeMap
use keep_afloat_d.BTreeMap.{BTreeMap}
use keep_afloat_d.BTreeMap.Laws.{get-insert, get-insert_self, get-remove}
use keep_afloat_d.BTreeSet
use keep_afloat_d.BTreeSet.Distinct.{IsDistinct}
use keep_afloat_d.Addr.{IpAddr, ip_ord}
use keep_afloat_d.VipLogic.Reconcile.{
  VipAssignment, Fences, assignment_for, bumps, remember, settle, reconcile_one, reconcile_from,
  reconcile_vip_assignments,
}

pub record Slot : Type 0 where
  pub assignment : Option VipAssignment
  pub generation : Option ℕ
  pub last_holder : Option ℕ

-- Who held the VIP last, the current assignment included.
abbrev pub prior : Slot → Option ℕ
prior s = elim s.assignment [ none ↦ s.last_holder | some a ↦ some a.holder ]

-- One reconciliation of one VIP.
abbrev pub slot_step : Option ℕ → ℕ → Slot → Slot
slot_step none tick s = record {
  assignment = none;
  generation = s.generation;
  last_holder = prior s;
}
slot_step (some holder) tick s = record {
  assignment = some (assignment_for s.assignment holder (unwrap_or s.generation 0) (prior s) tick);
  generation =
      if bumps s.assignment holder
      then some (saturating_add (unwrap_or s.generation 0) 1)
      else s.generation;
  last_holder = some holder;
}

-- A slot that the pass has not reached keeps its assignment in `assignments`, a reached one in `next`.
abbrev pub before : IpAddr → Fences → Slot
before w f = record {
  assignment = BTreeMap.get f.assignments w;
  generation = BTreeMap.get f.generation w;
  last_holder = BTreeMap.get f.last_holder w;
}

abbrev pub after : IpAddr → Fences → Slot
after w f = record {
  assignment = BTreeMap.get f.next w;
  generation = BTreeMap.get f.generation w;
  last_holder = BTreeMap.get f.last_holder w;
}

get-remember :
    (old : Option VipAssignment) (vip w : IpAddr) (m : BTreeMap IpAddr ℕ)
    → BTreeMap.get (remember old vip m) w ≡ (
        if same w vip
        then (elim old [ none ↦ BTreeMap.get m w | some a ↦ some a.holder ])
        else BTreeMap.get m w)
unfolding remember
get-remember none vip w m = ground arith
get-remember (some a) vip w m = get-insert m vip w a.holder

-- A round touches no slot but that of its VIP.
settle_ne :
    (next : Option ℕ) (old : Option VipAssignment) (tick : ℕ) (vip w : IpAddr) (f : Fences)
    → same w vip ≡ false
    → (before w (settle next old tick vip f) ≡ before w f)
      × (after w (settle next old tick vip f) ≡ after w f)
unfolding settle
settle_ne none old tick vip w f h =
    let removed = get-remove f.assignments vip w in
    let kept = get-remember old vip w f.last_holder in
    (ground (arith, removed, kept), ground (arith, kept))
settle_ne (some holder) old tick vip w f h =
    let removed = get-remove f.assignments vip w in
    let kept = get-remember old vip w f.last_holder in
    let held = get-insert (remember old vip f.last_holder) vip w holder in
    let counted =
      get-insert f.generation vip w (saturating_add (BTreeMap.get_or f.generation vip 0) 1) in
    let placed = get-insert f.next vip w (
      assignment_for old holder (BTreeMap.get_or f.generation vip 0)
        (BTreeMap.get (remember old vip f.last_holder) vip) tick) in
    (ground (arith, removed, kept, held, counted), ground (arith, kept, held, counted, placed))

settle_self :
    (next : Option ℕ) (tick : ℕ) (w : IpAddr) (f : Fences)
    → BTreeMap.get f.next w ≡ none
    → after w (settle next (BTreeMap.get f.assignments w) tick w f)
      ≡ slot_step next tick (before w f)
unfolding settle
settle_self none tick w f h =
    ground (arith, get-remember (BTreeMap.get f.assignments w) w w f.last_holder, ip_ord.cmp_refl w)
settle_self (some holder) tick w f h =
    let old = BTreeMap.get f.assignments w in
    let last = remember old w f.last_holder in
    let generation = BTreeMap.get_or f.generation w 0 in
    let kept : BTreeMap.get last w ≡ prior (before w f) =
      ground (arith, get-remember old w w f.last_holder, ip_ord.cmp_refl w) in
    let placed =
      get-insert_self f.next w (assignment_for old holder generation (BTreeMap.get last w) tick) in
    let held = get-insert_self last w holder in
    let counted = get-insert_self f.generation w (saturating_add generation 1) in
    rw (placed, held, kept)
      (elim (Bool-cases (bumps old holder)) [ inl e ↦ rw (e, counted) refl | inr e ↦ rw e refl ])

module _ (new_holders : BTreeMap IpAddr ℕ) (tick : ℕ) where
  one_ne :
      (vip w : IpAddr) (f : Fences)
      → same w vip ≡ false
      → (before w (reconcile_one new_holders tick vip f) ≡ before w f)
        × (after w (reconcile_one new_holders tick vip f) ≡ after w f)
  unfolding reconcile_one
  one_ne vip w f h =
      settle_ne (BTreeMap.get new_holders vip) (BTreeMap.get f.assignments vip) tick vip w f h

  one_self :
      (w : IpAddr) (f : Fences)
      → BTreeMap.get f.next w ≡ none
      → after w (reconcile_one new_holders tick w f)
        ≡ slot_step (BTreeMap.get new_holders w) tick (before w f)
  unfolding reconcile_one
  one_self w f h = settle_self (BTreeMap.get new_holders w) tick w f h

  from_cons :
      (vip : IpAddr) (vips : List IpAddr) (f : Fences)
      → reconcile_from new_holders tick (vip ∷ vips) f
        ≡ reconcile_from new_holders tick vips (reconcile_one new_holders tick vip f)
  unfolding reconcile_from
  from_cons vip vips f = refl

  from_nil : (f : Fences) → reconcile_from new_holders tick [] f ≡ f
  unfolding reconcile_from
  from_nil f = refl

  -- The pass touches no slot of a VIP that is not listed.
  from_ne :
      (vips : List IpAddr) (w : IpAddr) (f : Fences)
      → BTreeSet.contains vips w ≡ false
      → after w (reconcile_from new_holders tick vips f) ≡ after w f
  unfolding BTreeSet.contains
  from_ne [] w f h = ap (after w) (from_nil f)
  from_ne (vip ∷ vips) w f h =
      ap (after w) (from_cons vip vips f)
      ∙ from_ne vips w (reconcile_one new_holders tick vip f) (ground arith)
      ∙ (one_ne vip w f (ground arith)).1

  -- The slot of a listed VIP takes one step.
  from_self :
      (vips : List IpAddr) (w : IpAddr) (f : Fences)
      → IsDistinct vips
      → BTreeSet.contains vips w ≡ true
      → BTreeMap.get f.next w ≡ none
      → after w (reconcile_from new_holders tick vips f)
        ≡ slot_step (BTreeMap.get new_holders w) tick (before w f)
  unfolding BTreeSet.contains
  from_self [] w f d h u = ground arith
  from_self (vip ∷ vips) w f d h u = elim (Bool-cases (same w vip)) [
    | inl e ↦
        let here : w ≡ vip = ip_ord.eq_of_cmp w vip (ground arith) in
        ap (after w) (from_cons vip vips f)
        ∙ from_ne vips w (reconcile_one new_holders tick vip f) (rw here d.0)
        ∙ subst
            (λ v.
              after w (reconcile_one new_holders tick v f)
              ≡ slot_step (BTreeMap.get new_holders w) tick (before w f))
            here (one_self w f u)
    | inr e ↦
        let g = reconcile_one new_holders tick vip f in
        let (old, new) = one_ne vip w f e in
        ap (after w) (from_cons vip vips f)
        ∙ from_self vips w g d.1 (ground arith) (ap (λ (s : Slot). s.assignment) new ∙ u)
        ∙ ap (slot_step (BTreeMap.get new_holders w) tick) old
  ]

-- The slot of `w` in the three committed maps.
abbrev pub slot :
    IpAddr → BTreeMap IpAddr VipAssignment → BTreeMap IpAddr ℕ → BTreeMap IpAddr ℕ → Slot
slot w assignments generation last_holder = record {
  assignment = BTreeMap.get assignments w;
  generation = BTreeMap.get generation w;
  last_holder = BTreeMap.get last_holder w;
}

-- A VIP that is not listed loses its assignment and keeps its history.
abbrev pub unlisted : Slot → Slot
unlisted s = record s { assignment = none }

-- For a list of VIPs without duplicates: the three maps that the reconciliation gives read, at each VIP, as
-- one `slot_step` of what they read before if it is listed, whatever the others do, and as the same without
-- the assignment if it is not.
pub reconcile-slot :
    (new_holders : BTreeMap IpAddr ℕ) (tick : ℕ) (vips : List IpAddr)
    (assignments : BTreeMap IpAddr VipAssignment) (generation last_holder : BTreeMap IpAddr ℕ)
    → IsDistinct vips
    → (w : IpAddr)
    → before w (reconcile_vip_assignments new_holders tick vips assignments generation last_holder)
      ≡ (if BTreeSet.contains vips w
          then slot_step
              (BTreeMap.get new_holders w)
              tick
              (slot w assignments generation last_holder)
          else unlisted (slot w assignments generation last_holder))
unfolding reconcile_vip_assignments
reconcile-slot new_holders tick vips assignments generation last_holder d w =
    elim (Bool-cases (BTreeSet.contains vips w)) [
      | inl e ↦ rw e (from_self new_holders tick vips w f d e nothing)
      | inr e ↦ rw e (
          from_ne new_holders tick vips w f e
          ∙ ap (λ a. record (slot w assignments generation last_holder) { assignment = a }) nothing)
    ]
  where
    f : Fences
    f = record {
      next = [];
      assignments = assignments;
      generation = generation;
      last_holder = last_holder;
    }

    nothing : BTreeMap.get f.next w ≡ none
    nothing = unfold BTreeMap.get in refl
