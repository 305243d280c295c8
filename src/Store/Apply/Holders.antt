-- ===== src/Store/Apply/Holders.antt =====
-- Who holds a VIP after a recomputation.
use keep_afloat_d.Prelude.{
  ℕ, Bool, true, false, Option, none, some, List, [], ◌∷◌, ◌≡◌, refl, ◌∙◌, ap, sym, arith, nat_ord,
  sort_unstable,
}
use keep_afloat_d.BTreeMap
use keep_afloat_d.BTreeMap.{BTreeMap}
use keep_afloat_d.BTreeSet
use keep_afloat_d.BTreeSet.{BTreeSet}
use keep_afloat_d.BTreeSet.Distinct.{IsDistinct, contains-retain, contains-sort}
use keep_afloat_d.Addr.{IpAddr, ip_ord}
use keep_afloat_d.VipLogic.Eligibility.{EligibilityInputs, is_node_eligible, is_node_base_eligible}
use keep_afloat_d.VipLogic.Assign.{
  assign_vips_minimal_movement, assign_vips_minimal_movement_with_receivers,
}
use keep_afloat_d.VipLogic.Assign.Contract.{assign_complete}
use keep_afloat_d.VipLogic.Reconcile.{VipAssignment}
use keep_afloat_d.VipLogic.Reconcile.Slots.{Slot, slot_step, unlisted}
use keep_afloat_d.Store.OpenRaft.{OpenRaft}
use keep_afloat_d.Store.State.{KafStorageState, legacy, v2, FailoverSemantics}
use keep_afloat_d.Store.Membership.{unique_voters}
use keep_afloat_d.Store.Machine.{eligibility_inputs, is_alive}
use keep_afloat_d.Store.Machine.Frame.{vips_of}
use keep_afloat_d.Store.Recompute.{addresses, eligible_nodes, new_holders, fences}
use keep_afloat_d.Store.Apply.Fencing.{either_slot, fences-slot, slot_of}

contains-keys :
    {A : Type 0} (m : BTreeMap ℕ A) (n : ℕ)
    → BTreeSet.contains (BTreeMap.keys m) n ≡ BTreeMap.contains_key m n
unfolding BTreeSet.contains BTreeMap.get
contains-keys [] n = refl
contains-keys ((k, a) ∷ m) n = ground (arith, contains-keys m n)

assigned-eligible :
    (eligible receivers : List ℕ) (vips : List IpAddr) (current : BTreeMap IpAddr ℕ) (w : IpAddr)
    (n : ℕ)
    → IsDistinct vips
    → BTreeMap.get (assign_vips_minimal_movement_with_receivers eligible receivers vips current) w
      ≡ some n
    → BTreeSet.contains eligible n ≡ true
unfolding assign_vips_minimal_movement_with_receivers BTreeMap.get
assigned-eligible [] receivers vips current w n d h = ground arith
assigned-eligible (id ∷ ids) receivers vips current w n d h =
    (assign_complete id ids receivers vips current d w).1 n h

step-holder :
    (next : Option ℕ) (tick : ℕ) (s : Slot) (a : VipAssignment)
    → (slot_step next tick s).assignment ≡ some a
    → next ≡ some a.holder
step-holder none tick s a h = ground arith
step-holder (some n) tick s a h = ground arith

either-holder :
    (b : Bool) (next : Option ℕ) (tick : ℕ) (s : Slot) (a : VipAssignment)
    → (either_slot b (slot_step next tick s) (unlisted s)).assignment ≡ some a
    → next ≡ some a.holder
either-holder true next tick s a h = step-holder next tick s a h
either-holder false next tick s a h = ground arith

eligible-base :
    (n : ℕ) (i : EligibilityInputs) (blocked : BTreeSet ℕ)
    → is_node_eligible n i blocked ≡ true
    → is_node_base_eligible n i.node_health i.node_probe_ticks i.latest_probe_tick
        i.stale_missed_probes
      ≡ true
unfolding is_node_eligible
eligible-base n i blocked h = ground arith

-- The maps of the two semantics, by the one in force.
legacy-map :
    (f : FailoverSemantics) (x y : BTreeMap IpAddr ℕ)
    → f ≡ legacy
    → (elim f [ legacy ↦ x | v2 ↦ y ]) ≡ x
legacy-map legacy x y e = refl
legacy-map v2 x y e = ground arith

v2-map :
    (f : FailoverSemantics) (x y : BTreeMap IpAddr ℕ)
    → f ≡ v2
    → (elim f [ legacy ↦ x | v2 ↦ y ]) ≡ y
v2-map legacy x y e = ground arith
v2-map v2 x y e = refl

module _ {raft : OpenRaft} where
  eligible-is_alive :
      (t : KafStorageState raft) (blocked : BTreeSet ℕ) (n : ℕ)
      → BTreeSet.contains (eligible_nodes t.last_membership (eligibility_inputs t) blocked) n ≡ true
      → is_alive t n ≡ true
  unfolding eligible_nodes
  eligible-is_alive t blocked n h =
      let listed = sort_unstable (BTreeMap.keys (unique_voters t.last_membership)) in
      ground (
        arith,
        contains-retain (λ id. is_node_eligible id (eligibility_inputs t) blocked) listed n,
        contains-sort (BTreeMap.keys (unique_voters t.last_membership)) n,
        contains-keys (unique_voters t.last_membership) n,
        eligible-base n (eligibility_inputs t) blocked,
      )

  new_holders-is_alive :
      (t : KafStorageState raft) (w : IpAddr) (n : ℕ)
      → IsDistinct (addresses t.vip_list)
      → BTreeMap.get (new_holders t) w ≡ some n
      → is_alive t n ≡ true
  unfolding new_holders assign_vips_minimal_movement
  new_holders-is_alive t w n d = go t.failover_semantics refl
    where
      go :
          (f : FailoverSemantics)
          → t.failover_semantics ≡ f
          → BTreeMap.get (new_holders t) w ≡ some n
          → is_alive t n ≡ true
      go legacy e h = eligible-is_alive t t.node_failback_blocked n (
          assigned-eligible
            (eligible_nodes t.last_membership (eligibility_inputs t) t.node_failback_blocked) _ _ _
            w n d (ap (λ m. BTreeMap.get m w) (sym (legacy-map t.failover_semantics _ _ e)) ∙ h))
      go v2 e h = eligible-is_alive t [] n (
          assigned-eligible (eligible_nodes t.last_membership (eligibility_inputs t) []) _ _ _ w n d
            (ap (λ m. BTreeMap.get m w) (sym (v2-map t.failover_semantics _ _ e)) ∙ h))

  -- For a list of VIPs without duplicates, whoever the reconciliation assigns a VIP is a voter of the
  -- committed membership that is healthy and has not missed its probe rounds.
  pub fences-is_alive :
      (t : KafStorageState raft) (w : IpAddr) (a : VipAssignment)
      → IsDistinct (addresses t.vip_list)
      → BTreeMap.get (fences t).assignments w ≡ some a
      → is_alive t a.holder ≡ true
  fences-is_alive t w a d h = new_holders-is_alive t w a.holder d (
      either-holder (BTreeSet.contains (addresses t.vip_list) w) (BTreeMap.get (new_holders t) w)
        t.latest_probe_tick (slot_of w (vips_of t)) a
        (ap (λ (s : Slot). s.assignment) (sym (fences-slot t d w)) ∙ h))
