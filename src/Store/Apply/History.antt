-- ===== src/Store/Apply/History.antt =====
-- What the fences promise over the life of a cluster, from the state that a node starts with.
use keep_afloat_d.Prelude.{ℕ, ◌<◌, u64_max, Bool, some, List, ◌≡◌, subst, sym, arith, String}
use keep_afloat_d.BTreeMap
use keep_afloat_d.BTreeMap.{BTreeMap}
use keep_afloat_d.BTreeSet.Distinct.{IsDistinct}
use keep_afloat_d.Addr.{IpAddr, ip_ord, VipAddr}
use keep_afloat_d.VipLogic.Reconcile.{VipAssignment}
use keep_afloat_d.VipLogic.Reconcile.Slots.{Slot}
use keep_afloat_d.VipLogic.Reconcile.Fencing.{IsFenced, Later}
use keep_afloat_d.Store.OpenRaft.{OpenRaft}
use keep_afloat_d.Store.State.{KafStorageState, Entry, new}
use keep_afloat_d.Store.Recompute.{addresses}
use keep_afloat_d.Store.Machine.Frame.{vips_of}
use keep_afloat_d.Store.Apply.{apply_all}
use keep_afloat_d.Store.Apply.Fencing.{IsSound, slot_of, apply_all-Follows}

-- Two assignments of one generation, where both slots are fenced, have one holder.
fenced_holder :
    (s t : Slot) (a b : VipAssignment)
    → s.assignment ≡ some a
    → t.assignment ≡ some b
    → IsFenced s
    → IsFenced t
    → Later s t
    → a.generation ≡ b.generation
    → a.generation < u64_max
    → a.holder ≡ b.holder
fenced_holder s t a b at_s at_t u v later e h =
    ground (arith, u.matching, v.matching, later.same_holder)

pub new-IsSound :
    (raft : OpenRaft) (vip_list : List (VipAddr × String)) (stale : ℕ) (failback : Bool) (delay : ℕ)
    (w : IpAddr)
    → IsSound (slot_of w (vips_of (new {raft = raft} vip_list stale failback delay)))
unfolding new BTreeMap.get
new-IsSound raft vip_list stale failback delay w = record {
  fenced = record { matching = tt; counted = tt };
  in_range = omega arith;
}

module _ {raft : OpenRaft} where
  -- A node starts with a list of VIPs without duplicates and applies a log, and later a further part of it.
  -- Where a VIP has an assignment at both times, with the same generation, and the generation has not met
  -- the end of `u64`, then both have the same holder.
  pub generation_names_holder :
      (vip_list : List (VipAddr × String)) (stale : ℕ) (failback : Bool) (delay : ℕ)
      (log further : List (Entry raft)) (w : IpAddr) (a b : VipAssignment)
      → IsDistinct (addresses vip_list)
      → BTreeMap.get (apply_all log (new vip_list stale failback delay)).vip_assignments w ≡ some a
      → BTreeMap.get
          (apply_all further (apply_all log (new vip_list stale failback delay))).vip_assignments
          w
        ≡ some b
      → a.generation ≡ b.generation
      → a.generation < u64_max
      → a.holder ≡ b.holder
  generation_names_holder vip_list stale failback delay log further w a b d at_s at_t e h =
      let start : KafStorageState raft = new vip_list stale failback delay in
      let s = apply_all log start in
      let began = apply_all-Follows log start (unfold new in d) in
      let sound = began.sound w (new-IsSound raft vip_list stale failback delay w) in
      let went =
        apply_all-Follows further s
          (subst (λ vs. IsDistinct (addresses vs)) (sym began.vip_list) (unfold new in d)) in
      fenced_holder (slot_of w (vips_of s)) (slot_of w (vips_of (apply_all further s))) a b at_s
        at_t sound.fenced (went.sound w sound).fenced (went.later w sound) e h
