-- ===== src/VipLogic/Reconcile.antt =====
-- `reconcile_vip_assignments` of src/raft/store/vip_logic.rs, with `VipAssignment` and the activation
-- holdoff of src/raft/store/state.rs. The pass through `vip_list` is a fold over the four maps that
-- the loop changes.
pub mod Slots
pub mod Fencing
use keep_afloat_d.Prelude.{
  ℕ, ◌+◌, Bool, true, false, Option, none, some, List, [], ◌∷◌, ◌==◌, if◌then◌else◌, saturating_add,
  is_some, not,
}
use keep_afloat_d.BTreeMap
use keep_afloat_d.BTreeMap.{BTreeMap}
use keep_afloat_d.Addr.{IpAddr, ip_ord}

pub record VipAssignment : Type 0 where
  pub holder : ℕ
  pub generation : ℕ
  pub previous_holder : Option ℕ
  pub previous_holder_released : Bool
  pub activation_tick : ℕ

abbrev pub ownership_activation_holdoff_ticks : ℕ
ownership_activation_holdoff_ticks = 1

-- The maps that the loop changes: `next`, `out_assignments`, `vip_generation` and `vip_last_holder`.
pub record Fences : Type 0 where
  pub next : BTreeMap IpAddr VipAssignment
  pub assignments : BTreeMap IpAddr VipAssignment
  pub generation : BTreeMap IpAddr ℕ
  pub last_holder : BTreeMap IpAddr ℕ

-- The assignment of a VIP whose holder changes from `existing`.
abbrev pub hand_over : ℕ → ℕ → VipAssignment → ℕ → VipAssignment
hand_over holder generation existing latest_probe_tick = record {
  holder = holder;
  generation = generation;
  previous_holder = some existing.holder;
  previous_holder_released = false;
  activation_tick = saturating_add latest_probe_tick ownership_activation_holdoff_ticks;
}

-- The assignment of a VIP that has no holder now; only a cold start activates at once.
abbrev pub take_up : ℕ → ℕ → Option ℕ → ℕ → VipAssignment
take_up holder current_generation previous_holder latest_probe_tick = record {
  holder = holder;
  generation = saturating_add current_generation 1;
  previous_holder = previous_holder;
  previous_holder_released = not (is_some previous_holder);
  activation_tick =
      if current_generation == 0
      then latest_probe_tick
      else saturating_add latest_probe_tick ownership_activation_holdoff_ticks;
}

-- The new assignment of one VIP.
abbrev pub assignment_for : Option VipAssignment → ℕ → ℕ → Option ℕ → ℕ → VipAssignment
assignment_for (some existing) holder current_generation last latest_probe_tick =
    if existing.holder == holder
    then existing
    else hand_over holder (saturating_add current_generation 1) existing latest_probe_tick
assignment_for none holder current_generation last latest_probe_tick =
    take_up holder current_generation last latest_probe_tick

-- Whether the holder changes, so that the generation is bumped.
abbrev pub bumps : Option VipAssignment → ℕ → Bool
bumps (some existing) holder = not (existing.holder == holder)
bumps none holder = true

-- `vip_last_holder` with the holder of the old assignment, if there is one.
unfoldable pub remember : Option VipAssignment → IpAddr → BTreeMap IpAddr ℕ → BTreeMap IpAddr ℕ
remember none vip last_holder = last_holder
remember (some existing) vip last_holder = BTreeMap.insert last_holder vip existing.holder

-- The rest of the round, by the new holder and the old assignment of `vip`.
unfoldable pub settle : Option ℕ → Option VipAssignment → ℕ → IpAddr → Fences → Fences
unfolding remember
settle none old_assignment latest_probe_tick vip f = record f {
  assignments = BTreeMap.remove f.assignments vip;
  last_holder = remember old_assignment vip f.last_holder;
}
settle (some holder) old_assignment latest_probe_tick vip f =
    let current_generation = BTreeMap.get_or f.generation vip 0 in
    let last_holder = remember old_assignment vip f.last_holder in
    record {
      next = BTreeMap.insert f.next vip (
          assignment_for old_assignment holder current_generation (BTreeMap.get last_holder vip)
            latest_probe_tick);
      assignments = BTreeMap.remove f.assignments vip;
      generation =
          if bumps old_assignment holder
          then BTreeMap.insert f.generation vip (saturating_add current_generation 1)
          else f.generation;
      last_holder = BTreeMap.insert last_holder vip holder;
    }

-- One round of the loop.
unfoldable pub reconcile_one : BTreeMap IpAddr ℕ → ℕ → IpAddr → Fences → Fences
unfolding settle
reconcile_one new_holders latest_probe_tick vip f =
    settle (BTreeMap.get new_holders vip) (BTreeMap.get f.assignments vip) latest_probe_tick vip f

unfoldable pub reconcile_from : BTreeMap IpAddr ℕ → ℕ → List IpAddr → Fences → Fences
unfolding reconcile_one
reconcile_from new_holders latest_probe_tick [] f = f
reconcile_from new_holders latest_probe_tick (vip ∷ vips) f =
    reconcile_from new_holders latest_probe_tick vips
      (reconcile_one new_holders latest_probe_tick vip f)

-- `vips` are the addresses of `vip_list`. The result's `assignments` are the new ones.
unfoldable pub reconcile_vip_assignments :
    BTreeMap IpAddr ℕ
    → ℕ
    → List IpAddr
    → BTreeMap IpAddr VipAssignment
    → BTreeMap IpAddr ℕ
    → BTreeMap IpAddr ℕ
    → Fences
unfolding reconcile_from
reconcile_vip_assignments new_holders latest_probe_tick vips out_assignments vip_generation
      vip_last_holder =
    let f = reconcile_from new_holders latest_probe_tick vips (record {
      next = [];
      assignments = out_assignments;
      generation = vip_generation;
      last_holder = vip_last_holder;
    }) in
    record f { assignments = f.next }
