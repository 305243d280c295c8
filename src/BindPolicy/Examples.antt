-- ===== src/BindPolicy/Examples.antt =====
-- Instances of the theorems on the bind policy.
use keep_afloat_d.Prelude.{
  ℕ, ◌≤◌, Bool, true, false, none, some, List, [], ◌∷◌, ◌≡◌, ◌↔◌, refl, nat_ord,
}
use keep_afloat_d.BTreeMap.{BTreeMap}
use keep_afloat_d.BTreeSet
use keep_afloat_d.BTreeSet.Distinct.{IsDistinct}
use keep_afloat_d.Addr.{v4}
use keep_afloat_d.VipLogic.Reconcile.{VipAssignment}
use keep_afloat_d.BindPolicy.{BindGates, should_bind_or_keep_vip, binder_count_for_vip}
use keep_afloat_d.BindPolicy.Bind.{MayBind, should_bind_iff, binder_count_le_one}

abbrev open_gates : BindGates
open_gates = record { has_leader = true; local_healthy = true; consensus_fresh = true }

-- A handoff from node 1 to node 2.
abbrev handed_over : VipAssignment
handed_over = record {
  holder = 2;
  generation = 2;
  previous_holder = some 1;
  previous_holder_released = false;
  activation_tick = 3;
}

abbrev ticks : BTreeMap ℕ ℕ
ticks = (1, 3) ∷ (2, 9) ∷ []

should_bind_iff_example :
    (should_bind_or_keep_vip open_gates 2 (some handed_over) ticks 9 3 none ≡ true)
    ↔ MayBind open_gates 2 (some handed_over) ticks 9 3 none
should_bind_iff_example = should_bind_iff open_gates 2 (some handed_over) ticks 9 3 none

abbrev peers : List ℕ
peers = 1 ∷ 2 ∷ 3 ∷ []

abbrev all_true : BTreeMap ℕ Bool
all_true = (1, true) ∷ (2, true) ∷ (3, true) ∷ []

peers-IsDistinct : IsDistinct peers
unfolding BTreeSet.contains
peers-IsDistinct = (refl, (refl, (refl, tt)))

binder_count_le_one_example :
    binder_count_for_vip true (v4 10) ((v4 10, handed_over) ∷ []) peers all_true all_true ticks 9 3
    ≤ 1
binder_count_le_one_example =
    binder_count_le_one true (v4 10) ((v4 10, handed_over) ∷ []) peers all_true all_true ticks 9 3
      peers-IsDistinct
