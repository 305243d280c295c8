-- ===== src/Reconciler/Examples.antt =====
-- Instances of the theorems on the reconciler's decisions.
pub mod Cluster
use keep_afloat_d.Prelude.{ℕ, ◌≡◌, refl, true, false, some, none, [], ◌∷◌, nat_ord, ℕ_discrete}
use keep_afloat_d.BTreeMap
use keep_afloat_d.Addr.{v4, ip_ord}
use keep_afloat_d.VipLogic.Eligibility.{is_node_probe_fresh}
use keep_afloat_d.VipLogic.Reconcile.{VipAssignment}
use keep_afloat_d.BindPolicy.{BindGates, all_open, is_fence_lifted, should_bind_or_keep_vip}
use keep_afloat_d.Store.State.{KafStorageState}
use keep_afloat_d.Store.Examples.{engine, booted}
use keep_afloat_d.Reconciler.Takeover.{Sample, ready}
use keep_afloat_d.Reconciler.Takeover.Wait.{after, IsAllowed, ready-IsAllowed}
use keep_afloat_d.Reconciler.Intent.{
  EffectIntent, capture, remains_valid, VipAssignment-discrete, Assigned-discrete,
  BindGates-discrete,
}
use keep_afloat_d.Reconciler.Intent.Valid.{IsCurrent, remains_valid-IsCurrent}

-- Node 2 is to take over from node 1, which has not released the address and is silent since tick 1.
abbrev taking : VipAssignment
taking = record {
  holder = 2;
  generation = 2;
  previous_holder = some 1;
  previous_holder_released = false;
  activation_tick = 4;
}

abbrev at : ℕ → Sample
at now = record {
  now = now;
  later = now;
  assignment = some taking;
  ticks = (1, 1) ∷ [];
  frontier = 10;
  activated_generation = none;
}

ready-IsAllowed_example : IsAllowed (v4 10) 2 3 50 (at 160) (at 130 ∷ at 100 ∷ [])
unfolding ready after is_node_probe_fresh BTreeMap.get BTreeMap.insert BTreeMap.remove ip_ord
ready-IsAllowed_example = ready-IsAllowed (v4 10) 2 3 50 (at 160) (at 130 ∷ at 100 ∷ []) refl

too_early : (ready (v4 10) 2 3 (at 149) (after (v4 10) 2 3 50 (at 130 ∷ at 100 ∷ []))).1 ≡ false
unfolding ready after is_node_probe_fresh BTreeMap.get BTreeMap.insert BTreeMap.remove ip_ord
too_early = refl

abbrev pub open_gates : BindGates
open_gates = record { has_leader = true; local_healthy = true; consensus_fresh = true }

abbrev seen : KafStorageState engine
seen = record booted {
  vip_assignments = (v4 10, taking) ∷ [];
  node_probe_ticks = (1, 1) ∷ (2, 10) ∷ [];
  latest_probe_tick = 10;
  stale_missed_probes = 3;
}

-- The same state, two rounds later.
abbrev seen_later : KafStorageState engine
seen_later = record seen { node_probe_ticks = (1, 1) ∷ (2, 12) ∷ []; latest_probe_tick = 12 }

abbrev taken : EffectIntent
taken = record {
  assignment = some taking;
  bind_policy = true;
  vip = v4 10;
  node_id = 2;
  gates = open_gates;
  activated_generation = none;
  previous_tick = some 1;
}

captured : capture (v4 10) 2 open_gates seen none ≡ taken
unfolding capture should_bind_or_keep_vip all_open is_fence_lifted is_node_probe_fresh BTreeMap.get
    ip_ord
captured = refl

remains_valid-IsCurrent_example : IsCurrent taken seen_later open_gates
unfolding remains_valid capture should_bind_or_keep_vip all_open is_fence_lifted is_node_probe_fresh
    BTreeMap.get ip_ord VipAssignment-discrete Assigned-discrete BindGates-discrete ℕ_discrete
remains_valid-IsCurrent_example = remains_valid-IsCurrent taken seen_later open_gates refl
