-- ===== src/Reconciler/Intent.antt =====
-- `EffectIntent` of src/vip/reconcile/intent.rs, and the duty to acknowledge a release and the length of
-- a takeover of src/vip/reconcile.rs, with two decisions of src/vip.rs.
pub mod Valid
use keep_afloat_d.Prelude.{
  ℕ, ◌+◌, ◌*◌, min, Bool, true, false, not, ◌&&◌, ◌||◌, Option, none, some, leb, ◌==◌,
  if◌then◌else◌, is_some, nat_ord, equal, ℕ_discrete,
}
use keep_afloat_d.BTreeMap
use keep_afloat_d.BTreeMap.{BTreeMap}
use keep_afloat_d.Addr.{IpAddr, ip_ord}
use keep_afloat_d.VipLogic.Reconcile.{VipAssignment}
use keep_afloat_d.BindPolicy.{BindGates, should_bind_or_keep_vip, is_activated}
use keep_afloat_d.Store.OpenRaft.{OpenRaft}
use keep_afloat_d.Store.State.{KafStorageState}
use keep_afloat_d.Reconciler.Takeover.{same_tick, tick_of}
use keep_afloat_d.Admission.Duration.{duration_max, u32_max, saturating_duration_add}
use keep_afloat_d.Admission.Timing.{shutdown_vip_budget, reconcile_tick}

-- The derived equalities.
unfoldable pub VipAssignment-discrete : Discrete VipAssignment
unfolding ℕ_discrete
VipAssignment-discrete = hlevel ℕ_discrete

unfoldable pub Assigned-discrete : Discrete (Option VipAssignment)
unfolding VipAssignment-discrete
Assigned-discrete = hlevel VipAssignment-discrete

unfoldable pub BindGates-discrete : Discrete BindGates
BindGates-discrete = hlevel

pub record EffectIntent : Type 0 where
  pub assignment : Option VipAssignment
  pub bind_policy : Bool
  pub vip : IpAddr
  pub node_id : ℕ
  pub gates : BindGates
  pub activated_generation : Option ℕ
  pub previous_tick : Option ℕ

abbrev pub previous_of : Option VipAssignment → Option ℕ
previous_of none = none
previous_of (some a) = a.previous_holder

abbrev pub generation_of : Option VipAssignment → Option ℕ
generation_of none = none
generation_of (some a) = some a.generation

-- `EffectIntent::activated`
unfoldable pub activated : EffectIntent → EffectIntent
activated intent = record intent { activated_generation = generation_of intent.assignment }

module _ {raft : OpenRaft} where
  -- `EffectIntent::capture`
  unfoldable pub capture : IpAddr → ℕ → BindGates → KafStorageState raft → Option ℕ → EffectIntent
  unfolding should_bind_or_keep_vip
  capture vip node_id gates state activated_generation =
      let assignment = BTreeMap.get state.vip_assignments vip in
      record {
        assignment = assignment;
        bind_policy =
            should_bind_or_keep_vip gates node_id assignment state.node_probe_ticks
              state.latest_probe_tick state.stale_missed_probes activated_generation;
        vip = vip;
        node_id = node_id;
        gates = gates;
        activated_generation = activated_generation;
        previous_tick = tick_of (previous_of assignment) state.node_probe_ticks;
      }

-- Whether the assignment's release is recorded.
abbrev pub is_released : Option VipAssignment → Bool
is_released none = false
is_released (some a) = a.previous_holder_released

-- The assignment that `remains_valid` expects: a release that completes does not revoke the holder
-- that has activated this generation.
abbrev pub expected :
    EffectIntent → Option VipAssignment → Option VipAssignment → Option VipAssignment
expected intent none current = none
expected intent (some a) current =
    if a.holder == intent.node_id
      && is_activated intent.activated_generation a.generation
      && is_released current
    then some (record a { previous_holder_released = true })
    else some a

-- Whether the intent waits for its predecessor.
abbrev pub is_waiting : EffectIntent → Option VipAssignment → Bool
is_waiting intent none = false
is_waiting intent (some a) =
    a.holder == intent.node_id
    && is_some a.previous_holder
    && not a.previous_holder_released
    && not (is_activated intent.activated_generation a.generation)

abbrev pub same_flag : Bool → Bool → Bool
same_flag true b = b
same_flag false b = not b

-- The comparison of an intent with the one that is captured now.
abbrev pub differs : EffectIntent → BindGates → EffectIntent → Bool
differs intent gates current =
    not (
      equal Assigned-discrete (expected intent intent.assignment current.assignment)
        current.assignment)
    || not (equal BindGates-discrete intent.gates gates)
    || not (same_flag intent.bind_policy current.bind_policy)

module _ {raft : OpenRaft} where
  -- `EffectIntent::remains_valid`
  unfoldable pub remains_valid : EffectIntent → KafStorageState raft → BindGates → Bool
  unfolding capture Assigned-discrete BindGates-discrete
  remains_valid intent state gates =
      let current = capture intent.vip intent.node_id gates state intent.activated_generation in
      if differs intent gates current
      then false
      else not (is_waiting intent intent.assignment)
        || same_tick intent.previous_tick current.previous_tick

-- `released_generations.get(&vip).copied() == Some(generation)`, and `should_publish_release`
unfoldable pub should_publish_release : VipAssignment → ℕ → IpAddr → BTreeMap IpAddr ℕ → Bool → Bool
should_publish_release assignment node_id vip released_generations unbind_succeeded =
    unbind_succeeded
    && is_activated assignment.previous_holder node_id
    && not assignment.previous_holder_released
    && not (is_activated (BTreeMap.get released_generations vip) assignment.generation)

-- `should_reannounce_after_release`
unfoldable pub should_reannounce_after_release :
    VipAssignment → IpAddr → Bool → BTreeMap IpAddr ℕ → Bool
should_reannounce_after_release assignment vip already_bound announced_release_generations =
    already_bound
    && is_some assignment.previous_holder
    && assignment.previous_holder_released
    && not (is_activated (BTreeMap.get announced_release_generations vip) assignment.generation)

-- `startup_effects_may_arm`
unfoldable pub startup_effects_may_arm : Bool → Option ℕ → Option ℕ → Bool
startup_effects_may_arm false applied committed = false
startup_effects_may_arm true none committed = false
startup_effects_may_arm true (some applied) none = false
startup_effects_may_arm true (some applied) (some committed) = leb committed applied

-- `Duration::saturating_mul`
abbrev pub saturating_duration_mul : ℕ → ℕ → ℕ
saturating_duration_mul d k = min (d * k) duration_max

-- `takeover_lifetime`
unfoldable pub takeover_lifetime : ℕ → ℕ → ℕ
takeover_lifetime proof_lifetime vip_count =
    let cleanup_work =
      if leb vip_count u32_max
      then saturating_duration_mul shutdown_vip_budget vip_count
      else duration_max in
    saturating_duration_add proof_lifetime (saturating_duration_add reconcile_tick cleanup_work)
